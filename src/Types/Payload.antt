-- ===== src/Types/Payload.antt =====
-- src/types/payload.rs: payload modes and their negotiation.
pub mod Negotiation
pub mod Wire
use ldp_protocol.Common.{
  ℕ, String, ◌≡◌, refl, ◌↔◌, Bool, true, false, not, ◌&&◌, Option, none, some, List, [], ◌∷◌, map,
  arith, ltb, find, filter, any, unwrap_or, and_then, option_map, ◌==◌, if◌then◌else◌,
}
use ldp_protocol.Externals.{Externals}

pub data PayloadMode : Type 0 where
  text semantic_frame embedding_hints semantic_graph : PayloadMode

abbrev pub mode_number : PayloadMode → ℕ
mode_number text = 0
mode_number semantic_frame = 1
mode_number embedding_hints = 2
mode_number semantic_graph = 3

abbrev pub is_implemented : PayloadMode → Bool
is_implemented text = true
is_implemented semantic_frame = true
is_implemented embedding_hints = false
is_implemented semantic_graph = false

-- Display, which writes the name that serde's snake_case gives too.
abbrev pub to_string : PayloadMode → String
to_string text = "text"
to_string semantic_frame = "semantic_frame"
to_string embedding_hints = "embedding_hints"
to_string semantic_graph = "semantic_graph"

-- The derived PartialEq.
abbrev pub mode_eq : PayloadMode → PayloadMode → Bool
mode_eq text text = true
mode_eq semantic_frame semantic_frame = true
mode_eq embedding_hints embedding_hints = true
mode_eq semantic_graph semantic_graph = true
mode_eq _ _ = false

pub mode_eq_iff : (a b : PayloadMode) → (mode_eq a b ≡ true) ↔ (a ≡ b)
mode_eq_iff text b = ground arith
mode_eq_iff semantic_frame b = ground arith
mode_eq_iff embedding_hints b = ground arith
mode_eq_iff semantic_graph b = ground arith

-- slice::contains
unfoldable pub contains : List PayloadMode → PayloadMode → Bool
unfolding any
contains modes mode = any (mode_eq mode) modes

pub record NegotiatedPayload : Type 0 where
  pub mode : PayloadMode
  pub fallback_chain : List PayloadMode

-- NegotiatedPayload::default
abbrev pub default : NegotiatedPayload
default = record { mode = semantic_frame; fallback_chain = text ∷ [] }

-- The closure of `find`: implemented, and supported by the responder.
abbrev pub is_common : List PayloadMode → PayloadMode → Bool
is_common responder_prefs mode = is_implemented mode && contains responder_prefs mode

-- The closure of `filter`.
abbrev pub is_fallback : List PayloadMode → PayloadMode → PayloadMode → Bool
is_fallback responder_prefs agreed mode =
    is_implemented mode
    && not (mode_eq mode agreed)
    && contains responder_prefs mode
    && ltb (mode_number mode) (mode_number agreed)

unfoldable pub negotiate_payload_mode : List PayloadMode → List PayloadMode → NegotiatedPayload
unfolding find filter contains
negotiate_payload_mode initiator_prefs responder_prefs =
    let agreed = unwrap_or (find (is_common responder_prefs) initiator_prefs) text in
    record {
      mode = agreed;
      fallback_chain = filter (is_fallback responder_prefs agreed) initiator_prefs;
    }

abbrev pub parse_mode : String → Option PayloadMode
parse_mode s =
    if s == "text"
    then some text
    else if s == "semantic_frame"
    then some semantic_frame
    else if s == "embedding_hints"
    then some embedding_hints
    else if s == "semantic_graph"
    then some semantic_graph
    else none

module _ ⦃ext : Externals⦄ where
  -- The derived Serialize and Deserialize, under rename_all = "snake_case".
  abbrev pub to_value : PayloadMode → ext.Value
  to_value mode = ext.string (to_string mode)

  abbrev pub from_value : ext.Value → Option PayloadMode
  from_value v = and_then (ext.as_str v) parse_mode

  abbrev pub modes_to_value : List PayloadMode → ext.Value
  modes_to_value modes = ext.array (map to_value modes)

  abbrev pub from_values : List ext.Value → Option (List PayloadMode)
  from_values [] = some []
  from_values (v ∷ vs) = and_then (from_value v) (λ mode. option_map (◌∷◌ mode) (from_values vs))

  abbrev pub modes_from_value : ext.Value → Option (List PayloadMode)
  modes_from_value v = and_then (ext.as_array v) from_values
