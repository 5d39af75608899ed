-- ===== src/Types/Payload/Wire.antt =====
-- Payload modes (src/types/payload.rs) are read back from JSON as they were written.
use ldp_protocol.Common.{◌≡◌, refl, some, List, [], ◌∷◌, map}
use ldp_protocol.Externals.{Externals, JsonLaws}
use ldp_protocol.Types.Payload
use ldp_protocol.Types.Payload.{
  PayloadMode, text, semantic_frame, embedding_hints, semantic_graph, parse_mode, from_values,
  to_value, modes_to_value, modes_from_value,
}

pub parse_mode-to_string : (m : PayloadMode) → parse_mode (Payload.to_string m) ≡ some m
parse_mode-to_string text = refl
parse_mode-to_string semantic_frame = refl
parse_mode-to_string embedding_hints = refl
parse_mode-to_string semantic_graph = refl

module _ ⦃ext : Externals⦄ (laws : JsonLaws) where
  pub from_value-to_value : (m : PayloadMode) → Payload.from_value (to_value m) ≡ some m
  from_value-to_value m = rw laws.as_str-string (parse_mode-to_string m)

  pub from_values-to_value : (ms : List PayloadMode) → from_values (map to_value ms) ≡ some ms
  from_values-to_value [] = refl
  from_values-to_value (m ∷ ms) = rw (from_value-to_value m, from_values-to_value ms) refl

  pub modes_from_value-modes_to_value :
      (ms : List PayloadMode) → modes_from_value (modes_to_value ms) ≡ some ms
  modes_from_value-modes_to_value ms = rw laws.as_array-array (from_values-to_value ms)
