-- ===== src/Types/Provenance/Wire.antt =====
-- Provenance (src/types/provenance.rs) is read back from JSON as it was written, and from JSON of
-- before its newer fields.
use mathlib.Core.Option.{or_else}
use ldp_protocol.Common.{
  String, Bool, true, ◌≡◌, refl, ap, none, some, [], ◌∷◌, false, option_map, if◌then◌else◌,
}
use ldp_protocol.Externals.{Externals, JsonLaws, KindLaws, json}
use ldp_protocol.Json.{read_option}
use ldp_protocol.Json.Reading.{
  entry, field_rules, get-json, read_text, read_text_nullable, read_texts, read_number, read_float,
  read_float_nullable, read_bool, AreWords, AreFinite,
}
use ldp_protocol.Types.Payload
use ldp_protocol.Types.Payload.{PayloadMode}
use ldp_protocol.Types.Payload.Wire.{parse_mode-to_string}
use ldp_protocol.Types.Provenance.{Provenance, to_value, from_value, normalize}
use ldp_protocol.Types.Verification.{unverified, self_verified}
use ldp_protocol.Types.Verification.Wire.{parse_status-status_name, read_evidence, read_lineage}

module _ ⦃ext : Externals⦄ where
  -- What the Rust type holds: a u64, and f64 that are finite.
  abbrev pub IsProvenance : Provenance → Type 0
  IsProvenance p = AreFinite p.confidence × AreWords p.tokens_used × AreFinite p.cost_usd

  -- Provenance of before the contract and verification fields: the fields that were there then.
  abbrev pub older : String → String → PayloadMode → Bool → ext.Value
  older delegate_id version mode verified = json (
      ("produced_by", ext.string delegate_id)
      ∷ ("model_version", ext.string version)
      ∷ ("payload_mode_used", Payload.to_value mode)
      ∷ ("verified", ext.bool verified)
      ∷ [])

  -- What is read of it.
  abbrev pub plain : String → String → PayloadMode → Bool → Provenance
  plain delegate_id version mode verified = record {
    produced_by = delegate_id;
    model_version = version;
    payload_mode_used = mode;
    confidence = none;
    verified = verified;
    session_id = none;
    timestamp = none;
    tokens_used = none;
    cost_usd = none;
    contract_id = none;
    contract_satisfied = none;
    contract_violations = [];
    verification_status = unverified;
    evidence = [];
    lineage = [];
  }

  module _ (laws : JsonLaws) (kinds : KindLaws) where
    pub from_value-to_value : (p : Provenance) → IsProvenance p → from_value (to_value p) ≡ some p
    unfolding from_value to_value entry or_else
    from_value-to_value p (confidence, tokens, cost) =
        simp
          (
            get-json laws,
            field_rules,
            laws.as_str-string,
            kinds.as_bool-bool,
            parse_status-status_name,
            parse_mode-to_string,
            read_float_nullable laws kinds p.confidence confidence,
            read_text_nullable laws kinds,
            read_number laws kinds p.tokens_used tokens,
            read_float laws kinds p.cost_usd cost,
            read_text laws kinds,
            read_bool laws kinds,
            read_texts laws kinds,
            read_evidence laws kinds,
            read_lineage laws kinds,
          )
          refl

    pub from_value-older :
        (delegate_id version : String) (mode : PayloadMode) (verified : Bool)
        → from_value (older delegate_id version mode verified)
          ≡ some (plain delegate_id version mode verified)
    unfolding from_value entry or_else read_option
    from_value-older delegate_id version mode verified =
        simp (get-json laws, laws.as_str-string, kinds.as_bool-bool, parse_mode-to_string) refl

    -- Provenance from a delegate of before the contract and verification fields is read: its four
    -- fields are kept, all others are empty, and after normalization its status is self_verified
    -- where it says `verified`, and unverified where it does not.
    pub normalize-from_value-older :
        (delegate_id version : String) (mode : PayloadMode) (verified : Bool)
        → option_map normalize (from_value (older delegate_id version mode verified))
          ≡ some (record (plain delegate_id version mode verified) {
            verification_status = if verified then self_verified else unverified;
          })
    unfolding normalize
    normalize-from_value-older delegate_id version mode true =
        ap (option_map normalize) (from_value-older delegate_id version mode true)
    normalize-from_value-older delegate_id version mode false =
        ap (option_map normalize) (from_value-older delegate_id version mode false)
