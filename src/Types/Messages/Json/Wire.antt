-- ===== src/Types/Messages/Json/Wire.antt =====
-- A message (src/types/messages.rs) is read back from JSON as it was written.
use mathlib.Core.Option.{or_else}
use ldp_protocol.Common.{◌≡◌, refl, Option, none, some, option_map}
use ldp_protocol.Externals.{Externals, JsonLaws, KindLaws, json, nullable}
use ldp_protocol.Json.{read_option}
use ldp_protocol.Json.Reading.{
  entry, field_rules, get-json, read_option-map, read_option-nullable, ReadsAny, read_text,
  read_text_nullable, read_float_nullable, AreFinite, IsFull,
}
use ldp_protocol.Types.Contract
use ldp_protocol.Types.Contract.{DelegationContract}
use ldp_protocol.Types.Contract.Wire.{IsContract}
use ldp_protocol.Types.Error
use ldp_protocol.Types.Error.{LdpError}
use ldp_protocol.Types.Messages.{
  LdpEnvelope, LdpMessageBody, hello, capability_manifest, session_propose, session_accept,
  session_reject, task_submit, task_update, task_result, task_failed, task_cancel, attestation,
  session_close,
}
use ldp_protocol.Types.Messages.Json.{
  body_to_value, body_from_value, read_variant, to_value, from_value,
}
use ldp_protocol.Types.Payload.Wire.{parse_mode-to_string, from_values-to_value}
use ldp_protocol.Types.Provenance
use ldp_protocol.Types.Provenance.{Provenance}
use ldp_protocol.Types.Provenance.Wire.{IsProvenance}

module _ ⦃ext : Externals⦄ where
  -- What the Rust types hold, and no partial output that is null.
  abbrev pub IsErrorOption : Option LdpError → Type 0
  IsErrorOption none = Unit
  IsErrorOption (some e) = IsFull e.partial_output

  abbrev pub IsContractOption : Option DelegationContract → Type 0
  IsContractOption none = Unit
  IsContractOption (some c) = IsContract c

  abbrev pub IsProvenanceOption : Option Provenance → Type 0
  IsProvenanceOption none = Unit
  IsProvenanceOption (some p) = IsProvenance p

  abbrev pub IsBody : LdpMessageBody → Type 0
  IsBody (session_reject _ error) = IsErrorOption error
  IsBody (task_submit _ _ _ contract) = IsContractOption contract
  IsBody (task_update _ progress _) = AreFinite progress
  IsBody (task_result _ _ provenance) = IsProvenance provenance
  IsBody (task_failed _ error) = IsFull error.partial_output
  IsBody _ = Unit

  -- A message that JSON can carry.
  abbrev pub IsMessage : LdpEnvelope → Type 0
  IsMessage e = IsBody e.body × IsProvenanceOption e.provenance

  module _ (laws : JsonLaws) (kinds : KindLaws) where
    read_error :
        (o : Option LdpError)
        → IsErrorOption o
        → read_option Error.from_value (option_map Error.to_value o) ≡ some o
    unfolding Error.to_value json
    read_error o h = read_option-map Error.to_value Error.from_value o (go o h)
      where
        go : (q : Option LdpError) → IsErrorOption q → ReadsAny Error.to_value Error.from_value q
        go none h = tt
        go (some e) h = (kinds.is_null-object _, Error.Wire.from_value-to_value laws kinds e h)

    read_contract :
        (o : Option DelegationContract)
        → IsContractOption o
        → read_option Contract.from_value (option_map Contract.to_value o) ≡ some o
    unfolding Contract.to_value json
    read_contract o h = read_option-map Contract.to_value Contract.from_value o (go o h)
      where
        go :
            (q : Option DelegationContract)
            → IsContractOption q
            → ReadsAny Contract.to_value Contract.from_value q
        go none h = tt
        go (some x) h = (kinds.is_null-object _, Contract.Wire.from_value-to_value laws kinds x h)

    read_provenance :
        (o : Option Provenance)
        → IsProvenanceOption o
        → read_option Provenance.from_value (some (nullable Provenance.to_value o)) ≡ some o
    unfolding Provenance.to_value json
    read_provenance o h =
        read_option-nullable Provenance.to_value Provenance.from_value kinds o (go o h)
      where
        go :
            (q : Option Provenance)
            → IsProvenanceOption q
            → ReadsAny Provenance.to_value Provenance.from_value q
        go none h = tt
        go (some p) h = (kinds.is_null-object _, Provenance.Wire.from_value-to_value laws kinds p h)

    -- A body is read back as it was written.
    pub body_from_value-body_to_value :
        (b : LdpMessageBody) → IsBody b → body_from_value (body_to_value b) ≡ some b
    unfolding body_from_value body_to_value read_variant entry or_else
    body_from_value-body_to_value (hello d m) h =
        simp
          (
            get-json laws,
            field_rules,
            laws.as_str-string,
            laws.as_array-array,
            from_values-to_value laws,
          )
          refl
    body_from_value-body_to_value (capability_manifest c) h =
        simp (get-json laws, field_rules, laws.as_str-string) refl
    body_from_value-body_to_value (session_propose c) h =
        simp (get-json laws, field_rules, laws.as_str-string) refl
    body_from_value-body_to_value (session_accept i m) h =
        simp (get-json laws, field_rules, laws.as_str-string, parse_mode-to_string) refl
    body_from_value-body_to_value (session_reject r e) h =
        simp (get-json laws, field_rules, laws.as_str-string, read_error e h) refl
    body_from_value-body_to_value (task_submit t k v c) h =
        simp (get-json laws, field_rules, laws.as_str-string, read_contract c h) refl
    body_from_value-body_to_value (task_update t p m) h =
        simp
          (
            get-json laws,
            field_rules,
            laws.as_str-string,
            read_float_nullable laws kinds p h,
            read_text_nullable laws kinds,
          )
          refl
    body_from_value-body_to_value (task_result t v p) h =
        simp
          (
            get-json laws,
            field_rules,
            laws.as_str-string,
            Provenance.Wire.from_value-to_value laws kinds p h,
          )
          refl
    body_from_value-body_to_value (task_failed t e) h =
        simp
          (
            get-json laws,
            field_rules,
            laws.as_str-string,
            Error.Wire.from_value-to_value laws kinds e h,
          )
          refl
    body_from_value-body_to_value (task_cancel t) h =
        simp (get-json laws, field_rules, laws.as_str-string) refl
    body_from_value-body_to_value (attestation c e) h =
        simp (get-json laws, field_rules, laws.as_str-string) refl
    body_from_value-body_to_value (session_close r) h =
        simp (get-json laws, field_rules, laws.as_str-string, read_text_nullable laws kinds) refl

    -- Any message that the Rust types can hold, with finite numbers and without a partial output that
    -- is null, is read back from its JSON exactly as it was written: all twelve bodies, the
    -- provenance, the contract with its policy and budget, and the signature.
    pub envelope_round_trip : (e : LdpEnvelope) → IsMessage e → from_value (to_value e) ≡ some e
    unfolding from_value to_value entry or_else
    envelope_round_trip e (body, provenance) =
        simp
          (
            get-json laws,
            field_rules,
            laws.as_str-string,
            parse_mode-to_string,
            body_from_value-body_to_value e.body body,
            read_provenance e.provenance provenance,
            read_text laws kinds,
          )
          refl
