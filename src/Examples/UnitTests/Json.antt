-- ===== src/Examples/UnitTests/Json.antt =====
-- The unit tests in src/types/error.rs, src/types/contract.rs, src/types/provenance.rs,
-- src/types/verification.rs and src/types/capability.rs that read a value back from JSON, for any
-- JSON with the laws of serde_json's values.
use mathlib.Core.Option.{or_else}
use ldp_protocol.Common.{
  true, false, ◌≡◌, refl, ◌⊎◌, inl, inr, Option, option_map, none, some, [], ◌∷◌, arith,
}
use ldp_protocol.Externals.{Externals, Entropy, JsonLaws, KindLaws, get}
use ldp_protocol.Json.Reading.{entry, get-json}
use ldp_protocol.Types.Capability
use ldp_protocol.Types.Capability.{
  ClaimType, QualityMetrics, self_claimed, issuer_attested, runtime_observed,
  externally_benchmarked, quality_to_value, quality_from_value,
}
use ldp_protocol.Types.Capability.Wire.{quality_from_value-quality_to_value}
use ldp_protocol.Types.Contract
use ldp_protocol.Types.Contract.{
  DelegationContract, FailurePolicy, fail_closed, with_deadline, with_budget, with_failure_policy,
}
use ldp_protocol.Types.Error
use ldp_protocol.Types.Error.{LdpError}
use ldp_protocol.Types.Payload.{text}
use ldp_protocol.Types.Provenance
use ldp_protocol.Types.Provenance.{Provenance, normalize}
use ldp_protocol.Types.Provenance.Wire.{older, from_value-older, normalize-from_value-older}
use ldp_protocol.Types.Verification
use ldp_protocol.Types.Verification.{
  VerificationStatus, EvidenceRef, ProvenanceEntry, unverified, self_verified, status_name,
  status_from_value, evidence_to_value, evidence_from_value, entry_to_value, entry_from_value,
}
use ldp_protocol.Types.Verification.Wire.{evidence_from_value-to_value, entry_from_value-to_value}

-- A value is read, and it has a property.
abbrev Restored : {A : Type 0} → Option A → (A → Type 0) → Type 0
Restored {A} o P = (restored : A) × (o ≡ some restored) × P restored

module _ ⦃ext : Externals⦄ where
  -- src/types/error.rs
  abbrev skill_not_found : LdpError
  skill_not_found = Error.capability "SKILL_NOT_FOUND" "No such skill"

  abbrev ErrorRoundtrip : Type 0
  ErrorRoundtrip =
      Restored (Error.from_value (Error.to_value skill_not_found))
        (λ restored. restored.code ≡ "SKILL_NOT_FOUND")

  -- src/types/contract.rs
  abbrev made_contract : Entropy → DelegationContract
  made_contract e =
      let contract = (Contract.new "Analyze data" ("accuracy > 0.9" ∷ []) e).0 in
      let due = with_deadline contract "2026-06-01T00:00:00Z" in
      with_failure_policy
        (with_budget due (record { max_tokens = some 10000; max_cost_usd = none })) fail_closed

  abbrev ContractRoundtrip : Type 0
  ContractRoundtrip =
      (e : Entropy)
      → Restored (Contract.from_value (Contract.to_value (made_contract e))) (λ restored.
        (restored.objective ≡ "Analyze data") × (restored.policy.failure_policy ≡ fail_closed))

  -- src/types/provenance.rs, at any cost that is finite, as 0.03 is
  abbrev used : ext.Float → Entropy → Provenance
  used cost e = record (Provenance.new "d1" "v1" e).0 {
    tokens_used = some 5000;
    cost_usd = some cost;
  }

  abbrev WithUsage : Type 0
  WithUsage =
      (cost : ext.Float) (e : Entropy)
      → ext.is_finite cost ≡ true
      → Restored (Provenance.from_value (Provenance.to_value (used cost e)))
          (λ restored. (restored.tokens_used ≡ some 5000) × (restored.cost_usd ≡ some cost))

  abbrev BackwardCompatDeserialization : Type 0
  BackwardCompatDeserialization =
      Restored (Provenance.from_value (older "d1" "v1" text false))
        (λ p. (p.produced_by ≡ "d1") × (p.contract_id ≡ none) × (p.contract_violations ≡ []))

  abbrev ProvenanceBackwardCompatNoVerificationFields : Type 0
  ProvenanceBackwardCompatNoVerificationFields =
      Restored (option_map normalize (Provenance.from_value (older "d1" "v1" text true)))
        (λ p. (p.verification_status ≡ self_verified) × (p.evidence ≡ []) × (p.lineage ≡ []))

  -- src/types/verification.rs
  abbrev VerificationStatusSerialization : Type 0
  VerificationStatusSerialization =
      (status_name self_verified ≡ "self_verified")
      × (status_from_value (ext.string (status_name self_verified)) ≡ some self_verified)

  abbrev pytest : EvidenceRef
  pytest = record {
    source = "pytest";
    kind = "test_results";
    uri = some "https://ci.example.com/run/123";
    summary = some "All 50 tests passed";
  }

  abbrev EvidenceRefCreation : Type 0
  EvidenceRefCreation =
      Restored (evidence_from_value (evidence_to_value pytest))
        (λ restored. (restored.source ≡ "pytest") × (restored.kind ≡ "test_results"))

  abbrev reasoning : ProvenanceEntry
  reasoning = record {
    delegate_id = "ldp:delegate:alpha";
    model_version = "v1.0";
    step = "reasoning";
    timestamp = some "2026-03-15T12:00:00Z";
    verification_status = self_verified;
  }

  abbrev ProvenanceEntryCreation : Type 0
  ProvenanceEntryCreation = Restored (entry_from_value (entry_to_value reasoning)) (λ restored.
      (restored.delegate_id ≡ "ldp:delegate:alpha")
      × (restored.verification_status ≡ self_verified))

  -- src/types/capability.rs, at any score that is finite, as 0.95 is
  abbrev DefaultClaimTypeIsSelfClaimed : Type 0
  DefaultClaimTypeIsSelfClaimed = Capability.default.claim_type ≡ self_claimed

  abbrev attested : ext.Float → QualityMetrics
  attested score = record Capability.default {
    claim_type = issuer_attested;
    quality_score = some score;
  }

  abbrev ClaimTypeSerialization : Type 0
  ClaimTypeSerialization =
      (score : ext.Float)
      → ext.is_finite score ≡ true
      → (get (quality_to_value (attested score)) "claim_type" ≡ some (ext.string "issuer_attested"))
        × Restored (quality_from_value (quality_to_value (attested score)))
            (λ restored. restored.claim_type ≡ issuer_attested)

  module _ (laws : JsonLaws) (kinds : KindLaws) where
    error_roundtrip : ErrorRoundtrip
    unfolding Error.capability
    error_roundtrip = (_, Error.Wire.from_value-to_value laws kinds skill_not_found tt, refl)

    contract_roundtrip : ContractRoundtrip
    unfolding Contract.new with_deadline with_budget with_failure_policy
    contract_roundtrip e =
        let fits : Contract.Wire.IsContract (made_contract e) = ((ground arith, tt), tt) in
        (_, Contract.Wire.from_value-to_value laws kinds (made_contract e) fits, (refl, refl))

    with_usage : WithUsage
    unfolding Provenance.new
    with_usage cost e finite =
        let fits : Provenance.Wire.IsProvenance (used cost e) = (tt, ground arith, finite) in
        (_, Provenance.Wire.from_value-to_value laws kinds (used cost e) fits, (refl, refl))

    backward_compat_deserialization : BackwardCompatDeserialization
    backward_compat_deserialization =
        (_, from_value-older laws kinds "d1" "v1" text false, ((refl, refl, refl)))

    provenance_backward_compat_no_verification_fields : ProvenanceBackwardCompatNoVerificationFields
    provenance_backward_compat_no_verification_fields =
        (_, normalize-from_value-older laws kinds "d1" "v1" text true, ((refl, refl, refl)))

    verification_status_serialization : VerificationStatusSerialization
    verification_status_serialization = (refl, rw (laws.as_str-string "self_verified") refl)

    evidence_ref_creation : EvidenceRefCreation
    evidence_ref_creation = (_, evidence_from_value-to_value laws kinds pytest, (refl, refl))

    provenance_entry_creation : ProvenanceEntryCreation
    provenance_entry_creation = (_, entry_from_value-to_value laws kinds reasoning, (refl, refl))

    default_claim_type_is_self_claimed : DefaultClaimTypeIsSelfClaimed
    default_claim_type_is_self_claimed = refl

    claim_type_serialization : ClaimTypeSerialization
    unfolding quality_to_value entry or_else
    claim_type_serialization score finite = (
      get-json laws _ "claim_type",
      (
        _,
        quality_from_value-quality_to_value laws kinds (attested score) (finite, tt, tt, tt, tt),
        refl,
      ),
    )

abbrev DefaultVerificationIsUnverified : Type 0
DefaultVerificationIsUnverified = Verification.default ≡ unverified

default_verification_is_unverified : DefaultVerificationIsUnverified
default_verification_is_unverified = refl

-- The four names are variants, and there is no other.
abbrev AllClaimTypesExist : Type 0
AllClaimTypesExist =
    (c : ClaimType)
    → (c ≡ self_claimed)
      ⊎ ((c ≡ issuer_attested) ⊎ ((c ≡ runtime_observed) ⊎ (c ≡ externally_benchmarked)))

all_claim_types_exist : AllClaimTypesExist
all_claim_types_exist self_claimed = inl refl
all_claim_types_exist issuer_attested = inr (inl refl)
all_claim_types_exist runtime_observed = inr (inr (inl refl))
all_claim_types_exist externally_benchmarked = inr (inr (inr refl))
