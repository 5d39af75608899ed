-- ===== src/Examples/UnitTests/Values.antt =====
-- The unit tests in src/types/trust.rs, src/types/payload.rs, src/types/error.rs,
-- src/types/contract.rs, src/types/provenance.rs and src/types/verification.rs, less those that
-- read JSON back. A test that does not depend on what is outside the repository is stated for any
-- such outside.
use ldp_protocol.Common.{
  and_then, List, String, ◌≡◌, refl, true, false, option_map, none, some, [], ◌∷◌,
}
use ldp_protocol.Externals.{Externals, Entropy}
use ldp_protocol.Types.Contract
use ldp_protocol.Types.Contract.{DelegationContract, fail_open, with_deadline, with_budget}
use ldp_protocol.Types.Error
use ldp_protocol.Types.Error.{
  LdpError, identity_failure, quality_failure, security_failure, fatal, with_partial_output,
}
use ldp_protocol.Types.Payload.{text, semantic_frame, semantic_graph, negotiate_payload_mode}
use ldp_protocol.Types.Provenance
use ldp_protocol.Types.Provenance.{Provenance, normalize}
use ldp_protocol.Types.Trust
use ldp_protocol.Types.Trust.{TrustDomain, trusts, mutually_trusts}
use ldp_protocol.Types.Verification.{
  unverified, self_verified, peer_verified, tool_verified, human_verified, status_name,
}

-- src/types/trust.rs
abbrev SameDomainAlwaysTrusted : Type 0
SameDomainAlwaysTrusted = option_map (λ d. trusts d "acme-prod") (Trust.new "acme-prod") ≡ some true

same_domain_always_trusted : SameDomainAlwaysTrusted
unfolding Trust.new trusts
same_domain_always_trusted = refl

abbrev CrossDomainDeniedByDefault : Type 0
CrossDomainDeniedByDefault =
    option_map (λ d. trusts d "external") (Trust.new "acme-prod") ≡ some false

cross_domain_denied_by_default : CrossDomainDeniedByDefault
unfolding Trust.new trusts
cross_domain_denied_by_default = refl

-- A domain that allows some others.
abbrev open_domain : String → List String → TrustDomain
open_domain name peers = record { name = name; allow_cross_domain = true; trusted_peers = peers }

abbrev CrossDomainWithExplicitPeer : Type 0
CrossDomainWithExplicitPeer =
    let domain = open_domain "acme-prod" ("partner-corp" ∷ []) in
    (trusts domain "partner-corp" ≡ true) × (trusts domain "unknown-corp" ≡ false)

cross_domain_with_explicit_peer : CrossDomainWithExplicitPeer
unfolding trusts Trust.contains
cross_domain_with_explicit_peer = (refl, refl)

abbrev MutualTrustRequiresBothSides : Type 0
MutualTrustRequiresBothSides =
    let domain_a = open_domain "acme" ("partner" ∷ []) in
    (mutually_trusts domain_a (open_domain "partner" ("acme" ∷ [])) ≡ true)
    × (mutually_trusts domain_a (open_domain "partner" []) ≡ false)

mutual_trust_requires_both_sides : MutualTrustRequiresBothSides
unfolding mutually_trusts trusts Trust.contains
mutual_trust_requires_both_sides = (refl, refl)

abbrev SameDomainMutualTrust : Type 0
SameDomainMutualTrust =
    and_then (Trust.new "acme")
      (λ domain. option_map (λ other. mutually_trusts domain other) (Trust.new "acme"))
    ≡ some true

same_domain_mutual_trust : SameDomainMutualTrust
unfolding Trust.new mutually_trusts trusts
same_domain_mutual_trust = refl

abbrev DefaultTrustDomain : Type 0
DefaultTrustDomain = (Trust.default.name ≡ "default") × (Trust.default.allow_cross_domain ≡ false)

default_trust_domain : DefaultTrustDomain
default_trust_domain = (refl, refl)

abbrev EmptyNamePanics : Type 0
EmptyNamePanics = Trust.new "" ≡ none

empty_name_panics : EmptyNamePanics
unfolding Trust.new
empty_name_panics = refl

-- src/types/payload.rs
abbrev NegotiateBothSupportSemanticFrame : Type 0
NegotiateBothSupportSemanticFrame =
    let prefs = semantic_frame ∷ text ∷ [] in
    let result = negotiate_payload_mode prefs prefs in
    (result.mode ≡ semantic_frame) × (result.fallback_chain ≡ text ∷ [])

negotiate_both_support_semantic_frame : NegotiateBothSupportSemanticFrame
unfolding negotiate_payload_mode
negotiate_both_support_semantic_frame = (refl, refl)

abbrev NegotiateFallsBackToText : Type 0
NegotiateFallsBackToText =
    let result = negotiate_payload_mode (semantic_frame ∷ text ∷ []) (text ∷ []) in
    (result.mode ≡ text) × (result.fallback_chain ≡ [])

negotiate_falls_back_to_text : NegotiateFallsBackToText
unfolding negotiate_payload_mode
negotiate_falls_back_to_text = (refl, refl)

abbrev NegotiateEmptyPrefsDefaultToText : Type 0
NegotiateEmptyPrefsDefaultToText = (negotiate_payload_mode [] []).mode ≡ text

negotiate_empty_prefs_default_to_text : NegotiateEmptyPrefsDefaultToText
unfolding negotiate_payload_mode
negotiate_empty_prefs_default_to_text = refl

abbrev NegotiateSkipsUnimplementedModes : Type 0
NegotiateSkipsUnimplementedModes =
    (negotiate_payload_mode (semantic_graph ∷ semantic_frame ∷ text ∷ [])
      (semantic_graph ∷ text ∷ [])).mode
    ≡ text

negotiate_skips_unimplemented_modes : NegotiateSkipsUnimplementedModes
unfolding negotiate_payload_mode
negotiate_skips_unimplemented_modes = refl

-- src/types/verification.rs
abbrev AllVerificationVariantsSerialize : Type 0
AllVerificationVariantsSerialize =
    (status_name unverified ≡ "unverified")
    × (status_name self_verified ≡ "self_verified")
    × (status_name peer_verified ≡ "peer_verified")
    × (status_name tool_verified ≡ "tool_verified")
    × (status_name human_verified ≡ "human_verified")

all_verification_variants_serialize : AllVerificationVariantsSerialize
all_verification_variants_serialize = (refl, refl, refl, refl, refl)

module _ ⦃ext : Externals⦄ where
  -- src/types/error.rs
  abbrev IdentityFailureTest : Type 0
  IdentityFailureTest =
      let err = Error.identity "IDENTITY_MISMATCH" "Trust domain mismatch" in
      (err.category ≡ identity_failure) × (err.retryable ≡ false)

  identity_failure_run : IdentityFailureTest
  unfolding Error.identity
  identity_failure_run = (refl, refl)

  abbrev RuntimeFailureRetryable : Type 0
  RuntimeFailureRetryable = (Error.runtime "TIMEOUT" "Request timed out").retryable ≡ true

  runtime_failure_retryable : RuntimeFailureRetryable
  unfolding Error.runtime
  runtime_failure_retryable = refl

  -- For any partial output.
  abbrev ErrorWithPartialOutput : Type 0
  ErrorWithPartialOutput =
      (partial : ext.Value)
      → (with_partial_output (Error.runtime "TIMEOUT" "Timed out") partial).partial_output
        ≡ some partial

  error_with_partial_output : ErrorWithPartialOutput
  unfolding with_partial_output
  error_with_partial_output partial = refl

  abbrev PolicyIsFatal : Type 0
  PolicyIsFatal =
      let err = Error.policy "TRUST_VIOLATION" "Not allowed" in
      (err.severity ≡ fatal) × (err.retryable ≡ false)

  policy_is_fatal : PolicyIsFatal
  unfolding Error.policy
  policy_is_fatal = (refl, refl)

  abbrev SecurityFailureTest : Type 0
  SecurityFailureTest =
      let err = Error.security "REPLAY_DETECTED" "Duplicate nonce" in
      (err.category ≡ security_failure) × (err.retryable ≡ false) × (err.severity ≡ fatal)

  security_failure_run : SecurityFailureTest
  unfolding Error.security
  security_failure_run = (refl, refl, refl)

  abbrev QualityConstructorExists : Type 0
  QualityConstructorExists =
      (Error.quality "BELOW_THRESHOLD" "Score too low").category ≡ quality_failure

  quality_constructor_exists : QualityConstructorExists
  unfolding Error.quality
  quality_constructor_exists = refl

  -- src/types/contract.rs, at any count of what was asked of the outside
  module _ (e : Entropy) where
    -- The test also asks that the identifier is not empty, which is the uuid crate's.
    abbrev ContractCreation : Type 0
    ContractCreation =
        let contract = (Contract.new "Summarize the document" ("<=300 words" ∷ []) e).0 in
        (contract.objective ≡ "Summarize the document") × (contract.deadline ≡ none)

    contract_creation : ContractCreation
    unfolding Contract.new
    contract_creation = (refl, refl)

    abbrev ContractWithDeadline : Type 0
    ContractWithDeadline =
        let contract = with_deadline (Contract.new "task" [] e).0 "2026-12-31T23:59:59Z" in
        contract.deadline ≡ some "2026-12-31T23:59:59Z"

    contract_with_deadline : ContractWithDeadline
    unfolding with_deadline
    contract_with_deadline = refl

    abbrev ContractWithBudget : ext.Float → Type 0
    ContractWithBudget cost =
        let contract =
          with_budget (Contract.new "task" [] e).0
            (record { max_tokens = some 5000; max_cost_usd = some cost }) in
        and_then contract.policy.budget (λ budget. budget.max_tokens) ≡ some 5000

    contract_with_budget : (cost : ext.Float) → ContractWithBudget cost
    unfolding with_budget
    contract_with_budget cost = refl

    abbrev DefaultFailurePolicyIsFailOpen : Type 0
    DefaultFailurePolicyIsFailOpen = (Contract.new "task" [] e).0.policy.failure_policy ≡ fail_open

    default_failure_policy_is_fail_open : DefaultFailurePolicyIsFailOpen
    unfolding Contract.new
    default_failure_policy_is_fail_open = refl

    -- src/types/provenance.rs
    abbrev d1 : Provenance
    d1 = (Provenance.new "d1" "v1" e).0

    abbrev NewHasNoContractFields : Type 0
    NewHasNoContractFields =
        (d1.contract_id ≡ none)
        × (d1.contract_satisfied ≡ none)
        × (d1.contract_violations ≡ [])
        × (d1.tokens_used ≡ none)
        × (d1.cost_usd ≡ none)

    new_has_no_contract_fields : NewHasNoContractFields
    unfolding Provenance.new
    new_has_no_contract_fields = (refl, refl, refl, refl, refl)

    abbrev ProvenanceNewHasUnverifiedStatus : Type 0
    ProvenanceNewHasUnverifiedStatus =
        (d1.verification_status ≡ unverified) × (d1.evidence ≡ []) × (d1.lineage ≡ [])

    provenance_new_has_unverified_status : ProvenanceNewHasUnverifiedStatus
    unfolding Provenance.new
    provenance_new_has_unverified_status = (refl, refl, refl)

    abbrev ProvenanceNormalizeSyncsVerifiedToStatus : Type 0
    ProvenanceNormalizeSyncsVerifiedToStatus =
        (normalize (record d1 { verification_status = peer_verified })).verified ≡ true

    provenance_normalize_syncs_verified_to_status : ProvenanceNormalizeSyncsVerifiedToStatus
    unfolding Provenance.new normalize
    provenance_normalize_syncs_verified_to_status = refl

    abbrev ProvenanceNormalizeSyncsOldVerifiedTrue : Type 0
    ProvenanceNormalizeSyncsOldVerifiedTrue =
        (normalize (record d1 { verified = true })).verification_status ≡ self_verified

    provenance_normalize_syncs_old_verified_true : ProvenanceNormalizeSyncsOldVerifiedTrue
    unfolding Provenance.new normalize
    provenance_normalize_syncs_old_verified_true = refl

  abbrev PolicyEnvelopeDefaults : Type 0
  PolicyEnvelopeDefaults =
      (Contract.default.failure_policy ≡ fail_open)
      × (Contract.default.budget ≡ none)
      × (Contract.default.safety_constraints ≡ [])

  policy_envelope_defaults : PolicyEnvelopeDefaults
  policy_envelope_defaults = (refl, refl, refl)
