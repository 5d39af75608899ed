-- ===== src/Adapter.antt =====
-- src/adapter.rs: the adapter. An action works on the adapter's state: its session manager (with the
-- network, the clock and the generator of identifiers), its configuration and its contracts.
pub mod Methods
pub mod Contracts
pub mod Outcomes
pub mod Discovery
pub mod Streams
pub mod Submission
pub mod Embedding
pub mod Delivery
pub mod Delegation
use ldp_protocol.Common.{
  ℕ, zero, suc, String, Bool, true, false, not, ◌&&◌, Option, none, some, List, [], ◌∷◌, ◌++◌, map,
  is_empty, ltb, unwrap_or, if◌then◌else◌, Result, ok, err, Exec, continue, ◌>>=◌, ◌>>◌, pure,
  raise, lift, ◌==◌,
}
use ldp_protocol.Common.HashMap
use ldp_protocol.Common.HashMap.{HashMap, insert}
use ldp_protocol.Common.Text.{◌<>◌, join}
use ldp_protocol.Externals.{Externals, Entropy, utc_now, json}
use ldp_protocol.Types.Capability.{LdpCapability}
use ldp_protocol.Types.Contract.{DelegationContract, BudgetPolicy, is_fail_closed}
use ldp_protocol.Types.Error
use ldp_protocol.Types.Error.{LdpError, with_partial_output}
use ldp_protocol.Types.Identity.{LdpIdentityCard}
use ldp_protocol.Types.Messages
use ldp_protocol.Types.Messages.{
  LdpEnvelope, LdpMessageBody, task_submit, task_update, task_result, task_failed, task_cancel,
}
use ldp_protocol.Types.Payload.{PayloadMode, text}
use ldp_protocol.Types.Provenance
use ldp_protocol.Types.Provenance.{Provenance, normalize}
use ldp_protocol.Types.Session.{LdpSession}
use ldp_protocol.Types.Trust.{trusts}
use ldp_protocol.Types.Verification.{ProvenanceEntry}
use ldp_protocol.Signing.{sign_if_configured}
use ldp_protocol.Config.{LdpAdapterConfig}
use ldp_protocol.Client.{Http, fetch_identity_card}
use ldp_protocol.Protocol.{
  RemoteSkill, RemoteCapabilities, TaskRequest, TaskEvent, TaskStatus, TaskHandle,
}
use ldp_protocol.SessionManager
use ldp_protocol.SessionManager.{SessionManager, get_or_establish, fresh_id, send, touch}

module _ ⦃ext : Externals⦄ where
  -- The check of the deadline; one that does not parse is passed over.
  unfoldable pub deadline_violations : Option String → Entropy → List String × Entropy
  unfolding utc_now
  deadline_violations none e = ([], e)
  deadline_violations (some deadline_str) e = elim (ext.parse_from_rfc3339 deadline_str) [
    | none ↦ ([], e)
    | some deadline ↦
        (let (now, e') = utc_now e in
          ((if ext.is_after now deadline then "deadline_exceeded" ∷ [] else []), e'))
  ]

  abbrev pub token_violations : Option ℕ → Option ℕ → List String
  token_violations (some most) (some used) =
      if ltb most used then "budget_tokens_exceeded" ∷ [] else []
  token_violations _ _ = []

  abbrev pub cost_violations : Option ext.Float → Option ext.Float → List String
  cost_violations (some most) (some used) =
      if ext.float_gt used most then "budget_cost_exceeded" ∷ [] else []
  cost_violations _ _ = []

  abbrev pub budget_violations : Option BudgetPolicy → Provenance → List String
  budget_violations none p = []
  budget_violations (some budget) p =
      token_violations budget.max_tokens p.tokens_used
      ++ cost_violations budget.max_cost_usd p.cost_usd

  unfoldable pub validate_contract :
      DelegationContract → Provenance → Entropy → List String × Entropy
  unfolding deadline_violations
  validate_contract contract p e =
      let (late, e') = deadline_violations contract.deadline e in
      (late ++ budget_violations contract.policy.budget p, e')

  unfoldable pub build_lineage_entry : Provenance → String → ProvenanceEntry
  build_lineage_entry p skill = record {
    delegate_id = p.produced_by;
    model_version = p.model_version;
    step = skill;
    timestamp = p.timestamp;
    verification_status = p.verification_status;
  }

  -- `provenance.lineage.insert(0, …); provenance.normalize();`
  unfoldable pub receive_provenance : Provenance → Provenance
  unfolding build_lineage_entry normalize
  receive_provenance p = normalize (record p { lineage = build_lineage_entry p "task" ∷ p.lineage })

  unfoldable pub identity_to_capabilities : LdpIdentityCard → RemoteCapabilities
  identity_to_capabilities identity = record {
    name = identity.name;
    description = identity.description;
    skills =
        map
          (λ (cap : LdpCapability).
            let skill : RemoteSkill = record {
              name = cap.name;
              description = cap.description;
              input_schema = cap.input_schema;
              output_schema = cap.output_schema;
            } in
            skill)
          identity.capabilities;
    protocols = "ldp" ∷ [];
  }

  -- The provenance inside the output: a further field of an object, or an object around the rest.
  unfoldable pub embed_provenance : LdpAdapterConfig → ext.Value → Provenance → ext.Value
  unfolding json
  embed_provenance config output p =
      if config.attach_provenance
      then elim (ext.as_object output) [
        | some fields ↦ ext.object (ext.map_insert fields "ldp_provenance" (Provenance.to_value p))
        | none ↦ json (("result", output) ∷ ("ldp_provenance", Provenance.to_value p) ∷ [])
      ]
      else output

  abbrev pub violation_error : List String → ext.Value → LdpError
  violation_error violations output =
      with_partial_output
        (Error.policy "CONTRACT_VIOLATED" ("Contract violations: " <> join ", " violations)) output

  -- The test that makes a violated contract a failure.
  abbrev pub must_fail : DelegationContract → List String → Bool
  must_fail contract violations =
      not (is_empty violations) && is_fail_closed contract.policy.failure_policy

  -- The provenance with what the validation found.
  unfoldable pub record_violations : DelegationContract → List String → Provenance → Provenance
  record_violations contract violations p = record p {
    contract_id = some contract.contract_id;
    contract_satisfied = some (is_empty violations);
    contract_violations = violations;
  }

  unfoldable pub apply_contract_validation :
      LdpAdapterConfig
      → DelegationContract
      → ext.Value
      → Provenance
      → Entropy
      → TaskStatus × Entropy
  unfolding record_violations
  apply_contract_validation config contract output p e =
      let (violations, e') = validate_contract contract p e in
      let output' = embed_provenance config output (record_violations contract violations p) in
      (
        (if must_fail contract violations
            then TaskStatus.failed (violation_error violations output')
            else TaskStatus.completed output'),
        e',
      )

  -- The event of a result in `stream`: the provenance is embedded before the validation.
  unfoldable pub stream_result :
      LdpAdapterConfig
      → Option DelegationContract
      → ext.Value
      → Provenance
      → Entropy
      → TaskEvent × Entropy
  stream_result config none output p e = (TaskEvent.completed (embed_provenance config output p), e)
  stream_result config (some contract) output p e =
      let output' = embed_provenance config output p in
      let (violations, e') = validate_contract contract p e in
      (
        (if must_fail contract violations
            then TaskEvent.failed (violation_error violations output')
            else TaskEvent.completed output'),
        e',
      )

  -- The status of a result in `status`.
  unfoldable pub status_result :
      LdpAdapterConfig
      → Option DelegationContract
      → ext.Value
      → Provenance
      → Entropy
      → TaskStatus × Entropy
  status_result config none output p e =
      (TaskStatus.completed (embed_provenance config output p), e)
  status_result config (some contract) output p e =
      apply_contract_validation config contract output p e

  -- What one round of the loop in `stream` emits, and whether it ends the loop.
  unfoldable pub stream_event :
      LdpAdapterConfig
      → Option DelegationContract
      → Result LdpEnvelope
      → Entropy
      → List TaskEvent × Bool × Entropy
  unfolding stream_result receive_provenance
  stream_event config contract (err m) e =
      (TaskEvent.failed (Error.transport "STREAM_ERROR" m) ∷ [], true, e)
  stream_event config contract (ok response) e = elim response.body [
    | task_update _ progress message ↦
        (TaskEvent.progress (unwrap_or message "") progress ∷ [], false, e)
    | task_result _ output p ↦
        (let (event, e') = stream_result config contract output (receive_provenance p) e in
          (event ∷ [], true, e'))
    | task_failed _ failure ↦ (TaskEvent.failed failure ∷ [], true, e)
    | _ ↦ ([], false, e)
  ]

  -- What `status` makes of the answer.
  unfoldable pub status_of :
      LdpAdapterConfig → Option DelegationContract → LdpMessageBody → Entropy → TaskStatus × Entropy
  unfolding status_result receive_provenance
  status_of config contract (task_update _ _ message) e = (
    (if unwrap_or message "" == "submitted" then TaskStatus.submitted else TaskStatus.working),
    e,
  )
  status_of config contract (task_result _ output p) e =
      status_result config contract output (receive_provenance p) e
  status_of config contract (task_failed _ failure) e = (TaskStatus.failed failure, e)
  status_of config contract _ e = (TaskStatus.working, e)
