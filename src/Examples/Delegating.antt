-- ===== src/Examples/Delegating.antt =====
-- Runs of the contracts of the adapter (src/adapter.rs).
use ldp_protocol.Common.{◌≡◌, refl, ◌↔◌, none, some, [], ◌∷◌, false, true}
use ldp_protocol.Externals.{Entropy, get}
use ldp_protocol.Types.Contract.{DelegationContract, fail_closed}
use ldp_protocol.Types.Error.{LdpError}
use ldp_protocol.Types.Payload.{text}
use ldp_protocol.Types.Provenance
use ldp_protocol.Types.Provenance.{Provenance}
use ldp_protocol.Types.Verification.{unverified}
use ldp_protocol.Config
use ldp_protocol.Protocol.{TaskEvent, TaskStatus}
use ldp_protocol.Adapter.{validate_contract, stream_result, status_result, embed_provenance}
use ldp_protocol.Adapter.Contracts.{IsViolated, Reports, validate_contract-Reports}
use ldp_protocol.Adapter.Embedding.{KeepsFields, IsWrapped, embed_provenance_lem}
use ldp_protocol.Adapter.Outcomes.{result_failed_iff}
use ldp_protocol.Examples.World.{toy_json, Json, toy}

abbrev contract : DelegationContract
contract = record {
  contract_id = "c";
  objective = "summarise";
  success_criteria = [];
  policy = record {
    failure_policy = fail_closed;
    budget = some (record { max_tokens = some 5; max_cost_usd = some 3 });
    safety_constraints = [];
    max_delegation_depth = none;
  };
  deadline = some "50";
  created_at = "50";
}

abbrev provenance : Provenance
provenance = record {
  produced_by = "delegate";
  model_version = "1.0";
  payload_mode_used = text;
  confidence = none;
  verified = false;
  session_id = none;
  timestamp = none;
  tokens_used = some 10;
  cost_usd = some 2;
  contract_id = none;
  contract_satisfied = none;
  contract_violations = [];
  verification_status = unverified;
  evidence = [];
  lineage = [];
}

abbrev now : Entropy
now = record { reads = 60; uuids = 0 }

codes_run :
    (validate_contract contract provenance now).0
    ≡ "deadline_exceeded" ∷ "budget_tokens_exceeded" ∷ []
unfolding validate_contract
codes_run = refl

validate_contract-Reports_example :
    Reports contract provenance now (validate_contract contract provenance now).0
validate_contract-Reports_example = validate_contract-Reports contract provenance now

result_failed_iff_example :
    (((f : LdpError) × ((status_result Config.default
            (some contract)
            (Json.number 7)
            provenance
            now).0
          ≡ TaskStatus.failed f))
      ↔ (contract.policy.failure_policy ≡ fail_closed) × IsViolated contract provenance now)
    × (((f : LdpError) × ((stream_result Config.default
              (some contract)
              (Json.number 7)
              provenance
              now).0
            ≡ TaskEvent.failed f))
        ↔ (contract.policy.failure_policy ≡ fail_closed) × IsViolated contract provenance now)
result_failed_iff_example = result_failed_iff Config.default contract (Json.number 7) provenance now

embed_provenance_lem_example :
    let embedded = embed_provenance Config.default (Json.number 7) provenance in
    (Config.default.attach_provenance ≡ false → embedded ≡ Json.number 7)
    × (Config.default.attach_provenance ≡ true
        → (get embedded "ldp_provenance" ≡ some (Provenance.to_value provenance))
          × KeepsFields toy_json (Json.number 7) embedded
          × IsWrapped toy_json (Json.number 7) embedded)
embed_provenance_lem_example =
    embed_provenance_lem toy_json Config.default (Json.number 7) provenance
