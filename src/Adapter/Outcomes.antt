-- ===== src/Adapter/Outcomes.antt =====
-- What a contract does to the result of a task (src/adapter.rs), in `stream` and in `status`.
use ldp_protocol.Common.{
  ◌≡◌, refl, ◌↔◌, Bool, true, false, not, ◌&&◌, some, arith, is_empty, if◌then◌else◌,
}
use ldp_protocol.Externals.{Externals, Entropy}
use ldp_protocol.Types.Contract.{
  DelegationContract, FailurePolicy, fail_closed, fail_open, is_fail_closed,
}
use ldp_protocol.Types.Error.{LdpError}
use ldp_protocol.Types.Provenance.{Provenance}
use ldp_protocol.Config.{LdpAdapterConfig}
use ldp_protocol.Protocol.{TaskEvent, TaskStatus}
use ldp_protocol.Adapter.{
  validate_contract, must_fail, apply_contract_validation, stream_result, status_result,
}
use ldp_protocol.Adapter.Contracts.{IsViolated, validate_contract_violated_iff}

module _ ⦃ext : Externals⦄ where
  must_fail_lem :
      (policy : FailurePolicy) (empty : Bool) (P : Type 0)
      → (empty ≡ false) ↔ P
      → ((not empty && is_fail_closed policy) ≡ true) ↔ (policy ≡ fail_closed) × P
  must_fail_lem fail_closed true P h = (λ q. ground arith, λ (f, p). ground (arith, h.1 p))
  must_fail_lem fail_closed false P h = (λ q. (refl, h.0 refl), λ m. refl)
  must_fail_lem fail_open empty P h = (λ q. ground arith, λ (f, p). ground (arith, f))

  status_lem :
      (b : Bool) (failure : LdpError) (output : ext.Value) (P : Type 0)
      → (b ≡ true) ↔ P
      → ((f : LdpError) × ((if b then TaskStatus.failed failure else TaskStatus.completed output)
            ≡ TaskStatus.failed f))
        ↔ P
  status_lem true failure output P h = (λ m. h.0 refl, λ m. (failure, refl))
  status_lem false failure output P h = (λ (f, q). ground arith, λ m. ground (arith, h.1 m))

  event_lem :
      (b : Bool) (failure : LdpError) (output : ext.Value) (P : Type 0)
      → (b ≡ true) ↔ P
      → ((f : LdpError) × ((if b then TaskEvent.failed failure else TaskEvent.completed output)
            ≡ TaskEvent.failed f))
        ↔ P
  event_lem true failure output P h = (λ m. h.0 refl, λ m. (failure, refl))
  event_lem false failure output P h = (λ (f, q). ground arith, λ m. ground (arith, h.1 m))

  module _ (config : LdpAdapterConfig) (c : DelegationContract) (output : ext.Value)
      (p : Provenance) (e : Entropy) where
    must_fail_iff :
        (must_fail c (validate_contract c p e).0 ≡ true)
        ↔ (c.policy.failure_policy ≡ fail_closed) × IsViolated c p e
    must_fail_iff =
        must_fail_lem c.policy.failure_policy (is_empty (validate_contract c p e).0)
          (IsViolated c p e) (validate_contract_violated_iff c p e)

    -- `status` makes a failure of a result under a contract exactly when the failure policy is
    -- fail_closed and the contract is violated: late, or over its budget of tokens or of cost.
    pub status_result_failed_iff :
        ((f : LdpError) × ((status_result config (some c) output p e).0 ≡ TaskStatus.failed f))
        ↔ (c.policy.failure_policy ≡ fail_closed) × IsViolated c p e
    unfolding status_result apply_contract_validation
    status_result_failed_iff =
        status_lem (must_fail c (validate_contract c p e).0) _ _ _ must_fail_iff

    -- `stream`, too, makes a failure of a result under a contract exactly when the failure policy is
    -- fail_closed and the contract is violated: late, or over its budget of tokens or of cost.
    pub stream_result_failed_iff :
        ((f : LdpError) × ((stream_result config (some c) output p e).0 ≡ TaskEvent.failed f))
        ↔ (c.policy.failure_policy ≡ fail_closed) × IsViolated c p e
    unfolding stream_result
    stream_result_failed_iff =
        event_lem (must_fail c (validate_contract c p e).0) _ _ _ must_fail_iff

    -- `status` and `stream` make a failure of a result under a contract in the same cases: exactly
    -- when the failure policy is fail_closed and the contract is violated, because it is late, or
    -- over its budget of tokens or of cost.
    pub result_failed_iff :
        (((f : LdpError) × ((status_result config (some c) output p e).0 ≡ TaskStatus.failed f))
          ↔ (c.policy.failure_policy ≡ fail_closed) × IsViolated c p e)
        × (((f : LdpError) × ((stream_result config (some c) output p e).0 ≡ TaskEvent.failed f))
            ↔ (c.policy.failure_policy ≡ fail_closed) × IsViolated c p e)
    result_failed_iff = (status_result_failed_iff, stream_result_failed_iff)
