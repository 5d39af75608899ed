-- ===== src/Adapter/Streams.antt =====
-- The streams that the adapter (src/adapter.rs) gives out.
use mathlib.Core.List.{append_assoc}
use mathlib.Core.Path.{subst}
use ldp_protocol.Common.{
  ℕ, zero, suc, String, Bool, ◌≡◌, refl, sym, ◌⊎◌, inl, inr, true, false, Option, none, some, arith,
  Result, ok, err, continue, Bool-cases, List, [], ◌∷◌, ◌++◌, All, All-append,
}
use ldp_protocol.Externals.{Externals, Entropy}
use ldp_protocol.Types.Contract.{DelegationContract}
use ldp_protocol.Types.Messages.{LdpEnvelope, LdpMessageBody, task_update, task_result, task_failed}
use ldp_protocol.Types.Provenance.{Provenance}
use ldp_protocol.Client.{Http}
use ldp_protocol.Config.{LdpAdapterConfig}
use ldp_protocol.Protocol.{TaskRequest, TaskHandle, TaskEvent, TaskStream, progress}
use ldp_protocol.Adapter.{
  stream_event, stream_result, must_fail, receive_provenance, validate_contract,
}
use ldp_protocol.Adapter.Methods.{LdpAdapter, poll, poll_rounds, query, invoke, stream}

module _ ⦃ext : Externals⦄ where
  abbrev pub IsProgress : TaskEvent → Type 0
  IsProgress (progress message part) = Unit
  IsProgress _ = ⊥

  -- The result or the failure of a task.
  abbrev pub IsFinal : TaskEvent → Type 0
  IsFinal (progress message part) = ⊥
  IsFinal _ = Unit

  -- The events of a stream that has ended or not: progress events, followed by the one result or
  -- failure if it has ended, and by nothing if it has not.
  abbrev pub IsRun : List TaskEvent → Bool → Type 0
  IsRun events done =
      (steps : List TaskEvent) × All IsProgress steps
      × ((done ≡ false) × (events ≡ steps)
          ⊎ (done ≡ true) × (last : TaskEvent) × IsFinal last × (events ≡ steps ++ last ∷ []))

  only_final : (event : TaskEvent) → IsFinal event → IsRun (event ∷ []) true
  only_final event h = ([], tt, inr (refl, event, h, refl))

  IsRun-append :
      (before events : List TaskEvent) (done : Bool)
      → IsRun before false
      → IsRun events done
      → IsRun (before ++ events) done
  IsRun-append before events done (steps, all, inl (_, only)) (more, all', inl (going, later)) =
      (steps ++ more, All-append _ steps more all all', inl (going, rw (only, later) refl))
  IsRun-append before events done (steps, all, inl (_, only))
        (more, all', inr (ended, last, h, later)) =
      (
        steps ++ more,
        All-append _ steps more all all',
        inr (ended, last, h, rw (only, later) (sym (append_assoc steps more (last ∷ [])))),
      )
  IsRun-append before events done (steps, all, inr (ended, last, h, q)) run =
      absurd (ground (arith, ended))

  stream_result-IsFinal :
      (config : LdpAdapterConfig) (contract : Option DelegationContract) (output : ext.Value)
      (p : Provenance) (e : Entropy)
      → IsFinal (stream_result config contract output p e).0
  unfolding stream_result
  stream_result-IsFinal config none output p e = tt
  stream_result-IsFinal config (some contract) output p e =
      elim (Bool-cases (must_fail contract (validate_contract contract p e).0)) [
        | inl violated ↦ rw violated tt
        | inr kept ↦ rw kept tt
      ]

  stream_event-IsRun :
      (config : LdpAdapterConfig) (contract : Option DelegationContract)
      (answer : Result LdpEnvelope) (e : Entropy)
      → IsRun (stream_event config contract answer e).0 (stream_event config contract answer e).1
  unfolding stream_event
  stream_event-IsRun config contract (err m) e = only_final _ tt
  stream_event-IsRun config contract (ok response) e = go response.body
    where
      at : LdpMessageBody → List TaskEvent × Bool × Entropy
      at b = stream_event config contract (ok (record response { body = b })) e

      go : (b : LdpMessageBody) → IsRun (at b).0 (at b).1
      go (task_update _ part message) = (_, (tt, tt), inl (refl, refl))
      go (task_result _ output p) =
          only_final _ (stream_result-IsFinal config contract output (receive_provenance p) e)
      go (task_failed _ failure) = only_final _ tt
      go _ = ([], tt, inl (refl, refl))

module _ ⦃ext : Externals⦄ ⦃http : Http⦄ where
  poll-IsRun :
      (url task_id : String) (contract : Option DelegationContract) (s : LdpAdapter)
      → IsRun (poll url task_id contract s).0 (poll url task_id contract s).1
  unfolding poll
  poll-IsRun url task_id contract s =
      let (answer, s') = query url task_id s in
      stream_event-IsRun s'.config contract answer s'.session_manager.entropy

  poll_rounds-IsRun :
      (fuel : ℕ) (url task_id : String) (contract : Option DelegationContract) (s : LdpAdapter)
      → IsRun
          (poll_rounds fuel url task_id contract s).0
          (poll_rounds fuel url task_id contract s).1
  unfolding poll_rounds
  poll_rounds-IsRun zero url task_id contract s = ([], tt, inl (refl, refl))
  poll_rounds-IsRun (suc fuel) url task_id contract s =
      let s' = (poll url task_id contract s).2 in
      let run = poll-IsRun url task_id contract s in
      elim (Bool-cases (poll url task_id contract s).1) [
        | inl done ↦ rw done (rw done at run)
        | inr going ↦
            rw going (
              IsRun-append _ _ _ (rw going at run) (poll_rounds-IsRun fuel url task_id contract s'))
      ]

  -- However many rounds of a stream of the adapter are read, and from any state: the stream emits
  -- progress events, and then, exactly if it has ended, one result or failure, which is the
  -- last event.
  pub stream-IsRun :
      (url : String) (task : TaskRequest) (s : LdpAdapter) (events : TaskStream LdpAdapter)
      (fuel : ℕ) (from : LdpAdapter)
      → (stream url task s).0 ≡ ok events
      → IsRun (events fuel from).0 (events fuel from).1
  unfolding stream
  stream-IsRun url task s events fuel from e = go (invoke url task s) e
    where
      go :
          (p : Result TaskHandle × LdpAdapter)
          → (continue p (λ h t. (ok (λ fuel. poll_rounds fuel url h.task_id task.contract), t))).0
            ≡ ok events
          → IsRun (events fuel from).0 (events fuel from).1
      go (ok h, t) e =
          let same : (λ fuel. poll_rounds fuel url h.task_id task.contract) ≡ events =
            ground (arith, e) in
          subst (λ x. IsRun (x fuel from).0 (x fuel from).1) same
            (poll_rounds-IsRun fuel url h.task_id task.contract from)
      go (err m, t) e = absurd (ground (arith, e))
