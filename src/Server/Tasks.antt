-- ===== src/Server/Tasks.antt =====
-- The life of a task on the server (src/server.rs): submitted and queried.
use mathlib.Core.Path.{subst}
use ldp_protocol.Common.{
  String, ◌≡◌, ◌≢◌, refl, ap, ◌∙◌, inl, inr, Option, none, some, List, [], ◌∷◌, arith, ok, All,
  true,
}
use ldp_protocol.Common.HashMap
use ldp_protocol.Common.HashMap.{HashMap, values}
use ldp_protocol.Externals.{Externals}
use ldp_protocol.Types.Contract.{DelegationContract}
use ldp_protocol.Types.Identity.{LdpIdentityCard}
use ldp_protocol.Types.Messages.{
  LdpEnvelope, LdpMessageBody, hello, session_propose, task_submit, task_update, task_result,
  task_cancel, session_close,
}
use ldp_protocol.Types.Provenance
use ldp_protocol.Types.Provenance.{Provenance}
use ldp_protocol.Types.Verification.{self_verified}
use ldp_protocol.Signing.{apply_signature, sign_if_configured}
use ldp_protocol.Server.{LdpServer, TaskRecord, completed}
use ldp_protocol.Server.Frame.{
  SameSetup, SameSetup_trans, handle_message-cases, handle_message-ok, handle_message_state,
  handle_message-SameSetup,
}
use ldp_protocol.Server.Handlers.{
  own_provenance, store_task, respond, handle_hello, reject_session, accept_session,
  handle_session_propose, handle_task_submit, handle_task_status_query, answer_status,
  handle_task_cancel, handle_session_close, check_signature, dispatch, handle_message, status_body,
}

module _ ⦃ext : Externals⦄ where
  -- The server after a sequence of messages, answered or refused.
  unfoldable pub serve : LdpServer → List LdpEnvelope → LdpServer
  serve s [] = s
  serve s (e ∷ es) = serve (handle_message e s).1 es

  -- A message that neither submits nor cancels the task.
  abbrev pub Leaves : String → LdpMessageBody → Type 0
  Leaves t (task_submit i _ _ _) = i ≢ t
  Leaves t (task_cancel i) = i ≢ t
  Leaves t _ = Unit

  get-tasks-dispatch :
      (t : String) (e : LdpEnvelope) (b : LdpMessageBody) (s : LdpServer)
      → Leaves t b
      → HashMap.get (dispatch e b s).1.tasks t ≡ HashMap.get s.tasks t
  unfolding dispatch handle_hello handle_session_propose accept_session reject_session
      handle_task_submit handle_task_status_query handle_task_cancel handle_session_close respond
  get-tasks-dispatch t e (hello d m) s h = ground arith
  get-tasks-dispatch t e (session_propose c) s h = ground arith
  get-tasks-dispatch t e (task_submit i k v c) s h = HashMap.get-insert_ne _ i _ t h
  get-tasks-dispatch t e (task_update i p m) s h = ground arith
  get-tasks-dispatch t e (task_cancel i) s h = HashMap.get-remove_ne _ i t h
  get-tasks-dispatch t e (session_close r) s h = ground arith
  get-tasks-dispatch t e _ s h = ground arith

  get-tasks-handle_message :
      (t : String) (e : LdpEnvelope) (s : LdpServer)
      → Leaves t e.body
      → HashMap.get (handle_message e s).1.tasks t ≡ HashMap.get s.tasks t
  get-tasks-handle_message t e s h = elim (handle_message-cases e s) [
    | inl (_, _, refused) ↦ ap (λ q. HashMap.get q.1.tasks t) refused
    | inr (_, kept) ↦
        ap (λ (q : LdpServer). HashMap.get q.tasks t) kept ∙ get-tasks-dispatch t e e.body s h
  ]

  pub get-tasks-serve :
      (t : String) (s : LdpServer) (es : List LdpEnvelope)
      → All (λ e. Leaves t e.body) es
      → HashMap.get (serve s es).tasks t ≡ HashMap.get s.tasks t
  unfolding serve
  get-tasks-serve t s [] h = refl
  get-tasks-serve t s (e ∷ es) h =
      get-tasks-serve t (handle_message e s).1 es h.1 ∙ get-tasks-handle_message t e s h.0

  -- Provenance that a delegate gives its own results.
  abbrev pub IsOwn : LdpIdentityCard → Provenance → Type 0
  IsOwn card p =
      (p.produced_by ≡ card.delegate_id)
      × (p.model_version ≡ card.model_version)
      × (p.verification_status ≡ self_verified)
      × (p.verified ≡ true)

  own_provenance-IsOwn : (s : LdpServer) → IsOwn s.identity (own_provenance s).0
  unfolding own_provenance Provenance.new
  own_provenance-IsOwn s = (refl, refl, refl, refl)

  -- What a task's id, output and provenance are in an answer of a delegate.
  abbrev pub ResultOf : LdpIdentityCard → String → ext.Value → LdpMessageBody → Type 0
  ResultOf card t v (task_result i output p) = (i ≡ t) × (output ≡ v) × IsOwn card p
  ResultOf card t v _ = ⊥

  pub sign-ResultOf :
      (k : Option String) (card : LdpIdentityCard) (t : String) (v : ext.Value) (r : LdpEnvelope)
      → ResultOf card t v r.body
      → ResultOf card t v (sign_if_configured k r).body
  unfolding sign_if_configured apply_signature
  sign-ResultOf none card t v r h = h
  sign-ResultOf (some secret) card t v r h = apply_signature-ResultOf h
    where
      apply_signature-ResultOf :
          ResultOf card t v r.body → ResultOf card t v (apply_signature r secret).body
      apply_signature-ResultOf x = x

  -- The record of a task that is completed with an output.
  abbrev pub IsDone : ext.Value → Option TaskRecord → Type 0
  IsDone v none = ⊥
  IsDone v (some found) = (found.state ≡ completed) × (found.output ≡ some v)

  pub dispatch-submit :
      (e : LdpEnvelope) (s : LdpServer) (t skill : String) (input : ext.Value)
      (c : Option DelegationContract)
      → let d = dispatch e (task_submit t skill input c) s in
        (r : LdpEnvelope) × (d.0 ≡ ok r)
        × ResultOf s.identity t (s.handler skill input) r.body
        × IsDone (s.handler skill input) (HashMap.get d.1.tasks t)
  unfolding dispatch handle_task_submit respond
  dispatch-submit e s t skill input c = (
    _,
    refl,
    (refl, refl, own_provenance-IsOwn (store_task t skill (s.handler skill input) s)),
    rw HashMap.get-insert_self (refl, refl),
  )

  status_body-ResultOf :
      (s : LdpServer) (t : String) (v : ext.Value) (found : TaskRecord)
      → found.state ≡ completed
      → found.output ≡ some v
      → ResultOf s.identity t v (status_body s t found).0
  unfolding status_body
  status_body-ResultOf s t v found done out =
      rw (done, status_body) (refl, rw out, own_provenance-IsOwn s)

  answer_status-ResultOf :
      (e : LdpEnvelope) (s : LdpServer) (t : String) (v : ext.Value) (o : Option TaskRecord)
      → IsDone v o
      → (r : LdpEnvelope) × ((answer_status o e t s).0 ≡ ok r) × ResultOf s.identity t v r.body
  unfolding respond
  answer_status-ResultOf e s t v none h = absurd h
  answer_status-ResultOf e s t v (some found) h =
      (_, refl, status_body-ResultOf s t v found h.0 h.1)

  pub dispatch-query :
      (e : LdpEnvelope) (s : LdpServer) (t : String) (p : Option ext.Float) (m : Option String)
      (v : ext.Value)
      → IsDone v (HashMap.get s.tasks t)
      → (r : LdpEnvelope) × ((dispatch e (task_update t p m) s).0 ≡ ok r)
        × ResultOf s.identity t v r.body
  unfolding dispatch handle_task_status_query
  dispatch-query e s t p m v h = answer_status-ResultOf e s t v (HashMap.get s.tasks t) h

  pub serve-SameSetup : (s : LdpServer) (es : List LdpEnvelope) → SameSetup s (serve s es)
  unfolding serve
  serve-SameSetup s [] = record { identity = refl; handler = refl; signing_secret = refl }
  serve-SameSetup s (e ∷ es) =
      SameSetup_trans s (handle_message e s).1 (serve (handle_message e s).1 es)
        (handle_message-SameSetup e s) (serve-SameSetup (handle_message e s).1 es)

  -- A submission that passes the signature check is answered with the handler's output, with the
  -- server's delegate id and model version as its provenance, marked by the server itself as
  -- self-verified, with the flag `verified` set; and so is every later query for the task that
  -- passes it, whatever messages come between, as long as none of them submits or cancels that task.
  pub status_after_submit :
      (e q : LdpEnvelope) (s : LdpServer) (es : List LdpEnvelope) (t skill : String)
      (input : ext.Value) (c : Option DelegationContract) (p : Option ext.Float) (m : Option String)
      → e.body ≡ task_submit t skill input c
      → q.body ≡ task_update t p m
      → check_signature s.signing_secret e ≡ ok tt
      → check_signature s.signing_secret q ≡ ok tt
      → All (λ x. Leaves t x.body) es
      → (r : LdpEnvelope) × (a : LdpEnvelope) × ((handle_message e s).0 ≡ ok r)
        × ((handle_message q (serve (handle_message e s).1 es)).0 ≡ ok a)
        × ResultOf s.identity t (s.handler skill input) r.body
        × ResultOf s.identity t (s.handler skill input) a.body
  status_after_submit e q s es t skill input c p m eb qb pe pq quiet =
      let v = s.handler skill input in
      let (r, made, result, done) = dispatch-submit e s t skill input c in
      let s₁ = (handle_message e s).1 in
      let s₂ = serve s₁ es in
      let same = SameSetup_trans s s₁ s₂ (handle_message-SameSetup e s) (serve-SameSetup s₁ es) in
      let k = same.signing_secret in
      let there : IsDone v (HashMap.get s₂.tasks t) =
        rw (get-tasks-serve t s₁ es quiet, handle_message_state e s eb pe) done in
      let (a, answered, result') = dispatch-query q s₂ t p m v there in
      (
        sign_if_configured s.signing_secret r,
        sign_if_configured s₂.signing_secret a,
        handle_message-ok e s eb pe r made,
        handle_message-ok q s₂ qb (rw k pq) a answered,
        sign-ResultOf s.signing_secret s.identity t v r result,
        sign-ResultOf s₂.signing_secret s.identity t v a
            (subst (λ card. ResultOf card t v a.body) same.identity result'),
      )
