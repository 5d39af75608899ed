-- ===== src/Server/Refines.antt =====
-- The server (src/server.rs) implements the abstract machine of Server/View.
use mathlib.Core.Path.{fun_ext}
use ldp_protocol.Common.{
  String, ◌≡◌, refl, ap, ◌∙◌, ◌↔◌, inl, inr, Bool, true, false, Option, none, some, List, [], ◌∷◌,
  arith, Result, ok, err, and_then, if◌then◌else◌, ◌==◌, eq_iff, Bool-cases, Option-cases, continue,
}
use ldp_protocol.Common.HashMap
use ldp_protocol.Common.HashMap.{HashMap}
use ldp_protocol.Externals.{Externals, CtEqLaws}
use ldp_protocol.Types.Messages.{
  LdpEnvelope, LdpMessageBody, hello, session_propose, task_submit, task_update, task_cancel,
  session_close,
}
use ldp_protocol.Types.Payload.{text, negotiate_payload_mode}
use ldp_protocol.Types.Session.{LdpSession}
use ldp_protocol.Types.Trust.{trusts}
use ldp_protocol.Signing.{sign_envelope}
use ldp_protocol.Signing.Verify.{verify_envelope_iff}
use ldp_protocol.Server.{LdpServer, TaskRecord, handle_capabilities_request}
use ldp_protocol.Server.Frame.{
  SameSetup, handle_message-SameSetup, handle_message-cases, handle_message-dispatch,
}
use ldp_protocol.Server.Handlers.{
  respond, handle_hello, reject_session, accept_session, handle_session_propose, handle_task_submit,
  handle_task_status_query, handle_task_cancel, handle_session_close, answer_status, status_body,
  check_signature, sign_outgoing, dispatch, handle_message, remote_domain, requested_mode,
}
use ldp_protocol.Server.Proposals.{sign-body}
use ldp_protocol.Server.Sessions.{IsValid, IsFinished, handle_message-IsValid}
use ldp_protocol.Server.View
use ldp_protocol.Server.View.{
  View, Reply, Setup, update, is_admitted, react, receive, receive_all, view, setup, read,
  read_body, converse, refused,
}

module _ ⦃ext : Externals⦄ where
  module _ {A B : Type 0} (f : A → Option B) (m : HashMap A) where
    -- A map, read through a function, as the update of a function.
    and_then-get-insert :
        (k : String) (a : A)
        → (λ j. and_then (HashMap.get (HashMap.insert m k a) j) f)
          ≡ update (λ j. and_then (HashMap.get m j) f) k (f a)
    and_then-get-insert k a = fun_ext λ j. go j (k == j) (HashMap.get-insert m k a j)
      where
        go :
            (j : String) (b : Bool)
            → HashMap.get (HashMap.insert m k a) j ≡ (if b then some a else HashMap.get m j)
            → and_then (HashMap.get (HashMap.insert m k a) j) f
              ≡ (if b then f a else and_then (HashMap.get m j) f)
        go j true h = rw h refl
        go j false h = rw h refl

    and_then-get-remove :
        (k : String)
        → (λ j. and_then (HashMap.get (HashMap.remove m k) j) f)
          ≡ update (λ j. and_then (HashMap.get m j) f) k none
    and_then-get-remove k = fun_ext λ j. go j (k == j) (HashMap.get-remove m k j)
      where
        go :
            (j : String) (b : Bool)
            → HashMap.get (HashMap.remove m k) j ≡ (if b then none else HashMap.get m j)
            → and_then (HashMap.get (HashMap.remove m k) j) f
              ≡ (if b then none else and_then (HashMap.get m j) f)
        go j true h = rw h refl
        go j false h = rw h refl

  -- The machine takes the step that a handler takes.
  abbrev pub Refines : LdpServer → Result LdpEnvelope × LdpServer → Reply × View → Type 0
  Refines s p q = (read p.0 ≡ q.0) × (view p.1 ≡ q.1)

  read_body-status_body :
      (t : String) (s : LdpServer) (found : TaskRecord)
      → IsFinished (t, found)
      → read_body (status_body s t found).0 ≡ View.ask t found.output
  unfolding status_body
  read_body-status_body t s found h = elim (Option-cases found.output) [
    | inl absent ↦ absurd (h.output absent)
    | inr (v, present) ↦ rw (h.state, status_body, present) refl
  ]

  ask-Refines :
      (e : LdpEnvelope) (t : String) (s : LdpServer) (o : Option TaskRecord)
      → ((found : TaskRecord) → o ≡ some found → IsFinished (t, found))
      → Refines s (answer_status o e t s) (View.ask t (and_then o (λ found. found.output)), view s)
  unfolding view read respond
  ask-Refines e t s none h = (refl, refl)
  ask-Refines e t s (some found) h = (read_body-status_body t s found (h found refl), refl)

  accept_session-Refines :
      (e : LdpEnvelope) (config : ext.Value) (s : LdpServer)
      → Refines s (accept_session e config s) (
          let mode =
            (negotiate_payload_mode
              (requested_mode config ∷ text ∷ [])
              s.identity.supported_payload_modes).mode in
          (
            Reply.accepted e.session_id mode,
            record (view s) { sessions = update (view s).sessions e.session_id (some mode) },
          ))
  unfolding view read accept_session respond
  accept_session-Refines e config s = (
    refl,
    ap (λ f. record (view s) { sessions = f })
        (and_then-get-insert (λ (x : LdpSession). some x.payload.mode) s.sessions e.session_id _),
  )

  reject_session-Refines :
      (e : LdpEnvelope) (config : ext.Value) (s : LdpServer)
      → Refines s (reject_session e (remote_domain config) s) (Reply.rejected, view s)
  unfolding view read reject_session respond
  reject_session-Refines e config s = (refl, refl)

  propose-Refines :
      (e : LdpEnvelope) (config : ext.Value) (s : LdpServer)
      → Refines s
          (handle_session_propose e config s)
          (View.propose (setup s) e.session_id config (view s))
  unfolding view setup read handle_session_propose
  propose-Refines e config s =
      elim (Bool-cases (trusts s.identity.trust_domain (remote_domain config))) [
        | inl trusted ↦ rw trusted (accept_session-Refines e config s)
        | inr denied ↦ rw denied (reject_session-Refines e config s)
      ]

  pub dispatch-Refines :
      (e : LdpEnvelope) (b : LdpMessageBody) (s : LdpServer)
      → IsValid s
      → Refines s (dispatch e b s) (react (setup s) e.session_id b (view s))
  unfolding react view setup read dispatch handle_hello handle_task_submit handle_task_status_query
      handle_task_cancel handle_session_close respond
  dispatch-Refines e (hello d m) s v = (refl, refl)
  dispatch-Refines e (session_propose c) s v = propose-Refines e c s
  dispatch-Refines e (task_submit t k i c) s v = (
    refl,
    ap (λ f. record (view s) { tasks = f })
        (and_then-get-insert (λ (x : TaskRecord). x.output) s.tasks t _),
  )
  dispatch-Refines e (task_update t p m) s v =
      ask-Refines e t s (HashMap.get s.tasks t)
        (λ found h. HashMap.All-get IsFinished s.tasks t found v.tasks h)
  dispatch-Refines e (task_cancel t) s v = (
    refl,
    ap (λ f. record (view s) { tasks = f })
        (and_then-get-remove (λ (x : TaskRecord). x.output) s.tasks t),
  )
  dispatch-Refines e (session_close r) s v = (
    refl,
    ap (λ f. record (view s) { sessions = f })
        (and_then-get-remove (λ (x : LdpSession). some x.payload.mode) s.sessions e.session_id),
  )
  dispatch-Refines e _ s v = (refl, refl)

  -- The check of the code lets in what the machine lets in.
  pub check_signature_iff :
      (laws : CtEqLaws) (k : Option String) (e : LdpEnvelope)
      → (check_signature k e ≡ ok tt) ↔ (is_admitted k e ≡ true)
  check_signature_iff laws none e = (λ h. refl, λ h. refl)
  check_signature_iff laws (some secret) e = elim (Option-cases e.signature) [
    | inl absent ↦ rw absent (ground arith)
    | inr (sig, given) ↦
        rw given (
          ground
            (arith, verify_envelope_iff laws e secret sig, eq_iff sig (sign_envelope e secret)))
  ]

  pub read-sign :
      (a : Result LdpEnvelope × LdpServer) → read (continue a sign_outgoing).0 ≡ read a.0
  unfolding read
  read-sign (ok r, s) = ap read_body (sign-body s.signing_secret r)
  read-sign (err m, s) = refl

  -- One message: its answer and the view of the server afterwards are those of the machine.
  pub handle_message-Refines :
      (laws : CtEqLaws) (e : LdpEnvelope) (s : LdpServer)
      → IsValid s
      → Refines s (handle_message e s) (receive (setup s) e (view s))
  unfolding receive setup read
  handle_message-Refines laws e s v =
      let iff = check_signature_iff laws s.signing_secret e in
      elim (handle_message-cases e s) [
        | inl (m, failed, gone) ↦ elim (Bool-cases (is_admitted s.signing_secret e)) [
          | inl admitted ↦ absurd (ground (arith, failed, iff.1 admitted))
          | inr barred ↦ rw (gone, barred) (refl, refl)
        ]
        | inr (passed, kept) ↦ rw (iff.0 passed) (
          rw (handle_message-dispatch e s passed, read-sign) (dispatch-Refines e e.body s v).0,
          ap view kept ∙ (dispatch-Refines e e.body s v).1,
        )
      ]

  pub setup-SameSetup : (s t : LdpServer) → SameSetup s t → setup t ≡ setup s
  unfolding setup handle_capabilities_request
  setup-SameSetup s t h = rw (h.identity, h.handler, h.signing_secret) refl

  -- A server that starts valid gives exactly the answers of the abstract machine to any sequence of
  -- messages, answered or refused, and its sessions and tasks are the machine's afterwards.
  pub converse-receive_all :
      (laws : CtEqLaws) (s : LdpServer) (es : List LdpEnvelope)
      → IsValid s
      → ((converse s es).0 ≡ (receive_all (setup s) es (view s)).0)
        × (view (converse s es).1 ≡ (receive_all (setup s) es (view s)).1)
  unfolding converse receive_all
  converse-receive_all laws s [] v = (refl, refl)
  converse-receive_all laws s (e ∷ es) v =
      let s' = (handle_message e s).1 in
      let (answer, state) = handle_message-Refines laws e s v in
      let (answers, states) = converse-receive_all laws s' es (handle_message-IsValid e s v) in
      let same = setup-SameSetup s s' (handle_message-SameSetup e s) in
      (rw (answer, answers, same, state) refl, rw (states, same, state) refl)
