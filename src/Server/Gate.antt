-- ===== src/Server/Gate.antt =====
-- What passes the signature check of the server (src/server.rs), and what it answers.
use mathlib.Core.Path.{subst}
use ldp_protocol.Common.{
  sym, String, ◌≡◌, ◌≢◌, refl, ap, ◌∙◌, continue-eq-err, ◌⊎◌, inl, inr, true, Option, none, some,
  arith, ok, err, Option-cases,
}
use ldp_protocol.Externals.{Externals, CtEqLaws}
use ldp_protocol.Types.Messages.{
  LdpEnvelope, LdpMessageBody, hello, session_propose, task_submit, task_update, task_cancel,
  session_close,
}
use ldp_protocol.Signing.{sign_envelope, apply_signature, sign_if_configured}
use ldp_protocol.Signing.Verify.{verify_envelope_iff}
use ldp_protocol.Server.{LdpServer}
use ldp_protocol.Server.Frame.{handle_message-cases, handle_message-eq-ok, handle_message-dispatch}
use ldp_protocol.Server.Handlers.{
  respond, handle_hello, reject_session, accept_session, handle_session_propose, handle_task_submit,
  handle_task_status_query, handle_task_cancel, handle_session_close, check_signature, is_hello,
  dispatch, handle_message,
}

module _ ⦃ext : Externals⦄ where
  -- A handler that fails changes nothing.
  dispatch-eq-err :
      (e : LdpEnvelope) (b : LdpMessageBody) (s : LdpServer) (m : String)
      → (dispatch e b s).0 ≡ err m
      → (dispatch e b s).1 ≡ s
  unfolding dispatch handle_hello handle_session_propose accept_session reject_session
      handle_task_submit handle_task_status_query handle_task_cancel handle_session_close respond
  dispatch-eq-err e (hello d m) s _ h = ground arith
  dispatch-eq-err e (session_propose c) s _ h = ground arith
  dispatch-eq-err e (task_submit t k v c) s _ h = ground arith
  dispatch-eq-err e (task_update t p m) s _ h = ground arith
  dispatch-eq-err e (task_cancel t) s _ h = ground arith
  dispatch-eq-err e (session_close r) s _ h = ground arith
  dispatch-eq-err e _ s _ h = ground arith

  -- A message that is answered with an error, at the signature check or by its handler, leaves
  -- the server exactly as it was.
  pub handle_message-eq-err :
      (e : LdpEnvelope) (s : LdpServer) (m : String)
      → (handle_message e s).0 ≡ err m
      → (handle_message e s).1 ≡ s
  handle_message-eq-err e s m h = elim (handle_message-cases e s) [
    | inl (_, _, refused) ↦ ap (λ p. p.1) refused
    | inr (passed, kept) ↦
        kept
        ∙ dispatch-eq-err e e.body s m (
            continue-eq-err (λ r t. sign_if_configured t.signing_secret r) (dispatch e e.body s) m
              (rw (handle_message-dispatch e s passed) at h))
  ]

  -- Where an answer comes from and goes to.
  pub record IsAnswer (e : LdpEnvelope) (s : LdpServer) (r : LdpEnvelope) : Type 0 where
    pub session_id : r.session_id ≡ e.session_id
    pub from : r.from ≡ s.identity.delegate_id
    pub to : r.to ≡ e.from

  dispatch-IsAnswer :
      (e : LdpEnvelope) (b : LdpMessageBody) (s : LdpServer) (r : LdpEnvelope)
      → (dispatch e b s).0 ≡ ok r
      → IsAnswer e s r
  unfolding dispatch handle_hello handle_session_propose accept_session reject_session
      handle_task_submit handle_task_status_query handle_task_cancel handle_session_close respond
  dispatch-IsAnswer e (hello d m) s r h = ground arith
  dispatch-IsAnswer e (session_propose c) s r h = ground arith
  dispatch-IsAnswer e (task_submit t k v c) s r h = ground arith
  dispatch-IsAnswer e (task_update t p m) s r h = ground arith
  dispatch-IsAnswer e (task_cancel t) s r h = ground arith
  dispatch-IsAnswer e (session_close _) s r h = ground arith
  dispatch-IsAnswer e _ s r h = ground arith

  sign-IsAnswer :
      (k : Option String) (e : LdpEnvelope) (s : LdpServer) (r : LdpEnvelope)
      → IsAnswer e s r
      → IsAnswer e s (sign_if_configured k r)
  unfolding sign_if_configured apply_signature
  sign-IsAnswer none e s r a = a
  sign-IsAnswer (some k) e s r a = record { session_id = a.session_id; from = a.from; to = a.to }

  -- Every answer keeps the session of the message, names the server as its sender and is addressed
  -- to the sender of the message.
  pub handle_message-IsAnswer :
      (e : LdpEnvelope) (s : LdpServer) (r : LdpEnvelope)
      → (handle_message e s).0 ≡ ok r
      → IsAnswer e s r
  handle_message-IsAnswer e s r h =
      let (r', made, eq) = handle_message-eq-ok e s r h in
      rw eq (sign-IsAnswer s.signing_secret e s r' (dispatch-IsAnswer e e.body s r' made))

  signed :
      (r : LdpEnvelope) (secret : String)
      → (sign_if_configured (some secret) r).signature
        ≡ some (sign_envelope (sign_if_configured (some secret) r) secret)
  unfolding sign_if_configured apply_signature sign_envelope
  signed r secret = refl

  -- With a secret configured, every answer carries the signature that its receiver computes.
  pub handle_message_signed :
      (e : LdpEnvelope) (s : LdpServer) (r : LdpEnvelope) (secret : String)
      → s.signing_secret ≡ some secret
      → (handle_message e s).0 ≡ ok r
      → r.signature ≡ some (sign_envelope r secret)
  handle_message_signed e s r secret k h =
      let (r', made, eq) = handle_message-eq-ok e s r h in
      subst (λ x. x.signature ≡ some (sign_envelope x secret))
        (sym (eq ∙ ap (λ o. sign_if_configured o r') k)) (signed r' secret)

  module _ (laws : CtEqLaws) where
    check_signature_sound :
        (e : LdpEnvelope) (secret : String)
        → check_signature (some secret) e ≡ ok tt
        → (e.signature ≡ some (sign_envelope e secret))
          ⊎ (e.signature ≡ none) × (is_hello e.body ≡ true)
    check_signature_sound e secret h = elim (Option-cases e.signature) [
      | inl absent ↦ inr (absent, ground arith)
      | inr (sig, given) ↦
          inl (given ∙ ap some ((verify_envelope_iff laws e secret sig).0 (ground arith)))
    ]

    -- With a secret configured, a message is answered, or changes anything, only if it carries the
    -- signature under that secret, or is a HELLO without a signature.
    pub handle_message_gate :
        (e : LdpEnvelope) (s : LdpServer) (secret : String)
        → s.signing_secret ≡ some secret
        → (handle_message e s).1 ≢ s ⊎ (r : LdpEnvelope) × ((handle_message e s).0 ≡ ok r)
        → (e.signature ≡ some (sign_envelope e secret))
          ⊎ (e.signature ≡ none) × (is_hello e.body ≡ true)
    handle_message_gate e s secret k h = elim (handle_message-cases e s) [
      | inl (m, _, refused) ↦ absurd (impossible m refused h)
      | inr (passed, _) ↦ check_signature_sound e secret (rw k at passed)
    ]
      where
        impossible :
            (m : String)
            → handle_message e s ≡ (err m, s)
            → (handle_message e s).1 ≢ s ⊎ (r : LdpEnvelope) × ((handle_message e s).0 ≡ ok r)
            → ⊥
        impossible m p (inl changed) = changed (ap (λ q. q.1) p)
        impossible m p (inr (r, answered)) = cc

  -- What is signed with the server's own secret passes its check.
  pub check_signature-sign :
      (ct : CtEqLaws) (k : Option String) (e : LdpEnvelope)
      → check_signature k (sign_if_configured k e) ≡ ok tt
  unfolding sign_if_configured apply_signature sign_envelope
  check_signature-sign ct none e = refl
  check_signature-sign ct (some secret) e =
      rw
        ((verify_envelope_iff ct (apply_signature e secret) secret (sign_envelope e secret)).1 refl)
        refl
