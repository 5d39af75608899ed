-- ===== src/Server/Frame.antt =====
-- What no message changes on the server (src/server.rs), and what one message can do to the maps.
use ldp_protocol.Common.{
  String, ◌≡◌, refl, ap, ◌∙◌, ◌⊎◌, inl, inr, arith, Result, ok, err, continue, continue-ok_state,
  continue-eq-ok, continue-ok,
}
use ldp_protocol.Externals.{Externals}
use ldp_protocol.Types.Messages.{
  LdpEnvelope, LdpMessageBody, hello, session_propose, task_submit, task_update, task_cancel,
  session_close,
}
use ldp_protocol.Signing.{sign_if_configured}
use ldp_protocol.Server.{LdpServer}
use ldp_protocol.Server.Handlers.{
  respond, handle_hello, reject_session, accept_session, handle_session_propose, handle_task_submit,
  handle_task_status_query, handle_task_cancel, handle_session_close, check_signature,
  sign_outgoing, dispatch, handle_message,
}

module _ ⦃ext : Externals⦄ where
  -- The parts of the server that are fixed when it starts.
  pub record SameSetup (s t : LdpServer) : Type 0 where
    pub identity : t.identity ≡ s.identity
    pub handler : t.handler ≡ s.handler
    pub signing_secret : t.signing_secret ≡ s.signing_secret

  pub SameSetup_trans : (s t u : LdpServer) → SameSetup s t → SameSetup t u → SameSetup s u
  SameSetup_trans s t u h k = record {
    identity = k.identity ∙ h.identity;
    handler = k.handler ∙ h.handler;
    signing_secret = k.signing_secret ∙ h.signing_secret;
  }

  pub dispatch-SameSetup :
      (e : LdpEnvelope) (b : LdpMessageBody) (s : LdpServer) → SameSetup s (dispatch e b s).1
  unfolding dispatch handle_hello handle_session_propose accept_session reject_session
      handle_task_submit handle_task_status_query handle_task_cancel handle_session_close respond
  dispatch-SameSetup e (hello d m) s = record {
    identity = refl;
    handler = refl;
    signing_secret = refl;
  }
  dispatch-SameSetup e (session_propose c) s = ground arith
  dispatch-SameSetup e (task_submit t k v c) s = ground arith
  dispatch-SameSetup e (task_update t p m) s = ground arith
  dispatch-SameSetup e (task_cancel t) s = ground arith
  dispatch-SameSetup e (session_close r) s = ground arith
  dispatch-SameSetup e _ s = ground arith

  -- A message that passes the signature check is its handler's, and the answer is signed.
  pub handle_message-dispatch :
      (e : LdpEnvelope) (s : LdpServer)
      → check_signature s.signing_secret e ≡ ok tt
      → handle_message e s ≡ continue (dispatch e e.body s) sign_outgoing
  unfolding handle_message
  handle_message-dispatch e s h = rw h

  -- A message is refused before its handler runs, and then nothing changes; or its handler runs.
  pub handle_message-cases :
      (e : LdpEnvelope) (s : LdpServer)
      → ((m : String) × (check_signature s.signing_secret e ≡ err m)
          × (handle_message e s ≡ (err m, s)))
        ⊎ (check_signature s.signing_secret e ≡ ok tt)
          × ((handle_message e s).1 ≡ (dispatch e e.body s).1)
  unfolding handle_message
  handle_message-cases e s = go (check_signature s.signing_secret e) refl
    where
      go :
          (r : Result (Unit {0}))
          → check_signature s.signing_secret e ≡ r
          → ((m : String) × (check_signature s.signing_secret e ≡ err m)
              × (handle_message e s ≡ (err m, s)))
            ⊎ (check_signature s.signing_secret e ≡ ok tt)
              × ((handle_message e s).1 ≡ (dispatch e e.body s).1)
      go (err m) h = inl (m, h, rw h)
      go (ok _) h = inr (
        h,
        rw h (
            continue-ok_state (λ r t. sign_if_configured t.signing_secret r) (dispatch e e.body s)),
      )

  -- An answer is the handler's, signed where signing is configured.
  pub handle_message-eq-ok :
      (e : LdpEnvelope) (s : LdpServer) (r : LdpEnvelope)
      → (handle_message e s).0 ≡ ok r
      → (r' : LdpEnvelope) × ((dispatch e e.body s).0 ≡ ok r')
        × (r ≡ sign_if_configured s.signing_secret r')
  unfolding handle_message
  handle_message-eq-ok e s r h = go (check_signature s.signing_secret e) refl
    where
      finish :
          (continue (dispatch e e.body s) sign_outgoing).0 ≡ ok r
          → (r' : LdpEnvelope) × ((dispatch e e.body s).0 ≡ ok r')
            × (r ≡ sign_if_configured s.signing_secret r')
      finish p =
          let (r', made, eq) =
            continue-eq-ok (λ r t. sign_if_configured t.signing_secret r) (dispatch e e.body s) r
              p in
          (
            r',
            made,
            eq ∙ ap (λ k. sign_if_configured k r') (dispatch-SameSetup e e.body s).signing_secret,
          )

      go :
          (c : Result (Unit {0}))
          → check_signature s.signing_secret e ≡ c
          → (r' : LdpEnvelope) × ((dispatch e e.body s).0 ≡ ok r')
            × (r ≡ sign_if_configured s.signing_secret r')
      go (err m) q = let h' : ◌≡◌ {A = Result LdpEnvelope} (err m) (ok r) = rw q at h in cc
      go (ok _) q = finish (rw q at h)

  -- What the handler of the message's body answers is answered, signed where signing is
  -- configured; and the state is the handler's.
  module _ (e : LdpEnvelope) (s : LdpServer) {b : LdpMessageBody} (body : e.body ≡ b)
      (passed : check_signature s.signing_secret e ≡ ok tt) where
    pub handle_message-body : handle_message e s ≡ continue (dispatch e b s) sign_outgoing
    handle_message-body =
        handle_message-dispatch e s passed ∙ ap (λ x. continue (dispatch e x s) sign_outgoing) body

    pub handle_message-ok :
        (r : LdpEnvelope)
        → (dispatch e b s).0 ≡ ok r
        → (handle_message e s).0 ≡ ok (sign_if_configured s.signing_secret r)
    handle_message-ok r made =
        ap (λ p. p.0) handle_message-body
        ∙ (continue-ok (λ x t. sign_if_configured t.signing_secret x) (dispatch e b s) r made
            ∙ ap (λ k. ok (sign_if_configured k r)) (dispatch-SameSetup e b s).signing_secret)

    pub handle_message_state : (handle_message e s).1 ≡ (dispatch e b s).1
    handle_message_state =
        ap (λ p. p.1) handle_message-body
        ∙ continue-ok_state (λ x t. sign_if_configured t.signing_secret x) (dispatch e b s)

  -- No message changes the identity, the handler or the secret.
  pub handle_message-SameSetup :
      (e : LdpEnvelope) (s : LdpServer) → SameSetup s (handle_message e s).1
  handle_message-SameSetup e s = elim (handle_message-cases e s) [
    | inl (_, _, refused) ↦
        rw refused (record { identity = refl; handler = refl; signing_secret = refl })
    | inr (_, kept) ↦ rw kept (dispatch-SameSetup e e.body s)
  ]
