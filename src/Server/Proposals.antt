-- ===== src/Server/Proposals.antt =====
-- How the server (src/server.rs) answers SESSION_PROPOSE, and the session that it opens.
use mathlib.Core.Path.{subst}
use ldp_protocol.Common.{
  String, ◌≡◌, ◌≢◌, refl, sym, ap, ◌∙◌, true, false, Option, none, some, [], ◌∷◌, ok,
}
use ldp_protocol.Common.HashMap
use ldp_protocol.Common.HashMap.{HashMap}
use ldp_protocol.Externals.{Externals}
use ldp_protocol.Types.Error.{policy_failure, policy}
use ldp_protocol.Types.Messages.{
  LdpEnvelope, LdpMessageBody, session_propose, session_accept, session_reject,
}
use ldp_protocol.Types.Payload.{text, negotiate_payload_mode}
use ldp_protocol.Types.Session.{LdpSession}
use ldp_protocol.Types.Trust.{trusts}
use ldp_protocol.Signing.{sign_if_configured, apply_signature}
use ldp_protocol.Server.{LdpServer}
use ldp_protocol.Server.Frame.{handle_message-ok, handle_message_state}
use ldp_protocol.Server.Handlers.{
  respond, reject_session, accept_session, handle_session_propose, check_signature, dispatch,
  handle_message, remote_domain, requested_mode, requested_ttl,
}

module _ ⦃ext : Externals⦄ where
  -- What one accepted proposal leaves on the server.
  pub record Opened (e : LdpEnvelope) (c : ext.Value) (s t : LdpServer) (session : LdpSession)
      : Type 0 where
    pub stored : HashMap.get t.sessions e.session_id ≡ some session
    pub remote_delegate_id : session.remote_delegate_id ≡ e.from
    pub ttl_secs : session.ttl_secs ≡ requested_ttl c
    pub mode :
        session.payload
        ≡ negotiate_payload_mode (requested_mode c ∷ text ∷ []) s.identity.supported_payload_modes
    pub others :
        (j : String) → e.session_id ≢ j → HashMap.get t.sessions j ≡ HashMap.get s.sessions j

  dispatch-propose_trusted :
      (e : LdpEnvelope) (s : LdpServer) (c : ext.Value)
      → trusts s.identity.trust_domain (remote_domain c) ≡ true
      → let d = dispatch e (session_propose c) s in
        (r : LdpEnvelope) × (session : LdpSession) × (d.0 ≡ ok r)
        × (r.body ≡ session_accept e.session_id session.payload.mode)
        × Opened e c s d.1 session
  unfolding dispatch handle_session_propose accept_session respond
  dispatch-propose_trusted e s c h =
      rw (h, handle_session_propose)
        (
          _,
          _,
          refl,
          refl,
          record {
            stored = HashMap.get-insert_self s.sessions e.session_id _;
            remote_delegate_id = refl;
            ttl_secs = refl;
            mode = refl;
            others = λ j ne. HashMap.get-insert_ne s.sessions e.session_id _ j ne;
          },
        )

  pub sign-body : (k : Option String) (r : LdpEnvelope) → (sign_if_configured k r).body ≡ r.body
  unfolding sign_if_configured apply_signature
  sign-body none r = refl
  sign-body (some secret) r = refl

  pub propose_trusted :
      (e : LdpEnvelope) (s : LdpServer) (c : ext.Value)
      → e.body ≡ session_propose c
      → check_signature s.signing_secret e ≡ ok tt
      → trusts s.identity.trust_domain (remote_domain c) ≡ true
      → (r : LdpEnvelope) × (session : LdpSession) × ((handle_message e s).0 ≡ ok r)
        × (r.body ≡ session_accept e.session_id session.payload.mode)
        × Opened e c s (handle_message e s).1 session
  propose_trusted e s c body passed h =
      let (r, session, made, accepted, opened) = dispatch-propose_trusted e s c h in
      (
        sign_if_configured s.signing_secret r,
        session,
        handle_message-ok e s body passed r made,
        sign-body s.signing_secret r ∙ accepted,
        rw (handle_message_state e s body passed) opened,
      )

  abbrev pub IsPolicyReject : LdpMessageBody → Type 0
  IsPolicyReject (session_reject reason (some error)) =
      (error.code ≡ "TRUST_VIOLATION")
      × (error.category ≡ policy_failure)
      × (error.retryable ≡ false)
  IsPolicyReject _ = ⊥

  dispatch-propose_untrusted :
      (e : LdpEnvelope) (s : LdpServer) (c : ext.Value)
      → trusts s.identity.trust_domain (remote_domain c) ≡ false
      → let d = dispatch e (session_propose c) s in
        (r : LdpEnvelope) × (d.0 ≡ ok r)
        × IsPolicyReject r.body
        × (d.1.sessions ≡ s.sessions)
        × (d.1.tasks ≡ s.tasks)
  unfolding dispatch handle_session_propose reject_session respond policy
  dispatch-propose_untrusted e s c h =
      rw (h, handle_session_propose) (_, refl, (refl, refl, refl), refl, refl)

  -- A proposal from a domain that is not trusted, or that names none where "unknown" is not
  -- trusted, is rejected with a policy error that is not to be retried; no session or task changes.
  pub propose_untrusted :
      (e : LdpEnvelope) (s : LdpServer) (c : ext.Value)
      → e.body ≡ session_propose c
      → check_signature s.signing_secret e ≡ ok tt
      → trusts s.identity.trust_domain (remote_domain c) ≡ false
      → (r : LdpEnvelope) × ((handle_message e s).0 ≡ ok r)
        × IsPolicyReject r.body
        × ((handle_message e s).1.sessions ≡ s.sessions)
        × ((handle_message e s).1.tasks ≡ s.tasks)
  propose_untrusted e s c body passed h =
      let (r, made, rejected, sessions, tasks) = dispatch-propose_untrusted e s c h in
      let state = handle_message_state e s body passed in
      (
        sign_if_configured s.signing_secret r,
        handle_message-ok e s body passed r made,
        subst IsPolicyReject (sym (sign-body s.signing_secret r)) rejected,
        ap (λ (t : LdpServer). t.sessions) state ∙ sessions,
        ap (λ (t : LdpServer). t.tasks) state ∙ tasks,
      )
