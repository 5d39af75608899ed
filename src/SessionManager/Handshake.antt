-- ===== src/SessionManager/Handshake.antt =====
-- The handshake of the session manager (src/session_manager.rs) with the server of this crate
-- (src/server.rs) at the other end of the network.
use ldp_protocol.Common.{
  some, none, suc, String, ◌≡◌, refl, sym, ap, ◌∙◌, true, none, some, List, [], ◌∷◌, arith, ok,
}
use ldp_protocol.Common.HashMap
use ldp_protocol.Externals.{Externals, JsonLaws, CtEqLaws}
use ldp_protocol.Types.Messages.{LdpEnvelope, hello, session_propose, session_accept}
use ldp_protocol.Types.Payload.{PayloadMode, text, negotiate_payload_mode, NegotiatedPayload}
use ldp_protocol.Types.Payload.Negotiation.{negotiate_payload_mode_idem}
use ldp_protocol.Types.Session.{LdpSession, active}
use ldp_protocol.Types.Trust.{trusts}
use ldp_protocol.Config.{LdpAdapterConfig}
use ldp_protocol.Client.{Http}
use ldp_protocol.Server.{LdpServer}
use ldp_protocol.Server.Frame.{SameSetup, SameSetup_trans, handle_message-SameSetup}
use ldp_protocol.Server.Gate.{handle_message-IsAnswer}
use ldp_protocol.Server.Handlers.{handle_message, requested_mode, remote_domain}
use ldp_protocol.Server.Proposals.{propose_trusted}
use ldp_protocol.SessionManager.{
  SessionManager, manifest_modes, proposal, establish_session, establish_and_cache,
  get_or_establish, fresh_id, open_session, conclude,
}
use ldp_protocol.SessionManager.Delivery.{Delivers, Answered, send_signed-Answered, hello-Answers}
use ldp_protocol.SessionManager.Reading.{
  manifest_modes-handle_capabilities_request, requested_mode-proposal, remote_domain-proposal,
}

module _ ⦃ext : Externals⦄ ⦃http : Http⦄ where
  module _ (url : String) (peer : http.Net → LdpServer) (d : Delivers url peer) where
    -- Both ends after a handshake: the session of the client, and the one that the server files under
    -- its id.
    pub record Agreed (s : SessionManager) : Type 0 where
      pub session : LdpSession
      pub remote : LdpSession
      pub established : (get_or_establish url s).0 ≡ ok session
      pub stored :
          HashMap.get (peer (get_or_establish url s).1.net).sessions session.session_id
          ≡ some remote
      pub mode : remote.payload.mode ≡ session.payload.mode
      pub delegate : session.remote_delegate_id ≡ (peer s.net).identity.delegate_id
      pub client : remote.remote_delegate_id ≡ s.config.delegate_id

    module _ (laws : JsonLaws) (ct : CtEqLaws) (s : SessionManager)
        (k : (peer s.net).signing_secret ≡ s.config.signing_secret)
        (trusted : trusts (peer s.net).identity.trust_domain s.config.trust_domain.name
          ≡ true) where
      abbrev prefs : List PayloadMode
      prefs = s.config.session.preferred_payload_modes

      abbrev supported : List PayloadMode
      supported = (peer s.net).identity.supported_payload_modes

      abbrev negotiated : NegotiatedPayload
      negotiated = negotiate_payload_mode prefs supported

      abbrev Greeted : Type 0
      Greeted = Answered url peer d "" url (hello s.config.delegate_id prefs) text s

      greeted : Greeted
      greeted =
          send_signed-Answered url peer d ct "" url _ text s tt k (λ e b passed.
            let (r, made, _) = hello-Answers e (peer s.net) _ _ b passed in (r, made))

      module _ (h : Greeted) where
        -- The server after the greeting.
        abbrev server : LdpServer
        server = peer h.after.net

        server-SameSetup : SameSetup (peer s.net) server
        server-SameSetup = rw h.after_peer (handle_message-SameSetup h.sent (peer s.net))

        modes_read : manifest_modes h.reply.body ≡ ok supported
        modes_read =
            let (r, made, body) = hello-Answers h.sent (peer s.net) _ _ h.sent_body h.passed in
            let same : r ≡ h.reply = ground (arith, made, h.reply_ok) in
            ap manifest_modes (ap (λ (x : LdpEnvelope). x.body) (sym same) ∙ body)
            ∙ manifest_modes-handle_capabilities_request laws (peer s.net)

        abbrev config : ext.Value
        config = proposal s.config negotiated.mode

        abbrev identified : SessionManager
        identified = (fresh_id h.after).1

        server_trusts : trusts server.identity.trust_domain (remote_domain config) ≡ true
        server_trusts =
            rw (remote_domain-proposal laws s.config negotiated.mode, server-SameSetup.identity)
              trusted

        abbrev Proposed : Type 0
        Proposed =
            Answered url peer d (ext.uuid_v4 h.after.entropy.uuids) h.reply.from
              (session_propose config) text
              (record h.after {
                entropy = record h.after.entropy { uuids = suc h.after.entropy.uuids };
              })

        proposed : Proposed
        proposed =
            send_signed-Answered url peer d ct _ _ _ text _ tt
              (server-SameSetup.signing_secret
                ∙ (k ∙ ap (λ (c : LdpAdapterConfig). c.signing_secret) (sym h.after_config)))
              (λ e b passed.
                let (r, _, made, _, _) = propose_trusted e server config b passed server_trusts in
                (r, made))

        module _ (q : Proposed) where
          establish_session-accepted :
              (mode : PayloadMode)
              → q.reply.body ≡ session_accept q.sent.session_id mode
              → establish_session url s
                ≡ open_session url q.sent.session_id h.reply.from negotiated q.after
          unfolding establish_session fresh_id conclude
          establish_session-accepted mode body = rw (h.run, modes_read, q.run, body) refl

          reply_accepts :
              (remote : LdpSession) (r : LdpEnvelope)
              → (handle_message q.sent server).0 ≡ ok r
              → r.body ≡ session_accept q.sent.session_id remote.payload.mode
              → q.reply.body ≡ session_accept q.sent.session_id remote.payload.mode
          reply_accepts remote r made body =
              let same : r ≡ q.reply = ground (arith, made, q.reply_ok) in
              ap (λ (x : LdpEnvelope). x.body) (sym same) ∙ body

          mode_agrees :
              (remote : LdpSession)
              → remote.payload
                ≡ negotiate_payload_mode
                    (requested_mode config ∷ text ∷ [])
                    server.identity.supported_payload_modes
              → remote.payload.mode ≡ negotiated.mode
          mode_agrees remote e =
              rw
                (
                  e,
                  requested_mode-proposal laws s.config negotiated.mode,
                  server-SameSetup.identity,
                )
                (negotiate_payload_mode_idem supported prefs)

          agreed : HashMap.get s.sessions url ≡ none → Agreed s
          unfolding get_or_establish establish_and_cache open_session
          agreed fresh =
              let (r, remote, made, accepts, opened) =
                propose_trusted q.sent server config q.sent_body q.passed server_trusts in
              let run =
                establish_session-accepted remote.payload.mode
                  (reply_accepts remote r made accepts) in
              record {
                session = record {
                  session_id = q.sent.session_id;
                  remote_url = url;
                  remote_delegate_id = h.reply.from;
                  state = active;
                  payload = negotiated;
                  trust_domain = q.after.config.trust_domain;
                  created_at = ext.clock q.after.entropy.reads;
                  last_used = ext.clock q.after.entropy.reads;
                  ttl_secs = q.after.config.session.ttl_secs;
                  task_count = 0;
                };
                remote = remote;
                established = rw (fresh, run) refl;
                stored = rw (fresh, run, q.after_peer) opened.stored;
                mode = mode_agrees remote opened.mode;
                delegate = (handle_message-IsAnswer h.sent (peer s.net) h.reply h.reply_ok).from;
                client =
                    opened.remote_delegate_id
                    ∙ (q.sent_from ∙ ap (λ (c : LdpAdapterConfig). c.delegate_id) h.after_config);
              }

          -- Whatever the server then has on file, it is set up as before.
          delivered :
              (session : LdpSession) × (t : SessionManager) × (establish_session url s
                ≡ (ok session, t))
              × SameSetup (peer s.net) (peer t.net)
          unfolding open_session
          delivered =
              let (r, remote, made, accepts, opened) =
                propose_trusted q.sent server config q.sent_body q.passed server_trusts in
              let run =
                establish_session-accepted remote.payload.mode
                  (reply_accepts remote r made accepts) in
              (
                _,
                _,
                run,
                SameSetup_trans (peer s.net) server (peer q.after.net) server-SameSetup
                    (rw q.after_peer (handle_message-SameSetup q.sent server)),
              )

      -- Over a network that delivers the messages that JSON can carry to this crate's server and its
      -- answers back, with the same signing secret on both sides or none, and with a server that trusts the client's
      -- domain, a handshake succeeds where no session is cached: the server has filed a session
      -- under the id that the client got, in the payload mode that the client uses, and each side
      -- knows the other by its delegate id.
      pub get_or_establish-Agreed : HashMap.get s.sessions url ≡ none → Agreed s
      get_or_establish-Agreed fresh = agreed greeted (proposed greeted) fresh

      pub establish_session-delivered :
          (session : LdpSession) × (t : SessionManager) × (establish_session url s
            ≡ (ok session, t))
          × SameSetup (peer s.net) (peer t.net)
      establish_session-delivered = delivered greeted (proposed greeted)
