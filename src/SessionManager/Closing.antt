-- ===== src/SessionManager/Closing.antt =====
-- What closing a session (src/session_manager.rs) does at both ends of a network with the server of
-- this crate (src/server.rs).
use ldp_protocol.Common.{String, ◌≡◌, refl, ap, ◌∙◌, none, some}
use ldp_protocol.Common.HashMap
use ldp_protocol.Externals.{Externals}
use ldp_protocol.Types.Messages
use ldp_protocol.Types.Messages.{LdpEnvelope, session_close}
use ldp_protocol.Types.Session.{LdpSession}
use ldp_protocol.Client.{Http, send_message}
use ldp_protocol.Server.{LdpServer}
use ldp_protocol.Server.Frame.{handle_message_state}
use ldp_protocol.Server.Handlers.{handle_session_close, respond, dispatch, handle_message}
use ldp_protocol.SessionManager.{SessionManager, send, make_envelope, notify_close, close}
use ldp_protocol.SessionManager.Delivery.{Delivers}

module _ ⦃ext : Externals⦄ ⦃http : Http⦄ where
  -- What a server without a secret does with the message, and what one with a secret does.
  closed_unsigned :
      (e : LdpEnvelope) (s : LdpServer)
      → e.body ≡ session_close none
      → s.signing_secret ≡ none
      → (handle_message e s).1.sessions ≡ HashMap.remove s.sessions e.session_id
  unfolding dispatch handle_session_close respond
  closed_unsigned e s body k =
      ap (λ (x : LdpServer). x.sessions) (handle_message_state e s body (rw k refl))

  kept_signed :
      (e : LdpEnvelope) (s : LdpServer) (secret : String)
      → e.body ≡ session_close none
      → e.signature ≡ none
      → s.signing_secret ≡ some secret
      → (handle_message e s).1 ≡ s
  unfolding handle_message
  kept_signed e s secret body unsigned k = rw (k, unsigned, body) refl

  module _ (url : String) (peer : http.Net → LdpServer) (d : Delivers url peer) where
    -- Over a network that delivers the messages that JSON can carry to this crate's server, closing
    -- a cached session takes exactly that session from the server, if the server has no signing secret; if it has
    -- one, it stays as it was, with the session open, whatever secret the client has.
    pub close-peer :
        (s : SessionManager) (session : LdpSession)
        → HashMap.get s.sessions url ≡ some session
        → ((peer s.net).signing_secret ≡ none
            → (peer (close url s).1.net).sessions
              ≡ HashMap.remove (peer s.net).sessions session.session_id)
          × ((secret : String)
              → (peer s.net).signing_secret ≡ some secret
              → peer (close url s).1.net ≡ peer s.net)
    unfolding close notify_close make_envelope send send_message Messages.new
    close-peer s session cached =
        let e =
          (Messages.new session.session_id s.config.delegate_id session.remote_delegate_id
            (session_close none) session.payload.mode s.entropy).0 in
        rw cached (
          (λ k.
              ap (λ (x : LdpServer). x.sessions) (d.state e s.net (tt, tt))
              ∙ closed_unsigned e (peer s.net) refl k),
          (λ secret k. d.state e s.net (tt, tt) ∙ kept_signed e (peer s.net) secret refl refl k),
        )
