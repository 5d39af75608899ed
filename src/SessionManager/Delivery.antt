-- ===== src/SessionManager/Delivery.antt =====
-- Messages of the session manager (src/session_manager.rs) over a network with the server of this
-- crate (src/server.rs) at its other end.
use ldp_protocol.Common.{String, ◌≡◌, refl, ap, List, ok}
use ldp_protocol.Externals.{Externals, CtEqLaws}
use ldp_protocol.Types.Messages
use ldp_protocol.Types.Messages.{
  LdpEnvelope, LdpMessageBody, hello, capability_manifest, session_propose, session_accept,
}
use ldp_protocol.Types.Messages.Json.Wire.{IsBody, IsMessage}
use ldp_protocol.Types.Payload.{PayloadMode}
use ldp_protocol.Signing.{sign_if_configured}
use ldp_protocol.Signing.Verify.{sign-fields}
use ldp_protocol.Client.{Http, endpoint, send_message, read_message}
use ldp_protocol.Server.{LdpServer, handle_capabilities_request}
use ldp_protocol.Server.Frame.{handle_message-ok}
use ldp_protocol.Server.Gate.{check_signature-sign}
use ldp_protocol.Server.Handlers.{check_signature, handle_message, dispatch, handle_hello, respond}
use ldp_protocol.Server.Proposals.{sign-body}
use ldp_protocol.Server.Readable.{sign-IsMessage}
use ldp_protocol.SessionManager.{SessionManager, send, make_envelope, send_signed}
use ldp_protocol.SessionManager.Keeps.{Keeps-send_signed}

module _ ⦃ext : Externals⦄ ⦃http : Http⦄ where
  -- A network that brings the messages for a URL that JSON can carry to a server, and its answers
  -- back: `peer` is the server in a state of the network.
  pub record Delivers (url : String) (peer : http.Net → LdpServer) : Type 0 where
    pub answer :
        (e : LdpEnvelope) (net : http.Net) (r : LdpEnvelope)
        → IsMessage e
        → (handle_message e (peer net)).0 ≡ ok r
        → read_message (http.post (endpoint url "/ldp/messages") e net).0 ≡ ok r
    pub state :
        (e : LdpEnvelope) (net : http.Net)
        → IsMessage e
        → peer (http.post (endpoint url "/ldp/messages") e net).1 ≡ (handle_message e (peer net)).1

  -- The greeting, and what the client makes of the answer.
  pub hello-Answers :
      (e : LdpEnvelope) (s : LdpServer) (id : String) (modes : List PayloadMode)
      → e.body ≡ hello id modes
      → check_signature s.signing_secret e ≡ ok tt
      → (r : LdpEnvelope) × ((handle_message e s).0 ≡ ok r)
        × (r.body ≡ capability_manifest (handle_capabilities_request s))
  unfolding dispatch handle_hello respond
  hello-Answers e s id modes b passed =
      (_, handle_message-ok e s b passed _ refl, sign-body s.signing_secret _)

  module _ (url : String) (peer : http.Net → LdpServer) (d : Delivers url peer) where
    -- A message of the manager that the server answers: what was sent, the answer, and the manager
    -- afterwards.
    pub record Answered (id to : String) (body : LdpMessageBody) (mode : PayloadMode)
        (s : SessionManager) : Type 0 where
      pub sent : LdpEnvelope
      pub reply : LdpEnvelope
      pub after : SessionManager
      pub sent_id : sent.session_id ≡ id
      pub sent_from : sent.from ≡ s.config.delegate_id
      pub sent_body : sent.body ≡ body
      pub passed : check_signature (peer s.net).signing_secret sent ≡ ok tt
      pub run : send_signed url id to body mode s ≡ (ok reply, after)
      pub reply_ok : (handle_message sent (peer s.net)).0 ≡ ok reply
      pub after_peer : peer after.net ≡ (handle_message sent (peer s.net)).1
      pub after_config : after.config ≡ s.config
      pub after_sessions : after.sessions ≡ s.sessions

    pub send_signed-Answered :
        (ct : CtEqLaws) (id to : String) (body : LdpMessageBody) (mode : PayloadMode)
        (s : SessionManager)
        → IsBody body
        → (peer s.net).signing_secret ≡ s.config.signing_secret
        → ((e : LdpEnvelope)
            → e.body ≡ body
            → check_signature (peer s.net).signing_secret e ≡ ok tt
            → (r : LdpEnvelope) × ((handle_message e (peer s.net)).0 ≡ ok r))
        → Answered id to body mode s
    unfolding send_signed make_envelope send send_message read_message Messages.new
    send_signed-Answered ct id to body mode s fits k answers =
        let e = (Messages.new id s.config.delegate_id to body mode s.entropy).0 in
        let sent = sign_if_configured s.config.signing_secret e in
        let (from, session_id, same) = sign-fields s.config.signing_secret e in
        let passed : check_signature (peer s.net).signing_secret sent ≡ ok tt =
          rw k (check_signature-sign ct s.config.signing_secret e) in
        let carried = sign-IsMessage s.config.signing_secret e (fits, tt) in
        let (r, made) = answers sent same passed in
        let done = send_signed url id to body mode s in
        let kept = (Keeps-send_signed url id to body mode).at s in
        record {
          sent = sent;
          reply = r;
          after = done.1;
          sent_id = session_id;
          sent_from = from;
          sent_body = same;
          passed = passed;
          run = ap (λ h. (h, done.1)) (d.answer sent s.net r carried made);
          reply_ok = made;
          after_peer = d.state sent s.net carried;
          after_config = kept.config;
          after_sessions = kept.sessions;
        }
