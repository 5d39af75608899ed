-- ===== src/Integration/Network.antt =====
-- The network of the integration tests (tests/ldp_integration.rs) delivers the messages that JSON can
-- carry.
use ldp_protocol.Common.{String, ◌≡◌, refl, ap, ◌∙◌, Result, ok, err, [], ◌∷◌}
use ldp_protocol.Common.Text.{◌<>◌}
use ldp_protocol.Externals.{Externals, JsonLaws, KindLaws, json}
use ldp_protocol.Types.Messages.{LdpEnvelope}
use ldp_protocol.Types.Messages.Json
use ldp_protocol.Types.Messages.Json.Wire.{IsMessage, envelope_round_trip}
use ldp_protocol.Client.{endpoint, send_message, read_message}
use ldp_protocol.Server.{LdpServer}
use ldp_protocol.Server.Handlers.{handle_message}
use ldp_protocol.Server.Readable.{handle_message-IsMessage}
use ldp_protocol.SessionManager.Delivery.{Delivers}
use ldp_protocol.Integration.{
  Answer, Transport, handle_connection, received, answer_handled, json_http,
}

module _ ⦃ext : Externals⦄ (via : Transport) where
  -- What the client's `send_message` gives of what the handler gives.
  abbrev pub as_read : Result LdpEnvelope → Result LdpEnvelope
  as_read (ok r) = ok r
  as_read (err m) = err (
      "LDP request failed ("
      <> "500 Internal Server Error"
      <> "): "
      <> via.to_text (json (("error", ext.string m) ∷ [])))

  abbrev read : Answer × LdpServer → Result LdpEnvelope × LdpServer
  read (answer, t) = (read_message (received via Json.from_value answer), t)

module _ ⦃ext : Externals⦄ (laws : JsonLaws) (kinds : KindLaws) (via : Transport) (url : String)
    (path : via.path_of (endpoint url "/ldp/messages") ≡ "/ldp/messages") where
  -- A message that JSON can carry reaches the server's handler.
  post-answer_handled :
      (e : LdpEnvelope) (s : LdpServer)
      → IsMessage e
      → handle_connection via "POST"
          (via.path_of (endpoint url "/ldp/messages"))
          (Json.to_value e)
          s
        ≡ answer_handled via (handle_message e s)
  unfolding handle_connection
  post-answer_handled e s h = rw (path, envelope_round_trip laws kinds e h) refl

  read-answer_handled :
      (p : Result LdpEnvelope × LdpServer)
      → ((r : LdpEnvelope) → p.0 ≡ ok r → IsMessage r)
      → read via (answer_handled via p) ≡ (as_read via p.0, p.1)
  unfolding read_message
  read-answer_handled (ok r, t) carried =
      rw (envelope_round_trip laws kinds r (carried r refl)) refl
  read-answer_handled (err m, t) carried = refl

  -- Through the JSON of the integration tests' network, where the path of the messages' URL is the
  -- path of the messages, sending a message that JSON can carry is calling the server's handler
  -- with it: the client gets the handler's answer exactly as it was given, or, where the handler
  -- refuses, an error with the handler's text in it; and the server is in the state that the
  -- handler leaves.
  pub send_message-handle_message :
      (e : LdpEnvelope) (s : LdpServer)
      → IsMessage e
      → send_message ⦃http = json_http via⦄ url e s
        ≡ (as_read via (handle_message e s).0, (handle_message e s).1)
  unfolding send_message
  send_message-handle_message e s carried =
      ap (read via) (post-answer_handled e s carried)
      ∙ read-answer_handled (handle_message e s) (handle_message-IsMessage e s)

  pub json_http-Delivers : Delivers ⦃http = json_http via⦄ url (λ s. s)
  unfolding send_message
  json_http-Delivers = record {
    answer = λ e s r carried made.
        ap (λ p. p.0) (send_message-handle_message e s carried) ∙ ap (as_read via) made;
    state = λ e s carried. ap (λ p. p.1) (send_message-handle_message e s carried);
  }
