-- ===== src/Integration.antt =====
-- tests/ldp_integration.rs: the HTTP server that the integration tests put in front of a server of
-- this crate, and a network whose only host it is. What is read from and written to the socket is
-- taken at the level of a request's method, path and JSON value, and of a response's status and
-- JSON value.
pub mod Network
pub mod Discovery
use ldp_protocol.Common.{
  ℕ, String, Bool, Option, none, some, [], ◌∷◌, ◌==◌, ◌&&◌, if◌then◌else◌, Result, ok, err,
}
use ldp_protocol.Externals.{Externals, json}
use ldp_protocol.Types.Identity
use ldp_protocol.Types.Messages.{LdpEnvelope}
use ldp_protocol.Types.Messages.Json
use ldp_protocol.Client.{Http, HttpResult, response}
use ldp_protocol.Server.{LdpServer, handle_identity_request, handle_capabilities_request}
use ldp_protocol.Server.Handlers.{handle_message}

module _ ⦃ext : Externals⦄ where
  -- A status, as number and as text, and a JSON value.
  pub record Answer : Type 0 where
    pub status : ℕ
    pub shown : String
    pub body : ext.Value

  -- What serde, serde_json and reqwest do besides: the text of an error, the text of a value, and
  -- the path of a URL.
  pub record Transport : Type 0 where
    pub parse_error : ext.Value → String
    pub to_text : ext.Value → String
    pub path_of : String → String

  abbrev answer_200 : ext.Value → Answer
  answer_200 v = record { status = 200; shown = "200 OK"; body = v }

  abbrev failure : ℕ → String → String → Answer
  failure status shown m = record {
    status = status;
    shown = shown;
    body = json (("error", ext.string m) ∷ []);
  }

  module _ (via : Transport) where
    -- The answer of the server to a message.
    abbrev pub answer_handled : Result LdpEnvelope × LdpServer → Answer × LdpServer
    answer_handled (ok r, s) = (answer_200 (Json.to_value r), s)
    answer_handled (err m, s) = (failure 500 "500 Internal Server Error" m, s)

    -- The message of a request, as far as it is one.
    abbrev pub answer_parsed : Option LdpEnvelope → ext.Value → LdpServer → Answer × LdpServer
    answer_parsed none body s = (failure 400 "400 Bad Request" (via.parse_error body), s)
    answer_parsed (some envelope) body s = answer_handled (handle_message envelope s)

    unfoldable pub handle_connection : String → String → ext.Value → LdpServer → Answer × LdpServer
    handle_connection method path body s =
        if method == "GET" && path == "/.well-known/ldp-identity"
        then (answer_200 (handle_identity_request s), s)
        else if method == "GET" && path == "/ldp/identity"
        then (answer_200 (handle_identity_request s), s)
        else if method == "GET" && path == "/ldp/capabilities"
        then (answer_200 (handle_capabilities_request s), s)
        else if method == "POST" && path == "/ldp/messages"
        then answer_parsed (Json.from_value body) body s
        else (failure 404 "404 Not Found" "not found", s)

    -- What reqwest makes of a body, and of an answer.
    abbrev parsed : {A : Type 0} → ext.Value → Option A → Result A
    parsed body none = err (via.parse_error body)
    parsed body (some a) = ok a

    abbrev pub received : {A : Type 0} → (ext.Value → Option A) → Answer → HttpResult A
    received read answer =
        response answer.status answer.shown (some (via.to_text answer.body))
          (parsed answer.body (read answer.body))

    -- The network: every request goes to the server, as JSON, and its answer comes back as JSON.
    abbrev pub json_http : Http
    json_http = record {
      Net = LdpServer;
      post = λ url e s.
          let (answer, t) = handle_connection "POST" (via.path_of url) (Json.to_value e) s in
          (received Json.from_value answer, t);
      get_card = λ url s.
          let (answer, t) = handle_connection "GET" (via.path_of url) ext.null s in
          (received Identity.from_value answer, t);
      get_value = λ url s.
          let (answer, t) = handle_connection "GET" (via.path_of url) ext.null s in
          (received some answer, t);
    }
