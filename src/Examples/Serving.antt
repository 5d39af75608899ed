-- ===== src/Examples/Serving.antt =====
-- Runs of the server (src/server.rs) on concrete messages.
use ldp_protocol.Common.{String, ◌≡◌, refl, ◌⊎◌, inr, true, false, none, some, [], ◌∷◌, ok, err}
use ldp_protocol.Common.Text.{to_string}
use ldp_protocol.Externals.{get}
use ldp_protocol.Types.Error.{runtime}
use ldp_protocol.Types.Messages.{
  LdpEnvelope, LdpMessageBody, hello, session_propose, session_close, task_submit, task_update,
  task_cancel, task_failed,
}
use ldp_protocol.Types.Payload.{text}
use ldp_protocol.Types.Trust.{trusts}
use ldp_protocol.Signing.{
  signing_input, sign_envelope, verify_envelope, apply_signature, sign_if_configured,
}
use ldp_protocol.Server.{LdpServer, completed, echo_identity}
use ldp_protocol.Server.Cancellation.{status_after_cancel}
use ldp_protocol.Server.Gate.{handle_message-eq-err, handle_message_signed, handle_message_gate}
use ldp_protocol.Server.Handlers.{
  remote_domain, is_hello, dispatch, handle_message, handle_session_close, respond,
}
use ldp_protocol.Server.Proposals.{IsPolicyReject, propose_untrusted}
use ldp_protocol.Server.Refines.{converse-receive_all}
use ldp_protocol.Server.Sessions.{IsValid, serve-IsValid}
use ldp_protocol.Server.Tasks.{serve, ResultOf, status_after_submit}
use ldp_protocol.Server.View.{Reply, view, setup, receive, receive_all, react, converse}
use ldp_protocol.Examples.World.{Json, toy, toy_ct_eq}

abbrev pub server : LdpServer
server = record {
  identity = echo_identity "ldp:echo" "Echo";
  sessions = [];
  tasks = [];
  handler = λ skill input. input;
  signing_secret = none;
  entropy = record { reads = 0; uuids = 0 };
}

abbrev locked : LdpServer
locked = record server { signing_secret = some "secret" }

abbrev pub message : LdpMessageBody → LdpEnvelope
message body = record {
  message_id = "m";
  session_id = "s";
  from = "client";
  to = "ldp:echo";
  body = body;
  payload_mode = text;
  timestamp = "50";
  provenance = none;
  signature = none;
  signature_algorithm = none;
  nonce = none;
}

abbrev greeting : LdpEnvelope
greeting = message (hello "client" (text ∷ []))

abbrev pub submission : LdpEnvelope
submission = message (task_submit "t" "echo" (Json.number 7) none)

abbrev query : LdpEnvelope
query = message (task_update "t" none none)

abbrev pub cancellation : LdpEnvelope
cancellation = message (task_cancel "t")

-- The configuration of a proposal from a domain.
abbrev proposed : String → Json
proposed domain = Json.field "trust_domain" (Json.string domain) Json.empty

abbrev pub closing : LdpEnvelope
closing = apply_signature (message (session_close none)) "secret"

-- What the locked server answers to it.
abbrev closed : LdpEnvelope
closed = record {
  message_id = "id-0";
  session_id = "s";
  from = "ldp:echo";
  to = "client";
  body = session_close (some "acknowledged");
  payload_mode = text;
  timestamp = "2";
  provenance = none;
  signature = none;
  signature_algorithm = none;
  nonce = none;
}

closed_run : (handle_message closing locked).0 ≡ ok (apply_signature closed "secret")
unfolding handle_message dispatch handle_session_close respond sign_if_configured apply_signature
    verify_envelope sign_envelope signing_input to_string
closed_run = refl

handle_message_gate_example :
    (closing.signature ≡ some (sign_envelope closing "secret"))
    ⊎ (closing.signature ≡ none) × (is_hello closing.body ≡ true)
handle_message_gate_example =
    handle_message_gate toy_ct_eq closing locked "secret" refl
      (inr (apply_signature closed "secret", closed_run))

handle_message_signed_example :
    (apply_signature closed "secret").signature
    ≡ some (sign_envelope (apply_signature closed "secret") "secret")
handle_message_signed_example =
    handle_message_signed closing locked (apply_signature closed "secret") "secret" refl closed_run

refused_run :
    (handle_message submission locked).0 ≡ err "Message signature required but not provided"
unfolding handle_message
refused_run = refl

handle_message-eq-err_example : (handle_message submission locked).1 ≡ locked
handle_message-eq-err_example =
    handle_message-eq-err submission locked "Message signature required but not provided"
      refused_run

status_after_submit_example :
    let s₁ = (handle_message submission server).1 in
    (r : LdpEnvelope) × (a : LdpEnvelope) × ((handle_message submission server).0 ≡ ok r)
    × ((handle_message query (serve s₁ (greeting ∷ []))).0 ≡ ok a)
    × ResultOf server.identity "t" (Json.number 7) r.body
    × ResultOf server.identity "t" (Json.number 7) a.body
status_after_submit_example =
    status_after_submit submission query server (greeting ∷ []) "t" "echo" (Json.number 7) none none
      none refl refl refl refl (tt, tt)

-- The server after the submission, but for its clock.
abbrev busy : LdpServer
busy = record server {
  tasks =
      (
        "t",
        record {
          task_id = "t";
          skill = "echo";
          state = completed;
          output = some (Json.number 7);
          error = none;
        },
      )
      ∷ [];
}

status_after_cancel_example :
    let s₁ = (handle_message cancellation busy).1 in
    (r : LdpEnvelope) × ((handle_message cancellation busy).0 ≡ ok r)
    × (r.body ≡ task_failed "t" (runtime "CANCELLED" "Task cancelled by client"))
    × (handle_message query (serve s₁ (greeting ∷ []))
        ≡ (err "Unknown task: t", serve s₁ (greeting ∷ [])))
status_after_cancel_example =
    status_after_cancel cancellation query busy (greeting ∷ []) "t" none none refl refl refl refl
      (tt, tt)

server-IsValid : IsValid server
server-IsValid = record { sessions = tt; tasks = tt }

serve-IsValid_example : IsValid (serve server (submission ∷ greeting ∷ []))
serve-IsValid_example = serve-IsValid server (submission ∷ greeting ∷ []) server-IsValid

untrusted_run : trusts server.identity.trust_domain (remote_domain (proposed "other")) ≡ false
unfolding trusts get
untrusted_run = refl

propose_untrusted_example :
    let e = message (session_propose (proposed "other")) in
    (r : LdpEnvelope) × ((handle_message e server).0 ≡ ok r)
    × IsPolicyReject r.body
    × ((handle_message e server).1.sessions ≡ server.sessions)
    × ((handle_message e server).1.tasks ≡ server.tasks)
propose_untrusted_example =
    propose_untrusted (message (session_propose (proposed "other"))) server (proposed "other") refl
      refl untrusted_run

converse-receive_all_example :
    let es = submission ∷ query ∷ cancellation ∷ query ∷ [] in
    ((converse server es).0 ≡ (receive_all (setup server) es (view server)).0)
    × (view (converse server es).1 ≡ (receive_all (setup server) es (view server)).1)
converse-receive_all_example =
    converse-receive_all toy_ct_eq server (submission ∷ query ∷ cancellation ∷ query ∷ [])
      server-IsValid

replies_run :
    (receive_all (setup server) (submission ∷ query ∷ cancellation ∷ query ∷ []) (view server)).0
    ≡ Reply.result "t" (Json.number 7)
      ∷ Reply.result "t" (Json.number 7)
      ∷ Reply.failed "t"
      ∷ Reply.refused
      ∷ []
unfolding receive_all receive react setup view
replies_run = refl
