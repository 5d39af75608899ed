-- ===== src/Examples/Calling.antt =====
-- Runs of the session manager (src/session_manager.rs) against scripted answers.
use ldp_protocol.Common.{◌↔◌, false, ◌≡◌, refl, none, some, List, [], ◌∷◌, true, ok, err}
use ldp_protocol.Common.HashMap
use ldp_protocol.Common.HashMap.{HashMap}
use ldp_protocol.Common.Int.{as_i64}
use ldp_protocol.Common.Text.{to_string}
use ldp_protocol.Externals.{get}
use ldp_protocol.Types.Identity.{LdpIdentityCard}
use ldp_protocol.Types.Messages.{
  LdpEnvelope, LdpMessageBody, capability_manifest, session_accept, session_reject, task_cancel,
  task_update,
}
use ldp_protocol.Types.Payload.{text, negotiate_payload_mode}
use ldp_protocol.Types.Session.{LdpSession, active, is_active, is_fresh}
use ldp_protocol.Config
use ldp_protocol.Client.{send_message, read_message, fetch_identity_card, read_get, endpoint}
use ldp_protocol.Client.Requests.{IsGood, send_message_iff}
use ldp_protocol.Protocol.{RemoteCapabilities, TaskRequest, TaskHandle}
use ldp_protocol.Server.{echo_identity}
use ldp_protocol.SessionManager.{
  SessionManager, send, send_signed, make_envelope, establish_session, conclude, open_session,
  fresh_id, establish_and_cache, get_or_establish,
}
use ldp_protocol.SessionManager.Cache.{Cached, get_or_establish-Cached, get_or_establish-eq-err}
use ldp_protocol.Adapter.{identity_to_capabilities}
use ldp_protocol.Adapter.Discovery.{IsDiscovered, discover_iff}
use ldp_protocol.Adapter.Methods
use ldp_protocol.Adapter.Methods.{
  LdpAdapter, discover, fetch_card, invoke, stream, finish_invoke, poll, poll_rounds, query,
}
use ldp_protocol.Adapter.Streams.{IsRun, stream-IsRun}
use ldp_protocol.Adapter.Submission.{Submitted, invoke-Submitted}
use ldp_protocol.Examples.World.{contract, Json, toy, toy_http}

abbrev pub answer : LdpMessageBody → LdpEnvelope
answer body = record {
  message_id = "m";
  session_id = "s";
  from = "ldp:echo";
  to = "client";
  body = body;
  payload_mode = text;
  timestamp = "50";
  provenance = none;
  signature = none;
  signature_algorithm = none;
  nonce = none;
}

abbrev pub manifest : LdpEnvelope
manifest = answer (capability_manifest Json.empty)

abbrev pub manager : List LdpEnvelope → HashMap LdpSession → SessionManager
manager net sessions = record {
  sessions = sessions;
  config = Config.default;
  net = net;
  entropy = record { reads = 0; uuids = 0 };
}

abbrev pub accepting : SessionManager
accepting = manager (manifest ∷ answer (session_accept "s" text) ∷ []) []

-- What the handshake makes of the acceptance.
abbrev made : LdpSession
made = record {
  session_id = "s";
  remote_url = "http://a";
  remote_delegate_id = "ldp:echo";
  state = active;
  payload = record { mode = text; fallback_chain = [] };
  trust_domain = Config.default.trust_domain;
  created_at = 4;
  last_used = 4;
  ttl_secs = 3600;
  task_count = 0;
}

made_run : (get_or_establish "http://a" accepting).0 ≡ ok made
unfolding get_or_establish establish_and_cache establish_session send_signed make_envelope send
    send_message read_message fresh_id conclude open_session get negotiate_payload_mode HashMap.get
made_run = refl

get_or_establish-Cached_example :
    Cached "http://a" accepting (get_or_establish "http://a" accepting).1 made
get_or_establish-Cached_example = get_or_establish-Cached "http://a" accepting made made_run

abbrev rejecting : SessionManager
rejecting = manager (manifest ∷ answer (session_reject "busy" none) ∷ []) []

rejected_run : (get_or_establish "http://a" rejecting).0 ≡ err "Session rejected by remote: busy"
unfolding get_or_establish establish_and_cache establish_session send_signed make_envelope send
    send_message read_message fresh_id conclude get negotiate_payload_mode HashMap.get
rejected_run = refl

get_or_establish-eq-err_example : (get_or_establish "http://a" rejecting).1.sessions ≡ []
get_or_establish-eq-err_example =
    get_or_establish-eq-err "http://a" rejecting "Session rejected by remote: busy" rejected_run

abbrev holding : SessionManager
holding = manager [] (("http://a", made) ∷ [])

cached_run : HashMap.get holding.sessions "http://a" ≡ some made
unfolding HashMap.get
cached_run = refl

alive_run : (is_active made holding.entropy).0 ≡ true
unfolding is_active is_fresh as_i64
alive_run = refl

-- An adapter that holds a session, over some answers.
abbrev adapter : List LdpEnvelope → LdpAdapter
adapter net = record {
  session_manager = manager net (("http://a", made) ∷ []);
  config = record Config.default { enforce_trust_domains = false };
  contracts = [];
}

abbrev caps : RemoteCapabilities
caps = identity_to_capabilities (echo_identity "ldp:echo" "Echo")

discover_iff_example :
    ((discover "http://a" (adapter [])).0 ≡ ok caps)
    ↔ IsDiscovered (adapter []) (fetch_identity_card "http://a" []).0 caps
discover_iff_example = discover_iff "http://a" (adapter []) caps

discover_run : (discover "http://a" (adapter [])).0 ≡ ok caps
unfolding discover fetch_card fetch_identity_card read_get
discover_run = refl

abbrev task : TaskRequest
task = record { skill = "echo"; input = Json.number 7; contract = some contract }

abbrev handle : TaskHandle
handle = record { task_id = "id-0"; remote_url = "http://a" }

abbrev submitting : LdpAdapter
submitting = adapter (answer (task_cancel "ack") ∷ [])

handle_run : (invoke "http://a" task submitting).0 ≡ ok handle
unfolding invoke Methods.send_signed finish_invoke get_or_establish HashMap.get is_active is_fresh
    as_i64 fresh_id send send_message read_message to_string
handle_run = refl

invoke-Submitted_example :
    Submitted "http://a" (some contract) handle (invoke "http://a" task submitting).1
invoke-Submitted_example = invoke-Submitted "http://a" task submitting handle handle_run

-- The remote side tells that the task is in progress, and then cannot be read any more.
abbrev polling : LdpAdapter
polling = adapter (answer (task_update "id-0" none (some "half")) ∷ [])

-- A stream of the task that the adapter submits.
streamed_run :
    (stream "http://a" task submitting).0
    ≡ ok (λ fuel. poll_rounds fuel "http://a" "id-0" task.contract)
unfolding stream invoke Methods.send_signed finish_invoke get_or_establish HashMap.get is_active
    is_fresh as_i64 fresh_id send send_message read_message to_string
streamed_run = refl

stream-IsRun_example :
    IsRun
      (poll_rounds 9 "http://a" "id-0" task.contract polling).0
      (poll_rounds 9 "http://a" "id-0" task.contract polling).1
stream-IsRun_example =
    stream-IsRun "http://a" task submitting
      (λ fuel. poll_rounds fuel "http://a" "id-0" task.contract) 9 polling streamed_run

send_message_iff_example :
    ((r : LdpEnvelope)
      → ((send_message "http://a/" manifest (manifest ∷ [])).0 ≡ ok r)
        ↔ IsGood
            (toy_http.post (endpoint "http://a/" "/ldp/messages") manifest (manifest ∷ [])).0
            r)
    × ((card : LdpIdentityCard)
        → ((fetch_identity_card "http://a/" (manifest ∷ [])).0 ≡ ok card)
          ↔ IsGood
              (toy_http.get_card (endpoint "http://a/" "/ldp/identity") (manifest ∷ [])).0
              card)
    × ((send_message "http://a/" manifest (manifest ∷ [])).1
        ≡ (toy_http.post (endpoint "http://a/" "/ldp/messages") manifest (manifest ∷ [])).1)
    × ((fetch_identity_card "http://a/" (manifest ∷ [])).1
        ≡ (toy_http.get_card (endpoint "http://a/" "/ldp/identity") (manifest ∷ [])).1)
send_message_iff_example = send_message_iff "http://a/" manifest (manifest ∷ [])
