-- ===== src/Examples/Handshaking.antt =====
-- Runs between the client and the server, joined by the network of the integration tests.
use mathlib.Core.Option.{or_else}
use ldp_protocol.Common.{some, ◌≡◌, refl, none, [], true, false, ok, arith, ◌∷◌, String}
use ldp_protocol.Common.HashMap
use ldp_protocol.Externals.{Entropy}
use ldp_protocol.Types.Identity.Wire.{IsCard}
use ldp_protocol.Types.Messages.{LdpEnvelope, capability_manifest, task_update}
use ldp_protocol.Types.Payload.{text}
use ldp_protocol.Types.Provenance.{Provenance}
use ldp_protocol.Types.Session.{LdpSession, active}
use ldp_protocol.Types.Trust.{trusts}
use ldp_protocol.Config
use ldp_protocol.Client.{Http, send_message}
use ldp_protocol.Protocol.{TaskRequest, TaskHandle}
use ldp_protocol.Server.{LdpServer, echo_identity, handle_capabilities_request}
use ldp_protocol.Server.Handlers.{handle_message, requested_mode, remote_domain, requested_ttl}
use ldp_protocol.Server.Tasks.{IsOwn}
use ldp_protocol.SessionManager.{SessionManager, manifest_modes, proposal, close}
use ldp_protocol.SessionManager.Closing.{close-peer}
use ldp_protocol.SessionManager.Delivery.{Delivers}
use ldp_protocol.SessionManager.Handshake.{Agreed, get_or_establish-Agreed}
use ldp_protocol.SessionManager.Reading.{handshake_round_trip}
use ldp_protocol.Integration.{Transport, json_http}
use ldp_protocol.Integration.Discovery.{IsDiscovery, discover-identity}
use ldp_protocol.Integration.Network.{as_read, send_message-handle_message, json_http-Delivers}
use ldp_protocol.Adapter.{status_result, stream_result, receive_provenance}
use ldp_protocol.Adapter.Delegation.{status-invoke, stream_delegated}
use ldp_protocol.Adapter.Methods.{discover, LdpAdapter, invoke, status, read_stream}
use ldp_protocol.Examples.World.{contract, Json, toy, toy_json, toy_kinds, toy_ct_eq}

-- The network is that of the integration tests, with small stand-ins for what else is needed, and
-- every URL leads to the path of the messages.
abbrev via : Transport
via = record {
  parse_error = λ v. "not as expected";
  to_text = λ v. "text";
  path_of = λ url. "/ldp/messages";
}

instance abbrev served : Http
served = json_http via

abbrev server : LdpServer
server = record {
  identity = echo_identity "ldp:echo" "Echo";
  sessions = [];
  tasks = [];
  handler = λ skill input. input;
  signing_secret = some "secret";
  entropy = record { reads = 0; uuids = 0 };
}

abbrev manager : SessionManager
manager = record {
  sessions = [];
  config = record Config.default {
    trust_domain = record { name = "test-domain"; allow_cross_domain = false; trusted_peers = [] };
    signing_secret = some "secret";
  };
  net = server;
  entropy = record { reads = 0; uuids = 0 };
}

served-Delivers : Delivers "http://a" (λ s. s)
served-Delivers = json_http-Delivers toy_json toy_kinds via "http://a" refl

-- A query for a task that the server does not know, which it refuses.
abbrev asking : LdpEnvelope
asking = record {
  message_id = "m";
  session_id = "";
  from = "client";
  to = "http://a";
  body = task_update "t" none (some "status_query");
  payload_mode = text;
  timestamp = "50";
  provenance = none;
  signature = none;
  signature_algorithm = none;
  nonce = none;
}

send_message-handle_message_example :
    send_message "http://a" asking server
    ≡ (as_read via (handle_message asking server).0, (handle_message asking server).1)
send_message-handle_message_example =
    send_message-handle_message toy_json toy_kinds via "http://a" refl asking server (tt, tt)

trusted_run : trusts server.identity.trust_domain manager.config.trust_domain.name ≡ true
unfolding trusts
trusted_run = refl

uncached_run : HashMap.get manager.sessions "http://a" ≡ none
unfolding HashMap.get
uncached_run = refl

get_or_establish-Agreed_example : Agreed "http://a" (λ s. s) served-Delivers manager
get_or_establish-Agreed_example =
    get_or_establish-Agreed "http://a" (λ s. s) served-Delivers toy_json toy_ct_eq manager refl
      trusted_run uncached_run

-- The result that the server gives of a task, before it is checked against a contract.
abbrev task : TaskRequest
task = record { skill = "echo"; input = Json.number 7; contract = some contract }

abbrev adapter : LdpAdapter
adapter = record { session_manager = manager; config = manager.config; contracts = [] }

status-invoke_example :
    (handle : TaskHandle) × (p : Provenance) × (e : Entropy) × ((invoke "http://a" task adapter).0
      ≡ ok handle)
    × (handle.remote_url ≡ "http://a")
    × IsOwn server.identity p
    × ((status "http://a" handle.task_id (invoke "http://a" task adapter).1).0
        ≡ ok
            (status_result adapter.config
              (or_else (some contract) (HashMap.get adapter.contracts handle.task_id))
              (Json.number 7)
              (receive_provenance p)
              e).0)
status-invoke_example =
    status-invoke "http://a" (λ s. s) served-Delivers toy_ct_eq toy_json task adapter refl refl
      trusted_run (tt, tt)

stream_delegated_example :
    (p : Provenance) × (e : Entropy) × IsOwn server.identity p
    × ((read_stream 3 "http://a" task adapter).0
        ≡ ok (
          (stream_result adapter.config (some contract) (Json.number 7) (receive_provenance p) e).0
              ∷ [],
          true,
        ))
stream_delegated_example =
    stream_delegated "http://a" (λ s. s) served-Delivers toy_ct_eq toy_json task adapter refl refl
      trusted_run (tt, tt) 2

abbrev session : LdpSession
session = record {
  session_id = "s";
  remote_url = "http://a";
  remote_delegate_id = "ldp:echo";
  state = active;
  payload = record { mode = text; fallback_chain = [] };
  trust_domain = manager.config.trust_domain;
  created_at = 2;
  last_used = 2;
  ttl_secs = 3600;
  task_count = 0;
}

abbrev holding : SessionManager
holding = record manager { sessions = ("http://a", session) ∷ [] }

held_run : HashMap.get holding.sessions "http://a" ≡ some session
unfolding HashMap.get
held_run = refl

close-peer_example :
    (server.signing_secret ≡ none
      → (close "http://a" holding).1.net.sessions ≡ HashMap.remove server.sessions "s")
    × ((secret : String)
        → server.signing_secret ≡ some secret
        → (close "http://a" holding).1.net ≡ server)
close-peer_example = close-peer "http://a" (λ s. s) served-Delivers holding session held_run

handshake_round_trip_example :
    (manifest_modes (capability_manifest (handle_capabilities_request server))
      ≡ ok server.identity.supported_payload_modes)
    × (requested_mode (proposal manager.config text) ≡ text)
    × (remote_domain (proposal manager.config text) ≡ "test-domain")
    × (requested_ttl (proposal manager.config text) ≡ 3600)
handshake_round_trip_example =
    handshake_round_trip toy_json server manager.config text (omega arith)

-- The network whose URLs lead to the path of the identity.
abbrev to_identity : Transport
to_identity = record via { path_of = λ url. "/ldp/identity" }

abbrev exploring : LdpAdapter ⦃http = json_http to_identity⦄
exploring = record {
  session_manager = record {
    sessions = [];
    config = manager.config;
    net = server;
    entropy = record { reads = 0; uuids = 0 };
  };
  config = manager.config;
  contracts = [];
}

server-IsCard : IsCard server.identity
server-IsCard = record {
  context_window = omega arith;
  capabilities = ((tt, tt, tt), tt);
  metadata = tt;
}

discover-identity_example :
    IsDiscovery manager.config server.identity
      (discover ⦃http = json_http to_identity⦄ "http://a" exploring).0
discover-identity_example =
    discover-identity toy_json toy_kinds to_identity "http://a" refl exploring server-IsCard
