-- ===== src/Examples/UnitTests/Integration.antt =====
-- The tests of tests/ldp_integration.rs that submit a task to an echo server and ask for its status,
-- signed or not, over the network that they use: test_invoke_returns_handle, test_invoke_and_status,
-- test_provenance_present_in_output, test_signed_messages, test_signed_invoke_has_provenance,
-- test_no_contract_backward_compatible and test_result_has_verification_status.
use mathlib.Core.Option.{or_else}
use ldp_protocol.Common.{arith, String, ◌≡◌, refl, ◌∙◌, false, Option, none, some, [], ok}
use ldp_protocol.Common.HashMap
use ldp_protocol.Externals.{Externals, Entropy, JsonLaws, KindLaws, CtEqLaws, get}
use ldp_protocol.Types.Provenance
use ldp_protocol.Types.Provenance.{Provenance, normalize}
use ldp_protocol.Types.Trust.{trusts}
use ldp_protocol.Config
use ldp_protocol.Config.{LdpAdapterConfig}
use ldp_protocol.Client.{Http, endpoint}
use ldp_protocol.Protocol.{TaskRequest, TaskHandle, TaskStatus}
use ldp_protocol.Server.{LdpServer, echo_server}
use ldp_protocol.SessionManager
use ldp_protocol.Integration.{Transport, json_http}
use ldp_protocol.Integration.Network.{json_http-Delivers}
use ldp_protocol.Adapter.{status_result, embed_provenance, receive_provenance}
use ldp_protocol.Adapter.Delegation.{status-invoke}
use ldp_protocol.Adapter.Embedding.{embed_provenance_lem}
use ldp_protocol.Adapter.Methods
use ldp_protocol.Adapter.Methods.{LdpAdapter, invoke, status}

module _ ⦃ext : Externals⦄ where
  -- What the adapter adds to the provenance of a result leaves its producer as it is.
  received :
      (p : Provenance)
      → ((receive_provenance p).produced_by ≡ p.produced_by)
        × ((receive_provenance p).model_version ≡ p.model_version)
  unfolding receive_provenance normalize
  received p = ground arith

module _ ⦃ext : Externals⦄ (laws : JsonLaws) (kinds : KindLaws) (ct : CtEqLaws) (via : Transport)
    (url : String) (path : via.path_of (endpoint url "/ldp/messages") ≡ "/ldp/messages")
    (secret : Option String) (begun : Entropy) where
  abbrev network : Http
  network = json_http via

  abbrev server : LdpServer
  server = record (echo_server "ldp:delegate:echo" "Echo Server" begun) { signing_secret = secret }

  abbrev config : LdpAdapterConfig
  config = record Config.default {
    trust_domain = record { name = "test-domain"; allow_cross_domain = false; trusted_peers = [] };
    signing_secret = secret;
  }

  abbrev test_adapter : LdpAdapter ⦃http = network⦄
  test_adapter = Methods.new ⦃http = network⦄ config server begun

  abbrev task : ext.Value → TaskRequest
  task input = record { skill = "echo"; input = input; contract = none }

  -- A handle comes back; the status is completed, and its output has the server's provenance.
  test_invoke_and_status :
      (input : ext.Value)
      → (handle : TaskHandle) × (output : ext.Value) × (p : Provenance) × ((invoke ⦃http = network⦄
            url
            (task input)
            test_adapter).0
          ≡ ok handle)
        × (handle.remote_url ≡ url)
        × ((status ⦃http = network⦄ url handle.task_id
              (invoke ⦃http = network⦄ url (task input) test_adapter).1).0
            ≡ ok (TaskStatus.completed output))
        × (get output "ldp_provenance" ≡ some (Provenance.to_value p))
        × (p.produced_by ≡ "ldp:delegate:echo")
        × (p.model_version ≡ "1.0")
  unfolding Methods.new SessionManager.new echo_server trusts status_result or_else HashMap.get
  test_invoke_and_status input =
      let (handle, p, e, submitted, there, own, done) =
        status-invoke ⦃http = network⦄ url (λ s. s) (json_http-Delivers laws kinds via url path) ct
          laws (task input) test_adapter refl refl refl tt in
      let q = receive_provenance p in
      let embedded = embed_provenance_lem laws config (server.handler "echo" input) q in
      (
        handle,
        embed_provenance config (server.handler "echo" input) q,
        q,
        submitted,
        there,
        done,
        (embedded.1 refl).0,
        (received p).0 ∙ own.0,
        (received p).1 ∙ own.1,
      )
