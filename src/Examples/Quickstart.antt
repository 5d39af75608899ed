-- ===== src/Examples/Quickstart.antt =====
-- examples/rust_quickstart.rs: the program that shows how to make an adapter and register it, as the
-- lines that it prints.
use ldp_protocol.Common.{
  String, Bool, true, false, Option, none, some, List, [], ◌∷◌, ◌≡◌, refl, map,
}
use ldp_protocol.Common.Text.{◌<>◌, join}
use ldp_protocol.Externals.{Entropy}
use ldp_protocol.Types.Messages.{LdpEnvelope}
use ldp_protocol.Types.Payload.{PayloadMode, text, semantic_frame, embedding_hints, semantic_graph}
use ldp_protocol.Types.Trust
use ldp_protocol.Config.{LdpAdapterConfig}
use ldp_protocol.Protocol.{adapter_for_url, protocols}
use ldp_protocol.Plugin.{register_ldp}
use ldp_protocol.Examples.World.{toy, toy_http}

-- `{:?}` of a mode, of a list, and of a text; `{}` of a Boolean; and `is_some`.
abbrev debug_mode : PayloadMode → String
debug_mode text = "Text"
debug_mode semantic_frame = "SemanticFrame"
debug_mode embedding_hints = "EmbeddingHints"
debug_mode semantic_graph = "SemanticGraph"

abbrev debug_list : List String → String
debug_list items = "[" <> join ", " items <> "]"

abbrev debug_text : String → String
debug_text s = "\"" <> s <> "\""

abbrev display_bool : Bool → String
display_bool true = "true"
display_bool false = "false"

abbrev is_some {ℓ} : {A : Type ℓ} → Option A → Bool
is_some none = false
is_some (some a) = true

abbrev quickstart_config : LdpAdapterConfig
quickstart_config = record {
  delegate_id = "ldp:delegate:my-orchestrator";
  trust_domain = Trust.default;
  session = record {
    preferred_payload_modes = semantic_frame ∷ text ∷ [];
    ttl_secs = 3600;
    required_trust_domain = none;
  };
  enforce_trust_domains = false;
  attach_provenance = true;
  signing_secret = none;
}

-- `main`, over the instances of the examples for the crates that it uses.
abbrev main : List LdpEnvelope → Entropy → List String
main net e =
    let config = quickstart_config in
    let registry = register_ldp [] (some config) net e in
    "=== LDP Quick Start ===\n"
    ∷ ("Config: delegate_id=" <> config.delegate_id)
    ∷ ("  payload modes: " <> debug_list (map debug_mode config.session.preferred_payload_modes))
    ∷ ("  trust enforcement: " <> display_bool config.enforce_trust_domains)
    ∷ ("  attach provenance: " <> display_bool config.attach_provenance)
    ∷ ("\nRegistered protocols: " <> debug_list (map debug_text (protocols registry)))
    ∷ ("  ldp:// adapter: "
        <> display_bool (is_some (adapter_for_url registry "ldp://localhost:8090")))
    ∷ "\nUse the adapter via the registry:"
    ∷ "  registry.adapter_for_url(\"ldp://...\").unwrap().discover(url).await"
    ∷ "  registry.adapter_for_url(\"ldp://...\").unwrap().invoke(url, task).await"
    ∷ "\n=== Done ==="
    ∷ []

-- The program finds the adapter that it registered.
main_run :
    main [] (record { reads = 0; uuids = 0 })
    ≡ "=== LDP Quick Start ===\n" ∷ "Config: delegate_id=ldp:delegate:my-orchestrator"
      ∷ "  payload modes: [SemanticFrame, Text]" ∷ "  trust enforcement: false"
      ∷ "  attach provenance: true" ∷ "\nRegistered protocols: [\"ldp\"]" ∷ "  ldp:// adapter: true"
      ∷ "\nUse the adapter via the registry:"
      ∷ "  registry.adapter_for_url(\"ldp://...\").unwrap().discover(url).await"
      ∷ "  registry.adapter_for_url(\"ldp://...\").unwrap().invoke(url, task).await"
      ∷ "\n=== Done ===" ∷ []
unfolding register_ldp protocols adapter_for_url join
main_run = refl
