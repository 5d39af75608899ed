-- ===== src/Plugin/Routing.antt =====
-- Where the registry (src/protocol.rs) sends URLs after register_ldp (src/plugin.rs).
use mathlib.Core.Option.{or_else}
use text.Mathlib.Text.{starts_with}
use ldp_protocol.Common.{
  String, Bool, true, false, Option, none, some, [], ◌∷◌, ◌≡◌, refl, sym, any, ◌||◌, ◌==◌,
  if◌then◌else◌, unwrap_or,
}
use ldp_protocol.Externals.{Externals, Entropy}
use ldp_protocol.Config
use ldp_protocol.Config.{LdpAdapterConfig}
use ldp_protocol.Client.{Http}
use ldp_protocol.Protocol.{ProtocolRegistry, adapter, adapter_for_url}
use ldp_protocol.Protocol.Registry.{adapter-register}
use ldp_protocol.SessionManager
use ldp_protocol.Adapter.Methods
use ldp_protocol.Adapter.Methods.{LdpAdapter, with_client}
use ldp_protocol.Plugin.{create_adapter, register_ldp}

or_false : (b : Bool) → (b || false) ≡ b
or_false true = refl
or_false false = refl

module _ ⦃ext : Externals⦄ ⦃http : Http⦄ where
  -- After register_ldp, the name "ldp" leads to what an earlier registration has under it, and a
  -- URL that starts with "ldp://" to the earlier registration that has any prefix of it, however
  -- short; without one, both lead to an adapter with an empty cache of sessions and no contracts,
  -- of the configuration that is given, or the default one. All other names and URLs lead where
  -- they led before.
  pub adapter-register_ldp :
      (registry : ProtocolRegistry LdpAdapter) (config : Option LdpAdapterConfig) (net : http.Net)
      (e : Entropy) (asked : String)
      → let after = register_ldp registry config net e in
        let made : LdpAdapter = record {
          session_manager = record {
            sessions = [];
            config = unwrap_or config Config.default;
            net = net;
            entropy = e;
          };
          config = unwrap_or config Config.default;
          contracts = [];
        } in
        (adapter after asked
          ≡ or_else (adapter registry asked) (if "ldp" == asked then some made else none))
        × (adapter_for_url after asked
            ≡ or_else
                (adapter_for_url registry asked)
                (if starts_with asked "ldp://" then some made else none))
  unfolding register_ldp create_adapter Methods.new with_client SessionManager.new any
  adapter-register_ldp registry config net e asked =
      let (name, url) =
        adapter-register registry "ldp" (create_adapter config net e) ("ldp://" ∷ []) asked in
      (name, rw (sym (or_false (starts_with asked "ldp://"))) url)
