-- ===== src/Plugin.antt =====
-- src/plugin.rs: the entry points that make an adapter, alone or in a registry. The state of the
-- network and how often the clock and the generator of identifiers were asked come from outside.
pub mod Routing
use ldp_protocol.Common.{Option, [], ◌∷◌, unwrap_or}
use ldp_protocol.Externals.{Externals, Entropy}
use ldp_protocol.Config
use ldp_protocol.Config.{LdpAdapterConfig}
use ldp_protocol.Client.{Http}
use ldp_protocol.Protocol.{ProtocolRegistry, register}
use ldp_protocol.Adapter.Methods
use ldp_protocol.Adapter.Methods.{LdpAdapter}

module _ ⦃ext : Externals⦄ ⦃http : Http⦄ where
  -- The adapter of a configuration, the default one where none is given.
  unfoldable pub create_adapter : Option LdpAdapterConfig → http.Net → Entropy → LdpAdapter
  unfolding Methods.new
  create_adapter config = Methods.new (unwrap_or config Config.default)

  unfoldable pub register_ldp :
      ProtocolRegistry LdpAdapter
      → Option LdpAdapterConfig
      → http.Net
      → Entropy
      → ProtocolRegistry LdpAdapter
  unfolding create_adapter register
  register_ldp registry config net e =
      register registry "ldp" (create_adapter config net e) ("ldp://" ∷ [])
