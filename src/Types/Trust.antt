-- ===== src/Types/Trust.antt =====
-- src/types/trust.rs: trust domains.
pub mod Policy
pub mod Wire
use ldp_protocol.Common.{
  String, Bool, false, true, ◌&&◌, List, [], ◌∷◌, Option, none, some, any, ◌==◌, if◌then◌else◌,
}
use ldp_protocol.Externals.{Externals, json, strings}
use ldp_protocol.Json.{required, defaulted, list_of, ◌>>=◌}

pub record TrustDomain : Type 0 where
  pub name : String
  pub allow_cross_domain : Bool
  pub trusted_peers : List String

-- TrustDomain::new: `none` where the assertion panics, on an empty name.
unfoldable pub new : String → Option TrustDomain
new name =
    if name == ""
    then none
    else some (record { name = name; allow_cross_domain = false; trusted_peers = [] })

-- TrustDomain::default
abbrev pub default : TrustDomain
default = record { name = "default"; allow_cross_domain = false; trusted_peers = [] }

-- Vec<String>::contains
unfoldable pub contains : List String → String → Bool
unfolding any
contains peers peer = any (λ p. p == peer) peers

unfoldable pub trusts : TrustDomain → String → Bool
trusts d peer =
    if d.name == peer then true else d.allow_cross_domain && contains d.trusted_peers peer

unfoldable pub mutually_trusts : TrustDomain → TrustDomain → Bool
mutually_trusts d peer = trusts d peer.name && trusts peer d.name

module _ ⦃ext : Externals⦄ where
  -- The derived Serialize.
  unfoldable pub to_value : TrustDomain → ext.Value
  to_value d = json (
      ("name", ext.string d.name)
      ∷ ("allow_cross_domain", ext.bool d.allow_cross_domain)
      ∷ ("trusted_peers", strings d.trusted_peers)
      ∷ [])

  -- The derived Deserialize, which does not go through `new`.
  unfoldable pub from_value : ext.Value → Option TrustDomain
  from_value v = do
    name ← required ext.as_str "name" v
    allow_cross_domain ← required ext.as_bool "allow_cross_domain" v
    trusted_peers ← defaulted (list_of ext.as_str) [] "trusted_peers" v
    some (record {
      name = name;
      allow_cross_domain = allow_cross_domain;
      trusted_peers = trusted_peers;
    })
