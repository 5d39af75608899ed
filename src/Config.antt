-- ===== src/Config.antt =====
-- src/config.rs: the configuration of the adapter.
pub mod Defaults
use ldp_protocol.Common.{some, String, Bool, true, Option, none}
use ldp_protocol.Externals.{Externals}
use ldp_protocol.Json.{required, optional, defaulted, ◌>>=◌}
use ldp_protocol.Types.Session
use ldp_protocol.Types.Session.{SessionConfig}
use ldp_protocol.Types.Trust
use ldp_protocol.Types.Trust.{TrustDomain}

pub record LdpAdapterConfig : Type 0 where
  pub delegate_id : String
  pub trust_domain : TrustDomain
  pub session : SessionConfig
  pub enforce_trust_domains : Bool
  pub attach_provenance : Bool
  pub signing_secret : Option String

-- LdpAdapterConfig::default
abbrev pub default : LdpAdapterConfig
default = record {
  delegate_id = "ldp:delegate:local";
  trust_domain = Trust.default;
  session = Session.default;
  enforce_trust_domains = true;
  attach_provenance = true;
  signing_secret = none;
}

-- The default of the two switches.
abbrev pub default_true : Bool
default_true = true

module _ ⦃ext : Externals⦄ where
  -- The derived Deserialize.
  unfoldable pub from_value : ext.Value → Option LdpAdapterConfig
  from_value v = do
    delegate_id ← required ext.as_str "delegate_id" v
    trust_domain ← defaulted Trust.from_value Trust.default "trust_domain" v
    session ← defaulted Session.config_from_value Session.default "session" v
    enforce_trust_domains ← defaulted ext.as_bool default_true "enforce_trust_domains" v
    attach_provenance ← defaulted ext.as_bool default_true "attach_provenance" v
    signing_secret ← optional ext.as_str "signing_secret" v
    some (record {
      delegate_id = delegate_id;
      trust_domain = trust_domain;
      session = session;
      enforce_trust_domains = enforce_trust_domains;
      attach_provenance = attach_provenance;
      signing_secret = signing_secret;
    })
