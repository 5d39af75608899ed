-- ===== src/Config/Defaults.antt =====
-- What a configuration (src/config.rs) that is read from JSON has where it says nothing.
use mathlib.Core.Option.{or_else}
use ldp_protocol.Common.{String, Bool, true, ◌≡◌, refl, Option, some, ◌∷◌, ◌++◌, unwrap_or}
use ldp_protocol.Externals.{Externals, JsonLaws, KindLaws, json, skip_none}
use ldp_protocol.Json.Reading.{entry, get-json, read_or-map, field_rules, read_text}
use ldp_protocol.Types.Trust
use ldp_protocol.Types.Trust.{TrustDomain}
use ldp_protocol.Config
use ldp_protocol.Config.{LdpAdapterConfig, from_value}

module _ ⦃ext : Externals⦄ where
  -- A configuration file with an id, and a domain, the two switches and a secret where they are
  -- given.
  abbrev pub file :
      String → Option TrustDomain → Option Bool → Option Bool → Option String → ext.Value
  file delegate_id domain enforce attach secret = json (
      (("delegate_id", ext.string delegate_id) ∷ skip_none "trust_domain" Trust.to_value domain)
      ++ (skip_none "enforce_trust_domains" ext.bool enforce
          ++ (skip_none "attach_provenance" ext.bool attach
              ++ skip_none "signing_secret" ext.string secret)))

  module _ (laws : JsonLaws) (kinds : KindLaws) where
    -- A configuration file that gives an id, and a trust domain, the two switches and a signing secret
    -- or not, is read as the default configuration with what it gives: trust domains are enforced and
    -- provenance is attached unless the file says otherwise.
    pub from_value-file :
        (delegate_id : String) (domain : Option TrustDomain) (enforce attach : Option Bool)
        (secret : Option String)
        → from_value (file delegate_id domain enforce attach secret)
          ≡ some (record Config.default {
            delegate_id = delegate_id;
            trust_domain = unwrap_or domain Trust.default;
            enforce_trust_domains = unwrap_or enforce true;
            attach_provenance = unwrap_or attach true;
            signing_secret = secret;
          })
    unfolding from_value entry or_else
    from_value-file delegate_id domain enforce attach secret =
        simp
          (
            get-json laws,
            field_rules,
            laws.as_str-string,
            read_or-map Trust.to_value Trust.from_value (Trust.Wire.from_value-to_value laws kinds),
            read_or-map ext.bool ext.as_bool kinds.as_bool-bool,
            read_text laws kinds,
          )
          refl
