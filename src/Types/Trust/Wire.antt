-- ===== src/Types/Trust/Wire.antt =====
-- A trust domain (src/types/trust.rs) is read back from JSON as it was written.
use mathlib.Core.Option.{or_else}
use ldp_protocol.Common.{◌≡◌, refl, some}
use ldp_protocol.Externals.{Externals, JsonLaws, KindLaws}
use ldp_protocol.Json.Reading.{entry, get-json, read_texts}
use ldp_protocol.Types.Trust.{TrustDomain, to_value, from_value}

module _ ⦃ext : Externals⦄ (laws : JsonLaws) (kinds : KindLaws) where
  pub from_value-to_value : (d : TrustDomain) → from_value (to_value d) ≡ some d
  unfolding from_value to_value entry or_else
  from_value-to_value d =
      simp (get-json laws, laws.as_str-string, kinds.as_bool-bool, read_texts laws kinds) refl
