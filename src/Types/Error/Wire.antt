-- ===== src/Types/Error/Wire.antt =====
-- A typed failure (src/types/error.rs) is read back from JSON as it was written, but for a partial
-- output that is null.
use mathlib.Core.Option.{or_else}
use ldp_protocol.Common.{◌≡◌, refl, Option, none, some, option_map}
use ldp_protocol.Externals.{Externals, JsonLaws, KindLaws}
use ldp_protocol.Json.{as_value, as_is, read_option}
use ldp_protocol.Json.Reading.{IsFull, entry, field_rules, get-json, read_option-map, ReadsAny}
use ldp_protocol.Types.Error.{
  FailureCategory, identity_failure, capability_failure, policy_failure, runtime_failure,
  quality_failure, session_failure, transport_failure, security_failure, category_name,
  parse_category, ErrorSeverity, warning, error, fatal, severity_name, parse_severity, LdpError,
  to_value, from_value,
}

parse_category-category_name : (c : FailureCategory) → parse_category (category_name c) ≡ some c
parse_category-category_name identity_failure = refl
parse_category-category_name capability_failure = refl
parse_category-category_name policy_failure = refl
parse_category-category_name runtime_failure = refl
parse_category-category_name quality_failure = refl
parse_category-category_name session_failure = refl
parse_category-category_name transport_failure = refl
parse_category-category_name security_failure = refl

parse_severity-severity_name : (s : ErrorSeverity) → parse_severity (severity_name s) ≡ some s
parse_severity-severity_name warning = refl
parse_severity-severity_name error = refl
parse_severity-severity_name fatal = refl

module _ ⦃ext : Externals⦄ where
  module _ (laws : JsonLaws) (kinds : KindLaws) where
    pub read_value :
        (o : Option ext.Value) → IsFull o → read_option as_value (option_map as_is o) ≡ some o
    read_value o h = read_option-map as_is as_value o (go o h)
      where
        go : (q : Option ext.Value) → IsFull q → ReadsAny as_is as_value q
        go none h = tt
        go (some v) h = (h, refl)

    pub from_value-to_value :
        (e : LdpError) → IsFull e.partial_output → from_value (to_value e) ≡ some e
    unfolding from_value to_value entry or_else
    from_value-to_value e full =
        simp
          (
            get-json laws,
            field_rules,
            laws.as_str-string,
            kinds.as_bool-bool,
            parse_category-category_name,
            parse_severity-severity_name,
            read_value e.partial_output full,
          )
          refl
