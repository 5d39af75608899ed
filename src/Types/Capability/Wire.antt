-- ===== src/Types/Capability/Wire.antt =====
-- Capabilities (src/types/capability.rs) are read back from JSON as they were written.
use mathlib.Core.Option.{or_else}
use ldp_protocol.Common.{◌≡◌, refl, Option, none, some}
use ldp_protocol.Externals.{Externals, JsonLaws, KindLaws, json, nullable}
use ldp_protocol.Json.{read_option, as_value, as_is}
use ldp_protocol.Json.Reading.{
  entry, get-json, field_rules, read_option-nullable, ReadsAny, read_text_nullable, read_texts,
  read_number_nullable, read_float_nullable, AreWords, AreFinite, IsFull,
}
use ldp_protocol.Types.Capability.{
  ClaimType, self_claimed, issuer_attested, runtime_observed, externally_benchmarked, claim_name,
  parse_claim, QualityMetrics, LdpCapability, quality_to_value, quality_from_value, to_value,
  from_value,
}

parse_claim-claim_name : (c : ClaimType) → parse_claim (claim_name c) ≡ some c
parse_claim-claim_name self_claimed = refl
parse_claim-claim_name issuer_attested = refl
parse_claim-claim_name runtime_observed = refl
parse_claim-claim_name externally_benchmarked = refl

module _ ⦃ext : Externals⦄ where
  -- What the Rust types hold, with finite numbers and without schemas that are null.
  abbrev pub IsQuality : QualityMetrics → Type 0
  IsQuality q =
      AreFinite q.quality_score
      × AreWords q.latency_p50_ms
      × AreWords q.latency_p99_ms
      × AreFinite q.cost_per_call_usd
      × AreWords q.max_tokens

  abbrev pub AreQualities : Option QualityMetrics → Type 0
  AreQualities none = Unit
  AreQualities (some q) = IsQuality q

  abbrev pub IsCapability : LdpCapability → Type 0
  IsCapability c = IsFull c.input_schema × IsFull c.output_schema × AreQualities c.quality

  module _ (laws : JsonLaws) (kinds : KindLaws) where
    pub quality_from_value-quality_to_value :
        (q : QualityMetrics) → IsQuality q → quality_from_value (quality_to_value q) ≡ some q
    unfolding quality_from_value quality_to_value entry or_else
    quality_from_value-quality_to_value q (score, p50, p99, cost, tokens) =
        simp
          (
            get-json laws,
            field_rules,
            laws.as_str-string,
            kinds.as_bool-bool,
            parse_claim-claim_name,
            read_float_nullable laws kinds q.quality_score score,
            read_number_nullable laws kinds q.latency_p50_ms p50,
            read_number_nullable laws kinds q.latency_p99_ms p99,
            read_float_nullable laws kinds q.cost_per_call_usd cost,
            read_number_nullable laws kinds q.max_tokens tokens,
          )
          refl

    read_quality :
        (o : Option QualityMetrics)
        → AreQualities o
        → read_option quality_from_value (some (nullable quality_to_value o)) ≡ some o
    unfolding quality_to_value json
    read_quality o h = read_option-nullable quality_to_value quality_from_value kinds o (go o h)
      where
        go :
            (r : Option QualityMetrics)
            → AreQualities r
            → ReadsAny quality_to_value quality_from_value r
        go none h = tt
        go (some q) h = (kinds.is_null-object _, quality_from_value-quality_to_value q h)

    read_schema :
        (o : Option ext.Value) → IsFull o → read_option as_value (some (nullable as_is o)) ≡ some o
    read_schema o h = read_option-nullable as_is as_value kinds o (go o h)
      where
        go : (q : Option ext.Value) → IsFull q → ReadsAny as_is as_value q
        go none h = tt
        go (some v) h = (h, refl)

    pub from_value-to_value :
        (c : LdpCapability) → IsCapability c → from_value (to_value c) ≡ some c
    unfolding from_value to_value entry or_else
    from_value-to_value c (input, output, quality) =
        simp
          (
            get-json laws,
            field_rules,
            laws.as_str-string,
            read_text_nullable laws kinds,
            read_schema c.input_schema input,
            read_schema c.output_schema output,
            read_quality c.quality quality,
            read_texts laws kinds,
          )
          refl
