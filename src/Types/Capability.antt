-- ===== src/Types/Capability.antt =====
-- src/types/capability.rs: advertised skills with their metrics.
pub mod Wire
use ldp_protocol.Common.{
  ℕ, String, Bool, Option, List, [], ◌∷◌, none, some, false, ◌==◌, if◌then◌else◌,
}
use ldp_protocol.Externals.{Externals, json, nullable, strings}
use ldp_protocol.Json.{required, optional, defaulted, list_of, as_value, ◌>>=◌}

pub data ClaimType : Type 0 where
  self_claimed issuer_attested runtime_observed externally_benchmarked : ClaimType

-- serde's names, under rename_all = "snake_case".
abbrev pub claim_name : ClaimType → String
claim_name self_claimed = "self_claimed"
claim_name issuer_attested = "issuer_attested"
claim_name runtime_observed = "runtime_observed"
claim_name externally_benchmarked = "externally_benchmarked"

abbrev pub parse_claim : String → Option ClaimType
parse_claim s =
    if s == "self_claimed"
    then some self_claimed
    else if s == "issuer_attested"
    then some issuer_attested
    else if s == "runtime_observed"
    then some runtime_observed
    else if s == "externally_benchmarked"
    then some externally_benchmarked
    else none

module _ ⦃ext : Externals⦄ where
  pub record QualityMetrics : Type 0 where
    pub quality_score : Option ext.Float
    pub latency_p50_ms : Option ℕ
    pub latency_p99_ms : Option ℕ
    pub cost_per_call_usd : Option ext.Float
    pub max_tokens : Option ℕ
    pub supports_streaming : Bool
    pub claim_type : ClaimType

  pub record LdpCapability : Type 0 where
    pub name : String
    pub description : Option String
    pub input_schema : Option ext.Value
    pub output_schema : Option ext.Value
    pub quality : Option QualityMetrics
    pub domains : List String

  -- The derived Serialize of the two records.
  unfoldable pub quality_to_value : QualityMetrics → ext.Value
  quality_to_value q = json (
      ("quality_score", nullable ext.float q.quality_score)
      ∷ ("latency_p50_ms", nullable ext.number q.latency_p50_ms)
      ∷ ("latency_p99_ms", nullable ext.number q.latency_p99_ms)
      ∷ ("cost_per_call_usd", nullable ext.float q.cost_per_call_usd)
      ∷ ("max_tokens", nullable ext.number q.max_tokens)
      ∷ ("supports_streaming", ext.bool q.supports_streaming)
      ∷ ("claim_type", ext.string (claim_name q.claim_type))
      ∷ [])

  unfoldable pub to_value : LdpCapability → ext.Value
  to_value c = json (
      ("name", ext.string c.name)
      ∷ ("description", nullable ext.string c.description)
      ∷ ("input_schema", nullable (λ v. v) c.input_schema)
      ∷ ("output_schema", nullable (λ v. v) c.output_schema)
      ∷ ("quality", nullable quality_to_value c.quality)
      ∷ ("domains", strings c.domains)
      ∷ [])

  -- QualityMetrics::default, derived.
  abbrev pub default : QualityMetrics
  default = record {
    quality_score = none;
    latency_p50_ms = none;
    latency_p99_ms = none;
    cost_per_call_usd = none;
    max_tokens = none;
    supports_streaming = false;
    claim_type = self_claimed;
  }

  -- The derived Deserialize of the two records.
  unfoldable pub quality_from_value : ext.Value → Option QualityMetrics
  quality_from_value v = do
    quality_score ← optional ext.as_f64 "quality_score" v
    latency_p50_ms ← optional ext.as_u64 "latency_p50_ms" v
    latency_p99_ms ← optional ext.as_u64 "latency_p99_ms" v
    cost_per_call_usd ← optional ext.as_f64 "cost_per_call_usd" v
    max_tokens ← optional ext.as_u64 "max_tokens" v
    supports_streaming ← required ext.as_bool "supports_streaming" v
    claim_type ← defaulted (λ x. ext.as_str x >>= parse_claim) self_claimed "claim_type" v
    some (record {
      quality_score = quality_score;
      latency_p50_ms = latency_p50_ms;
      latency_p99_ms = latency_p99_ms;
      cost_per_call_usd = cost_per_call_usd;
      max_tokens = max_tokens;
      supports_streaming = supports_streaming;
      claim_type = claim_type;
    })

  unfoldable pub from_value : ext.Value → Option LdpCapability
  from_value v = do
    name ← required ext.as_str "name" v
    description ← optional ext.as_str "description" v
    input_schema ← optional as_value "input_schema" v
    output_schema ← optional as_value "output_schema" v
    quality ← optional quality_from_value "quality" v
    domains ← defaulted (list_of ext.as_str) [] "domains" v
    some (record {
      name = name;
      description = description;
      input_schema = input_schema;
      output_schema = output_schema;
      quality = quality;
      domains = domains;
    })
