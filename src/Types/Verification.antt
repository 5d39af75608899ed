-- ===== src/Types/Verification.antt =====
-- src/types/verification.rs: verification status, evidence, and the hops of a lineage.
use ldp_protocol.Common.{
  if◌then◌else◌, ◌==◌, some, none, String, Bool, true, false, Option, ◌++◌, [], ◌∷◌,
}
pub mod Wire
use ldp_protocol.Json.{required, defaulted, optional, ◌>>=◌}
use ldp_protocol.Externals.{Externals, json, skip_none}

pub data VerificationStatus : Type 0 where
  unverified self_verified peer_verified tool_verified human_verified : VerificationStatus

-- VerificationStatus::default
abbrev pub default : VerificationStatus
default = unverified

-- `self == VerificationStatus::Unverified`, by the derived PartialEq.
abbrev pub is_unverified : VerificationStatus → Bool
is_unverified unverified = true
is_unverified self_verified = false
is_unverified peer_verified = false
is_unverified tool_verified = false
is_unverified human_verified = false

pub record EvidenceRef : Type 0 where
  pub source : String
  pub kind : String
  pub uri : Option String
  pub summary : Option String

pub record ProvenanceEntry : Type 0 where
  pub delegate_id : String
  pub model_version : String
  pub step : String
  pub timestamp : Option String
  pub verification_status : VerificationStatus

-- serde's names, under rename_all = "snake_case".
abbrev pub status_name : VerificationStatus → String
status_name unverified = "unverified"
status_name self_verified = "self_verified"
status_name peer_verified = "peer_verified"
status_name tool_verified = "tool_verified"
status_name human_verified = "human_verified"

-- The derived Deserialize of the status, from a text.
abbrev pub parse_status : String → Option VerificationStatus
parse_status s =
    if s == "unverified"
    then some unverified
    else if s == "self_verified"
    then some self_verified
    else if s == "peer_verified"
    then some peer_verified
    else if s == "tool_verified"
    then some tool_verified
    else if s == "human_verified"
    then some human_verified
    else none

module _ ⦃ext : Externals⦄ where
  abbrev pub status_from_value : ext.Value → Option VerificationStatus
  status_from_value v = ext.as_str v >>= parse_status

  -- The derived Serialize of the two records.
  unfoldable pub evidence_to_value : EvidenceRef → ext.Value
  evidence_to_value e = json (
      ("source", ext.string e.source)
        ∷ ("kind", ext.string e.kind)
        ∷ skip_none "uri" ext.string e.uri
      ++ skip_none "summary" ext.string e.summary)

  unfoldable pub entry_to_value : ProvenanceEntry → ext.Value
  entry_to_value e = json (
      (("delegate_id", ext.string e.delegate_id)
        ∷ ("model_version", ext.string e.model_version)
        ∷ ("step", ext.string e.step)
        ∷ skip_none "timestamp" ext.string e.timestamp)
      ++ ("verification_status", ext.string (status_name e.verification_status)) ∷ [])

  -- The derived Deserialize of the two records.
  unfoldable pub evidence_from_value : ext.Value → Option EvidenceRef
  evidence_from_value v = do
    source ← required ext.as_str "source" v
    kind ← required ext.as_str "kind" v
    uri ← optional ext.as_str "uri" v
    summary ← optional ext.as_str "summary" v
    some (record { source = source; kind = kind; uri = uri; summary = summary })

  unfoldable pub entry_from_value : ext.Value → Option ProvenanceEntry
  entry_from_value v = do
    delegate_id ← required ext.as_str "delegate_id" v
    model_version ← required ext.as_str "model_version" v
    step ← required ext.as_str "step" v
    timestamp ← optional ext.as_str "timestamp" v
    verification_status ← defaulted status_from_value default "verification_status" v
    some (record {
      delegate_id = delegate_id;
      model_version = model_version;
      step = step;
      timestamp = timestamp;
      verification_status = verification_status;
    })
