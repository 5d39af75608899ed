-- ===== src/Types/Provenance.antt =====
-- src/types/provenance.rs: who produced a result, and how it was verified.
pub mod Normalize
pub mod Wire
use ldp_protocol.Common.{
  ℕ, String, Bool, true, false, not, ◌&&◌, Option, none, some, List, [], ◌∷◌, ◌++◌, map,
  if◌then◌else◌,
}
use ldp_protocol.Externals.{Externals, Entropy, utc_now, json, nullable, strings, skip_none}
use ldp_protocol.Json.{required, optional, defaulted, list_of, ◌>>=◌}
use ldp_protocol.Types.Payload
use ldp_protocol.Types.Payload.{PayloadMode, semantic_frame}
use ldp_protocol.Types.Verification
use ldp_protocol.Types.Verification.{
  status_from_value, evidence_from_value, entry_from_value, VerificationStatus, unverified,
  self_verified, is_unverified, status_name, EvidenceRef, ProvenanceEntry, evidence_to_value,
  entry_to_value,
}

module _ ⦃ext : Externals⦄ where
  pub record Provenance : Type 0 where
    pub produced_by : String
    pub model_version : String
    pub payload_mode_used : PayloadMode
    pub confidence : Option ext.Float
    pub verified : Bool
    pub session_id : Option String
    pub timestamp : Option String
    pub tokens_used : Option ℕ
    pub cost_usd : Option ext.Float
    pub contract_id : Option String
    pub contract_satisfied : Option Bool
    pub contract_violations : List String
    pub verification_status : VerificationStatus
    pub evidence : List EvidenceRef
    pub lineage : List ProvenanceEntry

  unfoldable pub new : String → String → Entropy → Provenance × Entropy
  unfolding utc_now
  new delegate_id model_version e =
      let (now, e₁) = utc_now e in
      (
        record {
          produced_by = delegate_id;
          model_version = model_version;
          payload_mode_used = semantic_frame;
          confidence = none;
          verified = false;
          session_id = none;
          timestamp = some (ext.to_rfc3339 now);
          tokens_used = none;
          cost_usd = none;
          contract_id = none;
          contract_satisfied = none;
          contract_violations = [];
          verification_status = unverified;
          evidence = [];
          lineage = [];
        },
        e₁,
      )

  -- The `if` of `normalize`: the older flag raises an unverified status.
  abbrev raise_status : Provenance → Provenance
  raise_status p =
      if is_unverified p.verification_status && p.verified
      then record p { verification_status = self_verified }
      else p

  unfoldable pub normalize : Provenance → Provenance
  normalize p =
      let q = raise_status p in record q { verified = not (is_unverified q.verification_status) }

  -- The derived Serialize: the fields in order, those that are skipped when absent left out.
  unfoldable pub to_value : Provenance → ext.Value
  to_value p = json (
      (("produced_by", ext.string p.produced_by)
        ∷ ("model_version", ext.string p.model_version)
        ∷ ("payload_mode_used", Payload.to_value p.payload_mode_used)
        ∷ ("confidence", nullable ext.float p.confidence)
        ∷ ("verified", ext.bool p.verified)
        ∷ ("session_id", nullable ext.string p.session_id)
        ∷ ("timestamp", nullable ext.string p.timestamp)
        ∷ skip_none "tokens_used" ext.number p.tokens_used)
      ++ (skip_none "cost_usd" ext.float p.cost_usd
          ++ (skip_none "contract_id" ext.string p.contract_id
              ++ (skip_none "contract_satisfied" ext.bool p.contract_satisfied
                  ++ (("contract_violations", strings p.contract_violations)
                      ∷ ("verification_status", ext.string (status_name p.verification_status))
                      ∷ ("evidence", ext.array (map evidence_to_value p.evidence))
                      ∷ ("lineage", ext.array (map entry_to_value p.lineage))
                      ∷ [])))))

  -- The derived Deserialize.
  unfoldable pub from_value : ext.Value → Option Provenance
  from_value v = do
    produced_by ← required ext.as_str "produced_by" v
    model_version ← required ext.as_str "model_version" v
    payload_mode_used ← required Payload.from_value "payload_mode_used" v
    confidence ← optional ext.as_f64 "confidence" v
    verified ← defaulted ext.as_bool false "verified" v
    session_id ← optional ext.as_str "session_id" v
    timestamp ← optional ext.as_str "timestamp" v
    tokens_used ← optional ext.as_u64 "tokens_used" v
    cost_usd ← optional ext.as_f64 "cost_usd" v
    contract_id ← optional ext.as_str "contract_id" v
    contract_satisfied ← optional ext.as_bool "contract_satisfied" v
    contract_violations ← defaulted (list_of ext.as_str) [] "contract_violations" v
    verification_status ← defaulted status_from_value Verification.default "verification_status" v
    evidence ← defaulted (list_of evidence_from_value) [] "evidence" v
    lineage ← defaulted (list_of entry_from_value) [] "lineage" v
    some (record {
      produced_by = produced_by;
      model_version = model_version;
      payload_mode_used = payload_mode_used;
      confidence = confidence;
      verified = verified;
      session_id = session_id;
      timestamp = timestamp;
      tokens_used = tokens_used;
      cost_usd = cost_usd;
      contract_id = contract_id;
      contract_satisfied = contract_satisfied;
      contract_violations = contract_violations;
      verification_status = verification_status;
      evidence = evidence;
      lineage = lineage;
    })
