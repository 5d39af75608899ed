-- ===== src/Types/Verification/Wire.antt =====
-- Evidence and hops (src/types/verification.rs) are read back from JSON as they were written.
use mathlib.Core.Option.{or_else}
use ldp_protocol.Common.{List, map, All-intro, ◌≡◌, refl, some}
use ldp_protocol.Externals.{Externals, JsonLaws, KindLaws}
use ldp_protocol.Json.{list_of}
use ldp_protocol.Json.Reading.{list_of-array, entry, field_rules, get-json, read_text}
use ldp_protocol.Types.Verification.{
  VerificationStatus, unverified, self_verified, peer_verified, tool_verified, human_verified,
  status_name, parse_status, EvidenceRef, ProvenanceEntry, evidence_to_value, evidence_from_value,
  entry_to_value, entry_from_value,
}

pub parse_status-status_name : (s : VerificationStatus) → parse_status (status_name s) ≡ some s
parse_status-status_name unverified = refl
parse_status-status_name self_verified = refl
parse_status-status_name peer_verified = refl
parse_status-status_name tool_verified = refl
parse_status-status_name human_verified = refl

module _ ⦃ext : Externals⦄ (laws : JsonLaws) (kinds : KindLaws) where
  pub evidence_from_value-to_value :
      (e : EvidenceRef) → evidence_from_value (evidence_to_value e) ≡ some e
  unfolding evidence_from_value evidence_to_value entry or_else
  evidence_from_value-to_value e =
      simp (get-json laws, field_rules, laws.as_str-string, read_text laws kinds) refl

  pub entry_from_value-to_value :
      (e : ProvenanceEntry) → entry_from_value (entry_to_value e) ≡ some e
  unfolding entry_from_value entry_to_value entry or_else
  entry_from_value-to_value e =
      simp
        (
          get-json laws,
          field_rules,
          laws.as_str-string,
          read_text laws kinds,
          parse_status-status_name,
        )
        refl

  pub read_evidence :
      (es : List EvidenceRef)
      → list_of evidence_from_value (ext.array (map evidence_to_value es)) ≡ some es
  read_evidence es =
      list_of-array evidence_to_value evidence_from_value laws es
        (All-intro evidence_from_value-to_value es)

  pub read_lineage :
      (es : List ProvenanceEntry)
      → list_of entry_from_value (ext.array (map entry_to_value es)) ≡ some es
  read_lineage es =
      list_of-array entry_to_value entry_from_value laws es (All-intro entry_from_value-to_value es)
