-- ===== src/Examples/Values.antt =====
-- Runs of the value types (src/types) on concrete inputs.
use ldp_protocol.Common.{
  ℕ, ◌^◌, ◌≡◌, ◌≢◌, refl, ◌↔◌, ◌⊎◌, true, false, none, some, List, [], ◌∷◌, arith, All,
}
use ldp_protocol.Common.Text.{to_string, trim_end_slashes}
use ldp_protocol.Externals.{Entropy}
use ldp_protocol.Types.Identity.{LdpIdentityCard}
use ldp_protocol.Types.Payload.{
  PayloadMode, text, semantic_frame, semantic_graph, negotiate_payload_mode,
}
use ldp_protocol.Types.Payload.Negotiation.{IsCommon, FirstCommon, negotiate_payload_mode_lem}
use ldp_protocol.Types.Provenance.{Provenance, normalize}
use ldp_protocol.Types.Provenance.Normalize.{normalize_lem}
use ldp_protocol.Types.Session.{LdpSession, active, is_active}
use ldp_protocol.Types.Session.Activity.{LessThan, is_active_iff, is_active_huge_ttl}
use ldp_protocol.Types.Trust
use ldp_protocol.Types.Trust.{TrustDomain, trusts}
use ldp_protocol.Types.Verification.{unverified, self_verified}
use ldp_protocol.Server.{echo_identity}
use ldp_protocol.Examples.World.{toy}

to_string_run : to_string 4096 ≡ "4096"
unfolding to_string
to_string_run = refl

trim_end_slashes_run : trim_end_slashes "http://a//" ≡ "http://a"
unfolding trim_end_slashes
trim_end_slashes_run = refl

abbrev prefs : List PayloadMode
prefs = semantic_graph ∷ semantic_frame ∷ text ∷ []

abbrev responder : List PayloadMode
responder = text ∷ semantic_graph ∷ semantic_frame ∷ []

agreed_run : (negotiate_payload_mode prefs responder).mode ≡ semantic_frame
unfolding negotiate_payload_mode
agreed_run = refl

negotiate_payload_mode_lem_example :
    FirstCommon responder prefs (negotiate_payload_mode prefs responder).mode
    ⊎ ((negotiate_payload_mode prefs responder).mode ≡ text)
      × All (λ x. ¬ IsCommon responder x) prefs
negotiate_payload_mode_lem_example = negotiate_payload_mode_lem responder prefs

abbrev home : TrustDomain
home = record { name = "home"; allow_cross_domain = true; trusted_peers = "partner" ∷ [] }

abbrev alone : TrustDomain
alone = record { name = "alone"; allow_cross_domain = false; trusted_peers = [] }

alone_run : Trust.new "alone" ≡ some alone
unfolding Trust.new
alone_run = refl

abbrev start : Entropy
start = record { reads = 0; uuids = 0 }

abbrev result : Provenance
result = record {
  produced_by = "delegate";
  model_version = "1.0";
  payload_mode_used = semantic_frame;
  confidence = none;
  verified = true;
  session_id = none;
  timestamp = none;
  tokens_used = some 10;
  cost_usd = none;
  contract_id = none;
  contract_satisfied = none;
  contract_violations = [];
  verification_status = unverified;
  evidence = [];
  lineage = [];
}

abbrev session_of : ℕ → LdpSession
session_of ttl = record {
  session_id = "s";
  remote_url = "u";
  remote_delegate_id = "delegate";
  state = active;
  payload = negotiate_payload_mode prefs responder;
  trust_domain = alone;
  created_at = 1;
  last_used = 1;
  ttl_secs = ttl;
  task_count = 0;
}

is_active_iff_example :
    ((is_active (session_of 60) start).0 ≡ true)
    ↔ ((session_of 60).state ≡ active)
      × LessThan (toy.seconds_since (toy.clock 0) (session_of 60).last_used) 60
is_active_iff_example = is_active_iff (session_of 60) start (omega arith)

is_active_huge_ttl_example : (is_active (session_of (2 ^ 63)) start).0 ≡ false
is_active_huge_ttl_example =
    is_active_huge_ttl (session_of (2 ^ 63)) start 1 (omega arith) (omega arith) refl

normalize_lem_example :
    (((normalize result).verified ≡ true) ↔ ((normalize result).verification_status ≢ unverified))
    × (result.verification_status ≢ unverified
        → (normalize result).verification_status ≡ result.verification_status)
    × (result.verified ≡ false
        → (normalize result).verification_status ≡ result.verification_status)
    × (result.verification_status ≡ unverified
        → result.verified ≡ true
        → (normalize result).verification_status ≡ self_verified)
    × (normalize (normalize result) ≡ normalize result)
normalize_lem_example = normalize_lem result

abbrev card : LdpIdentityCard
card = record (echo_identity "ldp:echo" "Echo") { jurisdiction = some "eu-west" }
