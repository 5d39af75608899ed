-- ===== src/Examples/UnitTests/Guards.antt =====
-- The unit tests in src/replay.rs, src/signing.rs and src/plugin.rs, with the toy instances of what is
-- outside the repository.
use ldp_protocol.Common.{
  String, Bool, ◌≡◌, ◌≢◌, refl, true, false, Option, none, some, List, [], ◌∷◌, Result, ok, err, In,
  inl,
}
use ldp_protocol.Common.Text.{to_string}
use ldp_protocol.Types.Messages
use ldp_protocol.Types.Messages.{LdpEnvelope, hello, task_submit}
use ldp_protocol.Types.Payload.{text}
use ldp_protocol.Signing.{sign_envelope, verify_envelope, apply_signature, signing_input}
use ldp_protocol.Replay
use ldp_protocol.Replay.{ReplayGuard, check}
use ldp_protocol.Protocol.{ProtocolRegistry, adapter, adapter_for_url, protocols}
use ldp_protocol.SessionManager
use ldp_protocol.SessionManager.{active_count}
use ldp_protocol.Adapter.Methods.{LdpAdapter}
use ldp_protocol.Plugin.{create_adapter, register_ldp}
use ldp_protocol.Examples.World.{toy_http, Json, toy, toy_lru}

-- Whether each of some calls is accepted, one after the other, all at time 100.
abbrev accepted : Result (Unit {0}) → Bool
accepted (ok _) = true
accepted (err _) = false

abbrev checks : ReplayGuard → List (String × Option String × String) → List Bool
checks guard [] = []
checks guard ((id, given, timestamp) ∷ calls) =
    let (result, guard') = check guard 100 id given timestamp in
    accepted result ∷ checks guard' calls

abbrev AcceptsFreshMessage : Type 0
AcceptsFreshMessage = checks (Replay.new 100 60) (("m1", some "nonce1", "100") ∷ []) ≡ true ∷ []

accepts_fresh_message : AcceptsFreshMessage
unfolding Replay.new check
accepts_fresh_message = refl

abbrev RejectsDuplicateNonce : Type 0
RejectsDuplicateNonce =
    checks (Replay.new 100 60) (("m1", some "nonce1", "100") ∷ ("m1", some "nonce1", "100") ∷ [])
    ≡ true ∷ false ∷ []

rejects_duplicate_nonce : RejectsDuplicateNonce
unfolding Replay.new check
rejects_duplicate_nonce = refl

abbrev AcceptsDifferentNonceSameMessageId : Type 0
AcceptsDifferentNonceSameMessageId =
    checks (Replay.new 100 60) (("m1", some "nonce1", "100") ∷ ("m1", some "nonce2", "100") ∷ [])
    ≡ true ∷ true ∷ []

accepts_different_nonce_same_message_id : AcceptsDifferentNonceSameMessageId
unfolding Replay.new check
accepts_different_nonce_same_message_id = refl

-- At time 170, 120 seconds after the timestamp.
abbrev RejectsStaleTimestamp : Type 0
RejectsStaleTimestamp = accepted (check (Replay.new 100 60) 170 "m1" (some "nonce1") "50").0 ≡ false

rejects_stale_timestamp : RejectsStaleTimestamp
unfolding Replay.new check
rejects_stale_timestamp = refl

abbrev SkipsDedupWhenNoNonce : Type 0
SkipsDedupWhenNoNonce =
    checks (Replay.new 100 60) (("m1", none, "100") ∷ ("m1", none, "100") ∷ []) ≡ true ∷ true ∷ []

skips_dedup_when_no_nonce : SkipsDedupWhenNoNonce
unfolding Replay.new check
skips_dedup_when_no_nonce = refl

abbrev LruEvictsOldestAtCapacity : Type 0
LruEvictsOldestAtCapacity =
    checks (Replay.new 2 60) (
      ("m1", some "n1", "100")
      ∷ ("m2", some "n2", "100")
      ∷ ("m3", some "n3", "100")
      ∷ ("m1", some "n1", "100")
      ∷ ("m3", some "n3", "100")
      ∷ [])
    ≡ true ∷ true ∷ true ∷ true ∷ false ∷ []

lru_evicts_oldest_at_capacity : LruEvictsOldestAtCapacity
unfolding Replay.new check
lru_evicts_oldest_at_capacity = refl

-- The envelope of the tests on signatures.
abbrev make_envelope : LdpEnvelope
make_envelope =
    (Messages.new "session-1" "from-delegate" "to-delegate" (hello "test" (text ∷ [])) text
      (record { reads = 0; uuids = 0 })).0

abbrev SignAndVerifyRoundtrip : Type 0
SignAndVerifyRoundtrip =
    let sig = sign_envelope make_envelope "test-secret" in
    (sig ≢ "") × (verify_envelope make_envelope "test-secret" sig ≡ true)

sign_and_verify_roundtrip : SignAndVerifyRoundtrip
unfolding Messages.new sign_envelope verify_envelope signing_input to_string
sign_and_verify_roundtrip = (cc, refl)

abbrev TamperedMessageFails : Type 0
TamperedMessageFails =
    let sig = sign_envelope make_envelope "test-secret" in
    verify_envelope (record make_envelope { from = "attacker" }) "test-secret" sig ≡ false

tampered_message_fails : TamperedMessageFails
unfolding Messages.new sign_envelope verify_envelope signing_input to_string
tampered_message_fails = refl

abbrev WrongSecretFails : Type 0
WrongSecretFails =
    let sig = sign_envelope make_envelope "secret-a" in
    verify_envelope make_envelope "secret-b" sig ≡ false

wrong_secret_fails : WrongSecretFails
unfolding Messages.new sign_envelope verify_envelope signing_input to_string
wrong_secret_fails = refl

abbrev ApplySignatureSetsFields : Type 0
ApplySignatureSetsFields =
    let signed = apply_signature make_envelope "test-secret" in
    (signed.signature ≢ none) × (signed.signature_algorithm ≡ some "hmac-sha256")

apply_signature_sets_fields : ApplySignatureSetsFields
unfolding apply_signature
apply_signature_sets_fields = (cc, refl)

abbrev TaskSubmitSigning : Type 0
TaskSubmitSigning =
    let envelope =
      (Messages.new "s1" "from" "to"
        (task_submit "t1" "echo" (Json.field "data" (Json.number 1) Json.empty) none) text
        (record { reads = 0; uuids = 0 })).0 in
    verify_envelope envelope "secret" (sign_envelope envelope "secret") ≡ true

task_submit_signing : TaskSubmitSigning
unfolding Messages.new sign_envelope verify_envelope signing_input to_string
task_submit_signing = refl

-- The registry of the tests on the plugin, over any network.
abbrev registered : List LdpEnvelope → ProtocolRegistry LdpAdapter
registered net = register_ldp [] none net (record { reads = 0; uuids = 0 })

abbrev RegisterLdpInRegistry : List LdpEnvelope → Type 0
RegisterLdpInRegistry net =
    (adapter (registered net) "ldp" ≢ none) × In "ldp" (protocols (registered net))

register_ldp_in_registry : (net : List LdpEnvelope) → RegisterLdpInRegistry net
unfolding register_ldp adapter protocols
register_ldp_in_registry net = (cc, inl refl)

abbrev UrlRoutingMatchesLdpPrefix : List LdpEnvelope → Type 0
UrlRoutingMatchesLdpPrefix net =
    (adapter_for_url (registered net) "ldp://delegate.example.com" ≢ none)
    × (adapter_for_url (registered net) "https://not-ldp.com" ≡ none)

url_routing_matches_ldp_prefix : (net : List LdpEnvelope) → UrlRoutingMatchesLdpPrefix net
unfolding register_ldp adapter_for_url
url_routing_matches_ldp_prefix net = (cc, refl)

abbrev CreateStandaloneAdapter : List LdpEnvelope → Type 0
CreateStandaloneAdapter net =
    (active_count (create_adapter none net (record { reads = 0; uuids = 0 })).session_manager).0 ≡ 0

create_standalone_adapter : (net : List LdpEnvelope) → CreateStandaloneAdapter net
unfolding create_adapter active_count SessionManager.new
create_standalone_adapter net = refl
