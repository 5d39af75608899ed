-- ===== src/Examples/Guard.antt =====
-- Runs of the replay guard (src/replay.rs) and of the signature (src/signing.rs).
use ldp_protocol.Common.{String, ◌≡◌, ◌≢◌, refl, ◌↔◌, none, some, [], ◌∷◌, arith, true, ok, err}
use ldp_protocol.Common.Text.{to_string}
use ldp_protocol.Types.Messages.{LdpEnvelope, task_cancel}
use ldp_protocol.Types.Payload.{text, semantic_frame}
use ldp_protocol.Signing.{sign_envelope, verify_envelope, signing_input}
use ldp_protocol.Signing.Binding.{IsPlain, SameHeader, signing_input-SameHeader}
use ldp_protocol.Signing.Verify.{verify_envelope_iff}
use ldp_protocol.Replay.{ReplayGuard, check, drift}
use ldp_protocol.Replay.Window.{check_lem, Call, IsTimely, IsNew, check_call, run, replay_rejected}
use ldp_protocol.Examples.World.{toy, toy_lru, toy_lru_laws, toy_ct_eq}

abbrev guard : ReplayGuard
guard = record { seen = record { keys = []; limit = 2 }; window = 30 }

abbrev call : String → String → String → Call
call id given timestamp = record {
  now = 60;
  message_id = id;
  nonce = some given;
  timestamp = timestamp;
}

accepted_run : (check_call guard (call "m" "n" "50")).0 ≡ ok tt
unfolding check
accepted_run = refl

replay_rejected_example :
    (check_call
      (run (check_call guard (call "m" "n" "50")).1 (call "other" "n" "50" ∷ []))
      (call "m" "n" "later")).0
    ≢ ok tt
replay_rejected_example =
    replay_rejected toy_lru_laws guard (call "m" "n" "50") "n" (call "other" "n" "50" ∷ [])
      (call "m" "n" "later") refl accepted_run refl refl (omega arith)

late_run :
    (check_call guard (call "m" "n" "100")).0 ≡ err "Message timestamp too old: 40s > 30s window"
unfolding check to_string
late_run = refl

abbrev message : LdpEnvelope
message = record {
  message_id = "m";
  session_id = "s";
  from = "a";
  to = "b";
  body = task_cancel "t";
  payload_mode = text;
  timestamp = "50";
  provenance = none;
  signature = none;
  signature_algorithm = none;
  nonce = none;
}

verify_envelope_iff_example :
    (verify_envelope message "secret" "forged" ≡ true)
    ↔ ◌≡◌ {A = String} "forged" (sign_envelope message "secret")
verify_envelope_iff_example = verify_envelope_iff toy_ct_eq message "secret" "forged"

-- The same message in another payload mode, which the signature does not cover.
abbrev recoded : LdpEnvelope
recoded = record message { payload_mode = semantic_frame }

message-IsPlain : IsPlain message
message-IsPlain = record {
  from = ground arith;
  to = ground arith;
  session_id = ground arith;
  timestamp = ground arith;
  message_id = ground arith;
}

recoded-IsPlain : IsPlain recoded
recoded-IsPlain = record {
  from = ground arith;
  to = ground arith;
  session_id = ground arith;
  timestamp = ground arith;
  message_id = ground arith;
}

same_run : signing_input message ≡ signing_input recoded
unfolding signing_input
same_run = refl

signing_input-SameHeader_example : SameHeader message recoded
signing_input-SameHeader_example =
    signing_input-SameHeader message recoded message-IsPlain recoded-IsPlain same_run

check_lem_example :
    (((check_call guard (call "m" "n" "100")).0 ≡ ok tt)
      ↔ IsTimely guard.window (drift 60 "100") × IsNew toy_lru_laws guard "m" (some "n"))
    × ((e : String)
        → (check_call guard (call "m" "n" "100")).0 ≡ err e
        → (check_call guard (call "m" "n" "100")).1 ≡ guard)
check_lem_example = check_lem toy_lru_laws guard (call "m" "n" "100")
