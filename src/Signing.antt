-- ===== src/Signing.antt =====
-- src/signing.rs: signing and verifying envelopes with HMAC-SHA256.
pub mod Verify
pub mod Binding
use Prim.Native.String.{len}
use ldp_protocol.Common.{ℕ, String, Bool, false, Option, none, some, eqb, not, if◌then◌else◌}
use ldp_protocol.Common.Text.{◌<>◌}
use ldp_protocol.Externals.{Externals}
use ldp_protocol.Types.Messages.{
  LdpEnvelope, LdpMessageBody, hello, capability_manifest, session_propose, session_accept,
  session_reject, task_submit, task_update, task_result, task_failed, task_cancel, attestation,
  session_close,
}

module _ ⦃ext : Externals⦄ where
  -- What the `match` on the body feeds to the MAC before the last separator.
  abbrev pub body_fields : LdpMessageBody → String
  body_fields (hello delegate_id _) = delegate_id
  body_fields (capability_manifest _) = ""
  body_fields (session_propose _) = ""
  body_fields (session_accept session_id _) = session_id
  body_fields (session_reject reason _) = reason
  body_fields (task_submit task_id skill _ _) = task_id <> "|" <> skill
  body_fields (task_update task_id _ _) = task_id
  body_fields (task_result task_id _ _) = task_id
  body_fields (task_failed task_id _) = task_id
  body_fields (task_cancel task_id) = task_id
  body_fields (attestation _ _) = ""
  body_fields (session_close _) = ""

  -- The value of the `match`.
  abbrev pub body_type : LdpMessageBody → String
  body_type (hello _ _) = "HELLO"
  body_type (capability_manifest _) = "CAPABILITY_MANIFEST"
  body_type (session_propose _) = "SESSION_PROPOSE"
  body_type (session_accept _ _) = "SESSION_ACCEPT"
  body_type (session_reject _ _) = "SESSION_REJECT"
  body_type (task_submit _ _ _ _) = "TASK_SUBMIT"
  body_type (task_update _ _ _) = "TASK_UPDATE"
  body_type (task_result _ _ _) = "TASK_RESULT"
  body_type (task_failed _ _) = "TASK_FAILED"
  body_type (task_cancel _) = "TASK_CANCEL"
  body_type (attestation _ _) = "ATTESTATION"
  body_type (session_close _) = "SESSION_CLOSE"

  abbrev pub nonce_part : Option String → String
  nonce_part none = ""
  nonce_part (some nonce) = "|" <> nonce

  -- The bytes that the calls of `mac.update` feed to the MAC, one after the other.
  unfoldable pub signing_input : LdpEnvelope → String
  signing_input e =
      e.from
      <> "|"
      <> e.to
      <> "|"
      <> e.session_id
      <> "|"
      <> e.timestamp
      <> "|"
      <> e.message_id
      <> nonce_part e.nonce
      <> "|"
      <> body_fields e.body
      <> "|"
      <> body_type e.body

  unfoldable pub sign_envelope : LdpEnvelope → String → String
  unfolding signing_input
  sign_envelope e secret = ext.hmac_sha256_hex secret (signing_input e)

  unfoldable pub verify_envelope : LdpEnvelope → String → String → Bool
  verify_envelope e secret signature =
      let expected = sign_envelope e secret in
      if not (eqb (len expected) (len signature)) then false else ext.ct_eq expected signature

  unfoldable pub apply_signature : LdpEnvelope → String → LdpEnvelope
  apply_signature e secret = record e {
    signature = some (sign_envelope e secret);
    signature_algorithm = some "hmac-sha256";
  }

  -- `if let Some(ref secret) = signing_secret { apply_signature(&mut envelope, secret); }`
  unfoldable pub sign_if_configured : Option String → LdpEnvelope → LdpEnvelope
  sign_if_configured none e = e
  sign_if_configured (some secret) e = apply_signature e secret
