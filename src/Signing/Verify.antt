-- ===== src/Signing/Verify.antt =====
-- When a signature is accepted (src/signing.rs).
use ldp_protocol.Common.{Option, none, some, refl, String, ◌≡◌, ◌↔◌, true, arith}
use ldp_protocol.Externals.{Externals, CtEqLaws}
use ldp_protocol.Types.Messages.{LdpEnvelope}
use ldp_protocol.Signing.{sign_if_configured, apply_signature, sign_envelope, verify_envelope}

module _ ⦃ext : Externals⦄ (laws : CtEqLaws) where
  -- A signature is accepted exactly when it is the one that `sign_envelope` computes under the
  -- same secret; the early return on another length refuses no right signature.
  pub verify_envelope_iff :
      (e : LdpEnvelope) (secret signature : String)
      → (verify_envelope e secret signature ≡ true) ↔ (signature ≡ sign_envelope e secret)
  unfolding verify_envelope
  verify_envelope_iff e secret signature =
      ground (arith, laws.ct_eq_iff (sign_envelope e secret) signature)

module _ ⦃ext : Externals⦄ where
  -- A signature changes no other field.
  pub sign-fields :
      (k : Option String) (e : LdpEnvelope)
      → ((sign_if_configured k e).from ≡ e.from)
        × ((sign_if_configured k e).session_id ≡ e.session_id)
        × ((sign_if_configured k e).body ≡ e.body)
  unfolding sign_if_configured apply_signature
  sign-fields none e = (refl, refl, refl)
  sign-fields (some secret) e = (refl, refl, refl)
