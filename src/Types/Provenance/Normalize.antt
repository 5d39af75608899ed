-- ===== src/Types/Provenance/Normalize.antt =====
-- What `normalize` (src/types/provenance.rs) makes of the two records of verification.
use ldp_protocol.Common.{◌≡◌, ◌≢◌, ◌↔◌, true, false, arith}
use ldp_protocol.Externals.{Externals}
use ldp_protocol.Types.Provenance.{Provenance, normalize}
use ldp_protocol.Types.Verification.{unverified, self_verified}

module _ ⦃ext : Externals⦄ where
  -- After normalizing, the older flag is set exactly when the status is not Unverified.
  pub normalize_consistent :
      (p : Provenance)
      → ((normalize p).verified ≡ true) ↔ ((normalize p).verification_status ≢ unverified)
  unfolding normalize
  normalize_consistent p = ground arith

  -- A status other than Unverified is kept, whatever the flag says, and so is any status where the
  -- flag is not set; an unverified record whose flag is set becomes self-verified.
  pub normalize_status :
      (p : Provenance)
      → (p.verification_status ≢ unverified
          → (normalize p).verification_status ≡ p.verification_status)
        × (p.verified ≡ false → (normalize p).verification_status ≡ p.verification_status)
        × (p.verification_status ≡ unverified
            → p.verified ≡ true
            → (normalize p).verification_status ≡ self_verified)
  unfolding normalize
  normalize_status p = (λ h. ground arith, λ h. ground arith, λ h k. ground arith)

  -- Normalizing twice is normalizing once.
  pub normalize_idem : (p : Provenance) → normalize (normalize p) ≡ normalize p
  unfolding normalize
  normalize_idem p = ground arith

  -- Normalizing brings the older flag and the status together: afterwards the flag is set exactly
  -- when the status is not Unverified; a status other than Unverified is kept, and so is any status
  -- where the flag is not set; an unverified record whose flag is set becomes self-verified; and
  -- normalizing once more changes nothing.
  pub normalize_lem :
      (p : Provenance)
      → (((normalize p).verified ≡ true) ↔ ((normalize p).verification_status ≢ unverified))
        × (p.verification_status ≢ unverified
            → (normalize p).verification_status ≡ p.verification_status)
        × (p.verified ≡ false → (normalize p).verification_status ≡ p.verification_status)
        × (p.verification_status ≡ unverified
            → p.verified ≡ true
            → (normalize p).verification_status ≡ self_verified)
        × (normalize (normalize p) ≡ normalize p)
  normalize_lem p =
      let (kept, unflagged, raised) = normalize_status p in
      (normalize_consistent p, kept, unflagged, raised, normalize_idem p)
