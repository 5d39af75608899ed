-- ===== src/Types/Session/Activity.antt =====
-- When a session counts as active (src/types/session.rs).
use ldp_protocol.Common.{ℕ, ◌≤◌, ◌<◌, ◌^◌, ◌≡◌, ap, ◌↔◌, true, false, arith}
use ldp_protocol.Common.Int.{ℤ, pos, negsuc, ltb_ℤ, as_i64, as_i64_small, as_i64_large}
use ldp_protocol.Externals.{Externals, Entropy}
use ldp_protocol.Types.Session.{LdpSession, active, is_fresh, is_active}

-- Fewer than `n` seconds, counting a clock that went back as none.
abbrev pub LessThan : ℤ → ℕ → Type 0
LessThan (pos k) n = k < n
LessThan (negsuc k) n = Unit

ltb_ℤ_iff : (z : ℤ) (n : ℕ) → (ltb_ℤ z (pos n) ≡ true) ↔ LessThan z n
ltb_ℤ_iff (pos k) n = ground arith
ltb_ℤ_iff (negsuc k) n = ground arith

module _ ⦃ext : Externals⦄ where
  is_fresh_small :
      (s : LdpSession) (now : ext.Time)
      → s.ttl_secs < 2 ^ 63
      → is_fresh s now ≡ ltb_ℤ (ext.seconds_since now s.last_used) (pos s.ttl_secs)
  unfolding is_fresh
  is_fresh_small s now h = rw (as_i64_small s.ttl_secs h)

  -- A session whose lifetime is below 2^63 seconds is active exactly when its state is Active and
  -- fewer seconds than its lifetime have passed since it was last used.
  pub is_active_iff :
      (s : LdpSession) (e : Entropy)
      → s.ttl_secs < 2 ^ 63
      → ((is_active s e).0 ≡ true)
        ↔ (s.state ≡ active)
          × LessThan (ext.seconds_since (ext.clock e.reads) s.last_used) s.ttl_secs
  unfolding is_active
  is_active_iff s e h =
      let now = ext.clock e.reads in
      ground
        (arith, is_fresh_small s now h, ltb_ℤ_iff (ext.seconds_since now s.last_used) s.ttl_secs)

  -- A lifetime of 2^63 seconds or more, below 2^64, is negative as an i64: such a session is not
  -- active where no negative number of seconds has passed since it was last used, not even in the
  -- second in which it was used.
  pub is_active_huge_ttl :
      (s : LdpSession) (e : Entropy) (n : ℕ)
      → 2 ^ 63 ≤ s.ttl_secs
      → s.ttl_secs < 2 ^ 64
      → ext.seconds_since (ext.clock e.reads) s.last_used ≡ pos n
      → (is_active s e).0 ≡ false
  unfolding is_active is_fresh
  is_active_huge_ttl s e n h k elapsed =
      ground (arith, ap (λ z. ltb_ℤ z (as_i64 s.ttl_secs)) elapsed, as_i64_large s.ttl_secs h k)
