-- ===== src/Common/Outcome.antt =====
-- Rust's Result<T, String>, and methods that read and write an object and may fail: what was
-- written before the failure stays written, so the state comes back beside the error too.
use Prim.Native.String.{String}
use mathlib.Core.Path.{◌≡◌, refl}
use native.Mathlib.Omega.{arith}

pub data Result {ℓ} (A : Type ℓ) : Type ℓ where
  ok : A → Result A
  err : String → Result A

abbrev pub Exec {ℓ} : Type ℓ → Type ℓ → Type ℓ
Exec S A = S → Result A × S

module _ {ℓ} {S A B : Type ℓ} where
  -- What follows `?`: the next step on a value, and nothing more on an error.
  abbrev pub continue : Result A × S → (A → Exec S B) → Result B × S
  continue (ok a, s) f = f a s
  continue (err e, s) f = (err e, s)

  infixl 5 ◌>>=◌
  abbrev pub ◌>>=◌ : Exec S A → (A → Exec S B) → Exec S B
  ◌>>=◌ m f s = continue (m s) f

module _ {ℓ} {S A : Type ℓ} where
  abbrev pub pure : A → Exec S A
  pure a s = (ok a, s)

  abbrev pub raise : String → Exec S A
  raise e s = (err e, s)

module _ {ℓ} {S B : Type ℓ} where
  infixl 5 ◌>>◌
  abbrev pub ◌>>◌ : {A : Type ℓ} → Exec S A → Exec S B → Exec S B
  m >> k = m >>= λ _. k

  -- A step that changes the state and returns nothing, then the rest.
  abbrev pub lift : Result B → Exec S B
  lift r s = (r, s)

-- A last step that cannot fail and keeps the state.
module _ {ℓ} {S A B : Type ℓ} (f : A → S → B) where
  pub continue-ok_state : (m : Result A × S) → (continue m (λ a s. (ok (f a s), s))).1 ≡ m.1
  continue-ok_state (ok a, s) = refl
  continue-ok_state (err e, s) = refl

  pub continue-eq-ok :
      (m : Result A × S) (b : B)
      → (continue m (λ a s. (ok (f a s), s))).0 ≡ ok b
      → (a : A) × (m.0 ≡ ok a) × (b ≡ f a m.1)
  continue-eq-ok (ok a, s) b h = (a, refl, cc)
  continue-eq-ok (err e, s) b h = cc

  pub continue-eq-err :
      (m : Result A × S) (e : String)
      → (continue m (λ a s. (ok (f a s), s))).0 ≡ err e
      → m.0 ≡ err e
  continue-eq-err (ok a, s) e h = cc
  continue-eq-err (err e', s) e h = ground arith

  pub continue-ok :
      (m : Result A × S) (a : A)
      → m.0 ≡ ok a
      → (continue m (λ a s. (ok (f a s), s))).0 ≡ ok (f a m.1)
  continue-ok (ok b, s) a h = ground arith
  continue-ok (err e, s) a h = cc
