-- ===== src/Common/Lists.antt =====
-- Slices and iterators: the methods of Vec and Iterator that the code calls, with native lengths.
use Prim.Native.Nat.{ℕ, zero, suc, ◌≤◌}
use mathlib.Core.Path.{◌≡◌, refl}
use mathlib.Core.Logic.{◌↔◌, ◌⊎◌, inl, inr}
use mathlib.Core.Bool.{Bool, true, false, ◌&&◌, ◌||◌}
use mathlib.Core.Option.{Option, none, some, or_else}
use mathlib.Core.List.{List, [], ◌∷◌, ◌++◌}
use native.Mathlib.Omega.{arith}
use ldp_protocol.Common.Tests.{if◌then◌else◌, Bool-cases}

module _ {ℓ} {A : Type ℓ} where
  abbrev pub length : List A → ℕ
  length [] = 0
  length (x ∷ xs) = suc (length xs)

  abbrev pub is_empty : List A → Bool
  is_empty [] = true
  is_empty (x ∷ xs) = false

  -- Iterator::find
  unfoldable pub find : (A → Bool) → List A → Option A
  find p [] = none
  find p (x ∷ xs) = if p x then some x else find p xs

  -- Iterator::filter
  unfoldable pub filter : (A → Bool) → List A → List A
  filter p [] = []
  filter p (x ∷ xs) = let rest = filter p xs in if p x then x ∷ rest else rest

  -- Iterator::any
  unfoldable pub any : (A → Bool) → List A → Bool
  any p [] = false
  any p (x ∷ xs) = p x || any p xs

  abbrev pub All {κ} : (A → Type κ) → List A → Type κ
  All P [] = Unit
  All P (x ∷ xs) = P x × All P xs

module _ {ℓ} {A : Type ℓ} (p : A → Bool) where
  -- A filtered list holds only what passes the test.
  pub All-filter : (xs : List A) → All (λ x. p x ≡ true) (filter p xs)
  unfolding filter
  All-filter [] = tt
  All-filter (x ∷ xs) = ground (arith, All-filter xs)

-- Being a member, kept as a computed sum.
abbrev pub In : {A : Type 0} → A → List A → Type 0
In a [] = ⊥
In a (x ∷ xs) = (a ≡ x) ⊎ In a xs

-- What passes the test stays in the filtered list.
pub In-filter :
    {A : Type 0} (p : A → Bool) (a : A) (xs : List A) → In a xs → p a ≡ true → In a (filter p xs)
unfolding filter
In-filter p a [] h k = h
In-filter p a (x ∷ xs) h k = elim (Bool-cases (p x)) [
  | inl kept ↦ rw kept (elim h [ inl e ↦ inl e | inr r ↦ inr (In-filter p a xs r k) ])
  | inr dropped ↦ rw dropped (elim h [ inl e ↦ absurd (cc) | inr r ↦ In-filter p a xs r k ])
]

module _ {ℓ} {A : Type ℓ} where
  abbrev pub take : ℕ → List A → List A
  take zero xs = []
  take (suc n) [] = []
  take (suc n) (x ∷ xs) = x ∷ take n xs

pub is_empty-append :
    {A : Type 0} (xs ys : List A) → is_empty (xs ++ ys) ≡ (is_empty xs && is_empty ys)
is_empty-append [] ys = refl
is_empty-append (x ∷ xs) ys = refl

pub find-append {ℓ} :
    {A : Type ℓ} (t : A → Bool) (xs ys : List A)
    → find t (xs ++ ys) ≡ or_else (find t xs) (find t ys)
unfolding find or_else
find-append t [] ys = refl
find-append t (x ∷ xs) ys = elim (Bool-cases (t x)) [
  | inl same ↦ rw same refl
  | inr other ↦ rw other (find-append t xs ys)
]

-- Less is in a shorter front.
pub In-take-take :
    {A : Type 0} (a : A) (n m : ℕ) (xs : List A)
    → n ≤ m
    → In a (take n xs)
    → In a (take n (take m xs))
In-take-take a zero m xs h k = k
In-take-take a (suc n) zero xs h k = absurd (omega arith)
In-take-take a (suc n) (suc m) [] h k = k
In-take-take a (suc n) (suc m) (x ∷ xs) h (inl e) = inl e
In-take-take a (suc n) (suc m) (x ∷ xs) h (inr r) = inr (In-take-take a n m xs (omega arith) r)

pub In-take : {A : Type 0} (a : A) (n : ℕ) (xs : List A) → In a (take n xs) → In a xs
In-take a zero xs h = absurd h
In-take a (suc n) [] h = h
In-take a (suc n) (x ∷ xs) (inl e) = inl e
In-take a (suc n) (x ∷ xs) (inr r) = inr (In-take a n xs r)

module _ {A : Type 0} (a : A) where
  pub not-In-append : (xs ys : List A) → ¬ In a xs → ¬ In a ys → ¬ In a (xs ++ ys)
  not-In-append [] ys f g m = g m
  not-In-append (x ∷ xs) ys f g (inl e) = f (inl e)
  not-In-append (x ∷ xs) ys f g (inr r) = not-In-append xs ys (λ m. f (inr m)) g r

  pub In-append_left_iff : (xs ys : List A) → ¬ In a ys → In a (xs ++ ys) ↔ In a xs
  In-append_left_iff [] ys g = (λ m. g m, λ m. absurd m)
  In-append_left_iff (x ∷ xs) ys g = (
    elim [ inl e ↦ inl e | inr r ↦ inr ((In-append_left_iff xs ys g).0 r) ],
    elim [ inl e ↦ inl e | inr r ↦ inr ((In-append_left_iff xs ys g).1 r) ],
  )

  pub In-append_right_iff : (xs ys : List A) → ¬ In a xs → In a (xs ++ ys) ↔ In a ys
  In-append_right_iff [] ys g = (λ m. m, λ m. m)
  In-append_right_iff (x ∷ xs) ys g =
      let rest = In-append_right_iff xs ys (λ m. g (inr m)) in
      (elim [ inl e ↦ absurd (g (inl e)) | inr r ↦ rest.0 r ], λ m. inr (rest.1 m))

module _ {ℓ} {A : Type ℓ} where
  pub or_else-none : (o : Option A) → or_else o none ≡ o
  unfolding or_else
  or_else-none none = refl
  or_else-none (some a) = refl

  pub or_else_assoc : (a b c : Option A) → or_else (or_else a b) c ≡ or_else a (or_else b c)
  unfolding or_else
  or_else_assoc none b c = refl
  or_else_assoc (some a) b c = refl

pub All-intro {ℓ κ} : {A : Type ℓ} {P : A → Type κ} → ((a : A) → P a) → (xs : List A) → All P xs
All-intro h [] = tt
All-intro h (x ∷ xs) = (h x, All-intro h xs)

pub All-append {ℓ κ} :
    {A : Type ℓ} (P : A → Type κ) (xs ys : List A) → All P xs → All P ys → All P (xs ++ ys)
All-append P [] ys h h' = h'
All-append P (x ∷ xs) ys h h' = (h.0, All-append P xs ys h.1 h')
