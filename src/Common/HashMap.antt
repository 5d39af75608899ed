-- ===== src/Common/HashMap.antt =====
-- std::collections::HashMap<String, V> as an association list that holds a key at most once.
-- The order in which Rust iterates over a map is unspecified; the model uses the list's order.
use Prim.Native.String.{String}
use mathlib.Core.Path.{◌≡◌, refl, sym}
use mathlib.Core.Logic.{◌≢◌, ◌⊎◌, inl, inr}
use mathlib.Core.Bool.{Bool, true, false}
use mathlib.Core.Option.{Option, none, some}
use mathlib.Core.List.{List, [], ◌∷◌, map}
use native.Mathlib.Omega.{arith}
use text.Mathlib.Text.{◌==◌}
use text.Mathlib.TextEquality.{eq_iff}
use text.Mathlib.TextPositions.{eq_refl}
use ldp_protocol.Common.Tests.{if◌then◌else◌, Bool-cases}
use ldp_protocol.Common.Lists.{In, All}

abbrev pub HashMap {ℓ} : Type ℓ → Type ℓ
HashMap V = List (String × V)

module _ {ℓ} {V : Type ℓ} where
  unfoldable pub get : HashMap V → String → Option V
  get [] k = none
  get ((j, v) ∷ m) k = if j == k then some v else get m k

  unfoldable pub remove : HashMap V → String → HashMap V
  remove [] k = []
  remove ((j, v) ∷ m) k = let rest = remove m k in if j == k then rest else (j, v) ∷ rest

  unfoldable pub insert : HashMap V → String → V → HashMap V
  unfolding remove
  insert m k v = (k, v) ∷ remove m k

  abbrev pub keys : HashMap V → List String
  keys = map (λ e. e.0)

  abbrev pub values : HashMap V → List V
  values = map (λ e. e.1)

  pub get-remove :
      (m : HashMap V) (k j : String) → get (remove m k) j ≡ (if k == j then none else get m j)
  unfolding get remove
  get-remove [] k j = ground arith
  get-remove ((i, v) ∷ m) k j = ground (arith, get-remove m k j, eq_iff i k, eq_iff i j, eq_iff k j)

  pub get-insert :
      (m : HashMap V) (k : String) (v : V) (j : String)
      → get (insert m k v) j ≡ (if k == j then some v else get m j)
  unfolding get insert
  get-insert m k v j = ground (arith, get-remove m k j)

  pub get-insert_self : (m : HashMap V) (k : String) (v : V) → get (insert m k v) k ≡ some v
  get-insert_self m k v = simp (get-insert, eq_refl)

  pub get-insert_ne :
      (m : HashMap V) (k : String) (v : V) (j : String) → k ≢ j → get (insert m k v) j ≡ get m j
  get-insert_ne m k v j h = ground (arith, get-insert m k v j, eq_iff k j)

  pub get-remove_self : (m : HashMap V) (k : String) → get (remove m k) k ≡ none
  get-remove_self m k = simp (get-remove, eq_refl)

  pub get-remove_ne : (m : HashMap V) (k j : String) → k ≢ j → get (remove m k) j ≡ get m j
  get-remove_ne m k j h = ground (arith, get-remove m k j, eq_iff k j)

module _ {ℓ κ} {V : Type ℓ} (P : String × V → Type κ) where
  -- What holds of every entry of a map holds after a removal.
  pub All-remove : (m : HashMap V) (k : String) → All P m → All P (remove m k)
  unfolding remove
  All-remove [] k h = tt
  All-remove ((j, v) ∷ m) k h = keep (j == k) (All-remove m k h.1)
    where
      keep : (b : Bool) → All P (remove m k) → All P (if b then remove m k else (j, v) ∷ remove m k)
      keep true r = r
      keep false r = (h.0, r)

  -- And after an insertion, if it holds of the new entry.
  pub All-insert : (m : HashMap V) (k : String) (v : V) → All P m → P (k, v) → All P (insert m k v)
  unfolding insert
  All-insert m k v h p = (p, All-remove m k h)

  -- What is read from a map satisfies what holds of all its entries.
  pub All-get : (m : HashMap V) (k : String) (v : V) → All P m → get m k ≡ some v → P (k, v)
  unfolding get
  All-get [] k v h e = cc
  All-get ((j, w) ∷ m) k v h e = elim (Bool-cases (j == k)) [
    | inl same ↦
        let p : j ≡ k = (eq_iff j k).0 same in let q : w ≡ v = ground arith in rw (← p, ← q) h.0
    | inr other ↦ All-get m k v h.1 (ground arith)
  ]

-- A key is among the keys of a map, or it has no entry.
pub mem-keys-cases : {V : Type 0} (m : HashMap V) (k : String) → In k (keys m) ⊎ (get m k ≡ none)
unfolding get
mem-keys-cases [] k = inr refl
mem-keys-cases ((j, v) ∷ m) k = elim (Bool-cases (j == k)) [
  | inl same ↦ inl (inl (sym ((eq_iff j k).0 same)))
  | inr other ↦ elim (mem-keys-cases m k) [
    | inl later ↦ inl (inr later)
    | inr gone ↦ inr (ground arith)
  ]
]

pub ruleset map_laws = (get-remove, get-insert)
