-- ===== src/Protocol/Registry.antt =====
-- The order of the registry (src/protocol.rs): what a registration adds.
use mathlib.Core.Option.{or_else}
use text.Mathlib.Text.{starts_with}
use ldp_protocol.Common.{
  String, Bool, true, false, Option, none, some, List, [], ◌∷◌, ◌≡◌, refl, any, find, find-append,
  option_map, if◌then◌else◌, ◌==◌,
}
use ldp_protocol.Protocol.{
  Registration, ProtocolRegistry, register, adapter, handles, adapter_for_url,
}

module _ {ℓ} {A : Type ℓ} where
  option_map-or_else :
      {R : Type ℓ} (f : R → A) (o q : Option R)
      → option_map f (or_else o q) ≡ or_else (option_map f o) (option_map f q)
  unfolding or_else
  option_map-or_else f none q = refl
  option_map-or_else f (some r) q = refl

  -- The entry that `register` adds, where it passes a test.
  one :
      (test : Registration A → Bool) (r : Registration A)
      → option_map (λ r. r.adapter) (find test (r ∷ [])) ≡ (if test r then some r.adapter else none)
  unfolding find
  one test r = go (test r)
    where
      go :
          (b : Bool)
          → option_map (λ r. r.adapter) (if b then some r else none)
            ≡ (if b then some r.adapter else none)
      go true = refl
      go false = refl

  -- A registration changes a lookup by name only where no earlier one has the name, and a lookup
  -- by URL only where no earlier one has a prefix of the URL: there the new adapter is found, if
  -- it has that name or such a prefix.
  pub adapter-register :
      (registry : ProtocolRegistry A) (name : String) (a : A) (prefixes : List String)
      (asked : String)
      → (adapter (register registry name a prefixes) asked
          ≡ or_else (adapter registry asked) (if name == asked then some a else none))
        × (adapter_for_url (register registry name a prefixes) asked
            ≡ or_else
                (adapter_for_url registry asked)
                (if any (λ p. starts_with asked p) prefixes then some a else none))
  unfolding adapter adapter_for_url register
  adapter-register registry name a prefixes asked = (
    rw (find-append, option_map-or_else, one (λ r. r.name == asked)) refl,
    rw (find-append, option_map-or_else, one (handles asked)) refl,
  )
