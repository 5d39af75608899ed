-- ===== src/Json.antt =====
-- How the derived Deserialize of serde (src/types) reads the fields of a struct from an object, by
-- the attributes of the field. An error's text is dropped. serde also takes an array of a struct's
-- fields in their order for the struct; that form, which no Serialize writes, is left out.
pub mod Reading
use ldp_protocol.Common.{
  ℕ, String, Bool, Option, none, some, List, [], ◌∷◌, and_then, option_map, ltb, if◌then◌else◌, ◌^◌,
}
use ldp_protocol.Externals.{Externals, get}

infixl 5 ◌>>=◌
abbrev pub ◌>>=◌ {ℓ κ} : {A : Type ℓ} {B : Type κ} → Option A → (A → Option B) → Option B
◌>>=◌ o f = and_then o f

module _ ⦃ext : Externals⦄ where
  -- A field without an attribute, of a type that is no Option.
  abbrev pub required {ℓ} : {A : Type ℓ} → (ext.Value → Option A) → String → ext.Value → Option A
  required read k v = get v k >>= read

  -- A field under `#[serde(default)]`.
  abbrev pub read_or {ℓ} : {A : Type ℓ} → (ext.Value → Option A) → A → Option ext.Value → Option A
  read_or read d none = some d
  read_or read d (some v) = read v

  abbrev pub defaulted {ℓ} :
      {A : Type ℓ} → (ext.Value → Option A) → A → String → ext.Value → Option A
  defaulted read d k v = read_or read d (get v k)

  -- An Option: `none` where the field is absent or null.
  unfoldable pub read_option {ℓ} :
      {A : Type ℓ} → (ext.Value → Option A) → Option ext.Value → Option (Option A)
  read_option read none = some none
  read_option read (some v) = if ext.is_null v then some none else option_map some (read v)

  abbrev pub optional {ℓ} :
      {A : Type ℓ} → (ext.Value → Option A) → String → ext.Value → Option (Option A)
  optional read k v = read_option read (get v k)

  unfoldable pub read_all {ℓ} :
      {A : Type ℓ} → (ext.Value → Option A) → List ext.Value → Option (List A)
  read_all read [] = some []
  read_all read (v ∷ vs) = read v >>= λ a. read_all read vs >>= λ rest. some (a ∷ rest)

  -- A Vec.
  unfoldable pub list_of {ℓ} : {A : Type ℓ} → (ext.Value → Option A) → ext.Value → Option (List A)
  unfolding read_all
  list_of read v = ext.as_array v >>= read_all read

  -- A serde_json::Value as written and as read, and a number of type u32.
  abbrev pub as_is : ext.Value → ext.Value
  as_is v = v

  abbrev pub as_value : ext.Value → Option ext.Value
  as_value v = some v

  abbrev pub as_u32 : ext.Value → Option ℕ
  as_u32 v = ext.as_u64 v >>= λ n. if ltb n (2 ^ 32) then some n else none
