-- ===== src/Externals.antt =====
-- What the crate uses of code that is not in the repository, as one interface: serde_json's
-- values, f64, chrono's times, uuid, HMAC-SHA256 in hex, and the constant-time comparison.
-- `clock n` and `uuid_v4 n` are the answers to the n-th call of Utc::now and Uuid::new_v4.
use ldp_protocol.Common.{
  ℕ, suc, String, Bool, true, false, Option, none, some, List, [], ◌∷◌, map, and_then, ◌≡◌, ◌↔◌, In,
  ◌<◌, ◌^◌, ◌==◌, if◌then◌else◌,
}
use ldp_protocol.Common.Int.{ℤ}

pub record Externals : Type 1 where
  -- serde_json::Value and its object maps
  pub Value : Type 0
  pub Map : Type 0
  pub null : Value
  pub bool : Bool → Value
  pub number : ℕ → Value
  pub string : String → Value
  pub array : List Value → Value
  pub object : Map → Value
  pub is_null : Value → Bool
  pub as_bool : Value → Option Bool
  pub as_u64 : Value → Option ℕ
  pub as_str : Value → Option String
  pub as_array : Value → Option (List Value)
  pub as_object : Value → Option Map
  pub empty_map : Map
  pub map_insert : Map → String → Value → Map
  pub map_get : Map → String → Option Value
  pub map_entries : Map → List (String × Value)
  -- f64 and f32
  pub Float : Type 0
  pub float_gt : Float → Float → Bool
  pub is_finite : Float → Bool
  pub float : Float → Value
  pub as_f64 : Value → Option Float
  -- chrono
  pub Time : Type 0
  pub clock : ℕ → Time
  pub to_rfc3339 : Time → String
  pub parse_from_rfc3339 : String → Option Time
  pub is_after : Time → Time → Bool
  pub seconds_since : Time → Time → ℤ
  -- uuid
  pub uuid_v4 : ℕ → String
  -- hmac, sha2 and hex; subtle
  pub hmac_sha256_hex : String → String → String
  pub ct_eq : String → String → Bool

-- What serde_json documents of the accessors that the crate calls.
pub record JsonLaws ⦃ext : Externals⦄ : Type 0 where
  pub as_u64-number : (n : ℕ) → n < 2 ^ 64 → ext.as_u64 (ext.number n) ≡ some n
  pub as_str-string : (s : String) → ext.as_str (ext.string s) ≡ some s
  pub as_array-array : (vs : List ext.Value) → ext.as_array (ext.array vs) ≡ some vs
  pub as_object-object : (m : ext.Map) → ext.as_object (ext.object m) ≡ some m
  pub map_get-empty : (k : String) → ext.map_get ext.empty_map k ≡ none
  pub map_get-insert :
      (m : ext.Map) (k : String) (v : ext.Value) (j : String)
      → ext.map_get (ext.map_insert m k v) j ≡ (if k == j then some v else ext.map_get m j)
  pub map_entries_iff :
      (m : ext.Map) (k : String) (v : ext.Value)
      → In (k, v) (ext.map_entries m) ↔ (ext.map_get m k ≡ some v)

-- What serde_json documents of which values are null, and of Booleans and finite floats.
pub record KindLaws ⦃ext : Externals⦄ : Type 0 where
  pub is_null-null : ext.is_null ext.null ≡ true
  pub is_null-bool : (b : Bool) → ext.is_null (ext.bool b) ≡ false
  pub is_null-number : (n : ℕ) → ext.is_null (ext.number n) ≡ false
  pub is_null-string : (s : String) → ext.is_null (ext.string s) ≡ false
  pub is_null-object : (m : ext.Map) → ext.is_null (ext.object m) ≡ false
  pub is_null-float : (x : ext.Float) → ext.is_finite x ≡ true → ext.is_null (ext.float x) ≡ false
  pub as_bool-bool : (b : Bool) → ext.as_bool (ext.bool b) ≡ some b
  pub as_f64-float : (x : ext.Float) → ext.is_finite x ≡ true → ext.as_f64 (ext.float x) ≡ some x

-- What subtle documents of `ct_eq` on byte slices of one length.
pub record CtEqLaws ⦃ext : Externals⦄ : Type 0 where
  pub ct_eq_iff : (s t : String) → (ext.ct_eq s t ≡ true) ↔ (s ≡ t)

-- How many times the clock was read and an identifier was made.
pub record Entropy : Type 0 where
  pub reads : ℕ
  pub uuids : ℕ

module _ ⦃ext : Externals⦄ where
  -- chrono::Utc::now()
  unfoldable pub utc_now : Entropy → ext.Time × Entropy
  utc_now e = (ext.clock e.reads, record e { reads = suc e.reads })

  -- uuid::Uuid::new_v4().to_string()
  unfoldable pub new_v4 : Entropy → String × Entropy
  new_v4 e = (ext.uuid_v4 e.uuids, record e { uuids = suc e.uuids })

  -- json!({ … }), in the order of the entries
  abbrev pub json_map : List (String × ext.Value) → ext.Map → ext.Map
  json_map [] m = m
  json_map ((k, v) ∷ r) m = json_map r (ext.map_insert m k v)

  unfoldable pub json : List (String × ext.Value) → ext.Value
  json entries = ext.object (json_map entries ext.empty_map)

  -- Value::get(key): none on what is no object
  unfoldable pub get : ext.Value → String → Option ext.Value
  get v k = and_then (ext.as_object v) (λ m. ext.map_get m k)

  -- How serde writes an Option, a list of texts, and a field under `skip_serializing_if`.
  abbrev pub nullable {ℓ} : {A : Type ℓ} → (A → ext.Value) → Option A → ext.Value
  nullable f none = ext.null
  nullable f (some a) = f a

  abbrev pub strings : List String → ext.Value
  strings xs = ext.array (map ext.string xs)

  abbrev pub skip_none {ℓ} :
      {A : Type ℓ} → String → (A → ext.Value) → Option A → List (String × ext.Value)
  skip_none k f none = []
  skip_none k f (some a) = (k, f a) ∷ []
