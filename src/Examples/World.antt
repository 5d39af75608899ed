-- ===== src/Examples/World.antt =====
-- Concrete stand-ins for what is outside the repository: small functions that meet the interfaces
-- and the laws, so that the model can be run.
use ldp_protocol.Common.{
  ap, sym, inl, inr, Bool-cases, ℕ, suc, ◌-◌, String, ◌≡◌, refl, ◌↔◌, Bool, true, false, Option,
  none, some, List, [], ◌∷◌, arith, ltb, take, In, ◌==◌, eq_iff, option_map, if◌then◌else◌, ok,
}
use ldp_protocol.Common.HashMap.{remove}
use ldp_protocol.Common.Int.{ℤ, pos, negsuc}
use ldp_protocol.Common.Text.{◌<>◌, to_string}
use ldp_protocol.Externals.{Externals, CtEqLaws, JsonLaws, KindLaws}
use ldp_protocol.Types.Contract
use ldp_protocol.Types.Contract.{DelegationContract, FailurePolicy, fail_closed}
use ldp_protocol.Types.Messages.{LdpEnvelope}
use ldp_protocol.Replay.{LruCrate}
use ldp_protocol.Replay.Window.{LruLaws, without}
use ldp_protocol.Client.{Http, HttpResult, send_failed}
use ldp_protocol.Server.{echo_identity}

-- JSON, with arrays and objects as chains of their entries.
pub data Json : Type 0 where
  null nil empty : Json
  bool : Bool → Json
  number : ℕ → Json
  string : String → Json
  item : Json → Json → Json
  field : String → Json → Json → Json

abbrev array : List Json → Json
array [] = nil
array (v ∷ vs) = item v (array vs)

abbrev is_null : Json → Bool
is_null null = true
is_null _ = false

abbrev as_bool : Json → Option Bool
as_bool (bool b) = some b
as_bool _ = none

abbrev as_u64 : Json → Option ℕ
as_u64 (number n) = some n
as_u64 _ = none

abbrev as_str : Json → Option String
as_str (string s) = some s
as_str _ = none

abbrev as_array : Json → Option (List Json)
as_array nil = some []
as_array (item v vs) = option_map (◌∷◌ v) (as_array vs)
as_array _ = none

-- An object map as the list of its entries, the last one that was put first.
abbrev object : List (String × Json) → Json
object [] = empty
object ((k, v) ∷ m) = field k v (object m)

abbrev as_object : Json → Option (List (String × Json))
as_object empty = some []
as_object (field k v m) = option_map (◌∷◌ (k, v)) (as_object m)
as_object _ = none

abbrev map_get : List (String × Json) → String → Option Json
map_get [] j = none
map_get ((k, v) ∷ m) j = let rest = map_get m j in if k == j then some v else rest

-- The entries that are not shadowed by later ones.
abbrev map_entries : List (String × Json) → List (String × Json)
map_entries [] = []
map_entries ((k, v) ∷ m) = (k, v) ∷ remove (map_entries m) k

In-remove :
    (es : List (String × Json)) (k j : String) (v : Json)
    → In (j, v) (remove es k) ↔ (In (j, v) es × (k == j) ≡ false)
unfolding remove
In-remove [] k j v = ground arith
In-remove ((i, w) ∷ es) k j v = elim (Bool-cases (i == k)) [
  | inl same ↦ rw same (
    λ h. let (x, ne) = (In-remove es k j v).0 h in (inr x, ne),
    λ (h, ne). elim h [
      | inl e ↦ absurd (ground (arith, ap (λ x. x.0) e, eq_iff i k, eq_iff k j))
      | inr x ↦ (In-remove es k j v).1 (x, ne)
    ],
  )
  | inr other ↦ rw other (
    λ h. elim h [
      | inl e ↦ (inl e, ground (arith, ap (λ x. x.0) e, eq_iff i k, eq_iff k j))
      | inr x ↦ let (y, ne) = (In-remove es k j v).0 x in (inr y, ne)
    ],
    λ (h, ne). elim h [ inl e ↦ inl e | inr x ↦ inr ((In-remove es k j v).1 (x, ne)) ],
  )
]

map_entries_iff :
    (m : List (String × Json)) (k : String) (v : Json)
    → In (k, v) (map_entries m) ↔ (map_get m k ≡ some v)
map_entries_iff [] k v = ground arith
map_entries_iff ((j, w) ∷ m) k v = elim (Bool-cases (j == k)) [
  | inl same ↦ rw same (
    λ h. elim h [
      | inl e ↦ ap (λ x. some x.1) (sym e)
      | inr x ↦ absurd (ground (arith, (In-remove (map_entries m) j k v).0 x))
    ],
    λ h. inl (pair (sym ((eq_iff j k).0 same)) (ground (arith, h))),
  )
  | inr other ↦ rw other (
    λ h. elim h [
      | inl e ↦ absurd (ground (arith, ap (λ x. x.0) e, eq_iff j k))
      | inr x ↦ (map_entries_iff m k v).0 ((In-remove (map_entries m) j k v).0 x).0
    ],
    λ h. inr ((In-remove (map_entries m) j k v).1 ((map_entries_iff m k v).1 h, other)),
  )
]
  where
    pair : k ≡ j → v ≡ w → ◌≡◌ {A = String × Json} (k, v) (j, w)
    pair p q = rw (p, q) refl

-- Times are counts of seconds, of which "50" and "100" can be read.
abbrev parse_time : String → Option ℕ
parse_time s = if s == "50" then some 50 else if s == "100" then some 100 else none

abbrev seconds_since : ℕ → ℕ → ℤ
seconds_since a b = if ltb a b then negsuc (b - a - 1) else pos (a - b)

instance abbrev pub toy : Externals
toy = record {
  Value = Json;
  Map = List (String × Json);
  null = null;
  bool = bool;
  number = number;
  string = string;
  array = array;
  object = object;
  is_null = is_null;
  as_bool = as_bool;
  as_u64 = as_u64;
  as_str = as_str;
  as_array = as_array;
  as_object = as_object;
  empty_map = [];
  map_insert = λ m k v. (k, v) ∷ m;
  map_get = map_get;
  map_entries = map_entries;
  Float = ℕ;
  float_gt = λ a b. ltb b a;
  is_finite = λ x. true;
  float = number;
  as_f64 = as_u64;
  Time = ℕ;
  clock = λ n. suc (suc n);
  to_rfc3339 = to_string;
  parse_from_rfc3339 = parse_time;
  is_after = λ a b. ltb b a;
  seconds_since = seconds_since;
  uuid_v4 = λ n. "id-" <> to_string n;
  hmac_sha256_hex = λ secret input. secret <> "/" <> input;
  ct_eq = λ s t. s == t;
}

as_array-array : (vs : List Json) → as_array (array vs) ≡ some vs
as_array-array [] = refl
as_array-array (v ∷ vs) = rw (as_array-array vs) refl

as_object-object : (m : List (String × Json)) → as_object (object m) ≡ some m
as_object-object [] = refl
as_object-object ((k, v) ∷ m) = rw (as_object-object m) refl

pub toy_json : JsonLaws
toy_json = record {
  as_u64-number = λ n h. refl;
  as_str-string = λ s. refl;
  as_array-array = as_array-array;
  as_object-object = as_object-object;
  map_get-empty = λ k. refl;
  map_get-insert = λ m k v j. refl;
  map_entries_iff = map_entries_iff;
}

is_null-object : (m : List (String × Json)) → is_null (object m) ≡ false
is_null-object [] = refl
is_null-object ((k, v) ∷ m) = refl

pub toy_kinds : KindLaws
toy_kinds = record {
  is_null-null = refl;
  is_null-bool = λ b. refl;
  is_null-number = λ n. refl;
  is_null-string = λ s. refl;
  is_null-object = is_null-object;
  is_null-float = λ x h. refl;
  as_bool-bool = λ b. refl;
  as_f64-float = λ x h. refl;
}

abbrev pub toy_ct_eq : CtEqLaws
toy_ct_eq = record { ct_eq_iff = eq_iff }

-- The cache as its keys, from the most recently used one, and its capacity.
pub record Cache : Type 0 where
  pub keys : List String
  pub limit : ℕ

abbrev pub holds : String → List String → Bool
holds k [] = false
holds k (j ∷ js) = let rest = holds k js in if j == k then true else rest

pub holds_iff : (k : String) (js : List String) → (holds k js ≡ true) ↔ In k js
holds_iff k [] = ground arith
holds_iff k (j ∷ js) = ground (arith, eq_iff j k, holds_iff k js)

instance abbrev pub toy_lru : LruCrate
toy_lru = record {
  LruCache = Cache;
  with_capacity = λ n. record { keys = []; limit = n };
  contains = λ c k. holds k c.keys;
  put = λ c k. record { keys = take c.limit (k ∷ without k c.keys); limit = c.limit };
}

abbrev pub toy_lru_laws : LruLaws
toy_lru_laws = record {
  entries = λ c. c.keys;
  capacity = λ c. c.limit;
  entries-with_capacity = λ n. refl;
  capacity-with_capacity = λ n. refl;
  contains_iff = λ c k. holds_iff k c.keys;
  entries-put = λ c k. refl;
  capacity-put = λ c k. refl;
}

-- The network as the answers that it still has.
abbrev post : List LdpEnvelope → HttpResult LdpEnvelope × List LdpEnvelope
post [] = (send_failed "connection refused", [])
post (e ∷ es) = (HttpResult.response 200 "200 OK" none (ok e), es)

instance abbrev pub toy_http : Http
toy_http = record {
  Net = List LdpEnvelope;
  post = λ url e net. post net;
  get_card = λ url net.
      (HttpResult.response 200 "200 OK" none (ok (echo_identity "ldp:echo" "Echo")), net);
  get_value = λ url net. (send_failed "connection refused", net);
}

abbrev pub contract : DelegationContract
contract = record {
  contract_id = "c";
  objective = "summarise";
  success_criteria = [];
  policy = Contract.default;
  deadline = none;
  created_at = "50";
}
