-- ===== src/Json/Reading.antt =====
-- What is read back from an object that was written.
use mathlib.Core.Option.{or_else}
use ldp_protocol.Common.{
  unwrap_or, ℕ, String, ◌≡◌, refl, ◌∙◌, Bool, true, false, Option, none, some, List, [], ◌∷◌, ◌++◌,
  map, All, option_map, arith, if◌then◌else◌, ◌==◌, inl, inr, Bool-cases, ◌<◌, ◌^◌, ltb, sym, ap,
  or_else-none, or_else_assoc,
}
use ldp_protocol.Externals.{
  Externals, JsonLaws, KindLaws, get, json, json_map, nullable, skip_none, strings,
}
use ldp_protocol.Json.{read_or, read_option, read_all, list_of}

module _ ⦃ext : Externals⦄ where
  -- The last entry of a name.
  unfoldable pub entry : List (String × ext.Value) → String → Option ext.Value
  entry [] k = none
  entry ((j, v) ∷ es) k = or_else (entry es k) (if j == k then some v else none)

  pub entry-append :
      (es ds : List (String × ext.Value)) (k : String)
      → entry (es ++ ds) k ≡ or_else (entry ds k) (entry es k)
  unfolding entry
  entry-append [] ds k = sym (or_else-none (entry ds k))
  entry-append ((j, v) ∷ es) ds k = rw (entry-append es ds k, or_else_assoc) refl

  pub entry-skip_none {ℓ} :
      {A : Type ℓ} (j : String) (write : A → ext.Value) (o : Option A) (k : String)
      → entry (skip_none j write o) k ≡ (if j == k then option_map write o else none)
  unfolding entry or_else
  entry-skip_none j write none k = ground arith
  entry-skip_none j write (some a) k = refl

  pub ruleset field_rules = (entry-append, entry-skip_none, or_else-none)

  module _ (laws : JsonLaws) where
    own :
        (b : Bool) (v : ext.Value) (o : Option ext.Value)
        → (if b then some v else o) ≡ or_else (if b then some v else none) o
    unfolding or_else
    own true v o = refl
    own false v o = refl

    pub map_get-json_map :
        (es : List (String × ext.Value)) (m : ext.Map) (k : String)
        → ext.map_get (json_map es m) k ≡ or_else (entry es k) (ext.map_get m k)
    unfolding entry or_else
    map_get-json_map [] m k = refl
    map_get-json_map ((j, v) ∷ es) m k =
        map_get-json_map es (ext.map_insert m j v) k
        ∙ (ap (or_else (entry es k))
              (laws.map_get-insert m j v k ∙ own (j == k) v (ext.map_get m k))
            ∙ sym (or_else_assoc (entry es k) (if j == k then some v else none) (ext.map_get m k)))

    pub get-json : (es : List (String × ext.Value)) (k : String) → get (json es) k ≡ entry es k
    unfolding get json
    get-json es k =
        rw (laws.as_object-object, map_get-json_map es ext.empty_map k, laws.map_get-empty)
          (or_else-none (entry es k))

  module _ {A : Type 0} (write : A → ext.Value) (read : ext.Value → Option A) where
    -- What is written is not null, and is read back.
    abbrev pub Reads : A → Type 0
    Reads a = (ext.is_null (write a) ≡ false) × (read (write a) ≡ some a)

    abbrev pub ReadsAny : Option A → Type 0
    ReadsAny none = Unit
    ReadsAny (some a) = Reads a

    -- A field that is left out where it is `none`, and one that is null there.
    pub read_option-map :
        (o : Option A) → ReadsAny o → read_option read (option_map write o) ≡ some o
    unfolding read_option
    read_option-map none h = refl
    read_option-map (some a) (full, back) = rw (full, back) refl

    pub read_option-nullable :
        KindLaws → (o : Option A) → ReadsAny o → read_option read (some (nullable write o)) ≡ some o
    unfolding read_option
    read_option-nullable kinds none h = rw kinds.is_null-null refl
    read_option-nullable kinds (some a) (full, back) = rw (full, back) refl

    -- A field that is read by its default where it is left out.
    pub read_or-map :
        ((a : A) → read (write a) ≡ some a)
        → (d : A) (o : Option A) → read_or read d (option_map write o) ≡ some (unwrap_or o d)
    read_or-map h d none = refl
    read_or-map h d (some a) = h a

    pub list_of-array :
        JsonLaws
        → (xs : List A) → All (λ a. read (write a) ≡ some a) xs
        → list_of read (ext.array (map write xs)) ≡ some xs
    unfolding list_of read_all
    list_of-array laws xs h = rw laws.as_array-array (go xs h)
      where
        go :
            (ys : List A)
            → All (λ a. read (write a) ≡ some a) ys
            → read_all read (map write ys) ≡ some ys
        go [] h = refl
        go (y ∷ ys) (back, rest) = rw (back, go ys rest) refl

  -- A u64, and an f64 that is finite.
  abbrev pub AreWords : Option ℕ → Type 0
  AreWords none = Unit
  AreWords (some n) = n < 2 ^ 64

  abbrev pub AreFinite : Option ext.Float → Type 0
  AreFinite none = Unit
  AreFinite (some x) = ext.is_finite x ≡ true

  -- An optional value that is there is not null.
  abbrev pub IsFull : Option ext.Value → Type 0
  IsFull none = Unit
  IsFull (some v) = ext.is_null v ≡ false

  module _ (laws : JsonLaws) (kinds : KindLaws) where
    Reads-text : (o : Option String) → ReadsAny ext.string ext.as_str o
    Reads-text none = tt
    Reads-text (some s) = (kinds.is_null-string s, laws.as_str-string s)

    pub read_text : (o : Option String) → read_option ext.as_str (option_map ext.string o) ≡ some o
    read_text o = read_option-map ext.string ext.as_str o (Reads-text o)

    pub read_text_nullable :
        (o : Option String) → read_option ext.as_str (some (nullable ext.string o)) ≡ some o
    read_text_nullable o = read_option-nullable ext.string ext.as_str kinds o (Reads-text o)

    pub read_texts : (xs : List String) → list_of ext.as_str (strings xs) ≡ some xs
    read_texts xs = list_of-array ext.string ext.as_str laws xs (go xs)
      where
        go : (ys : List String) → All (λ s. ext.as_str (ext.string s) ≡ some s) ys
        go [] = tt
        go (y ∷ ys) = (laws.as_str-string y, go ys)

    Reads-number : (o : Option ℕ) → AreWords o → ReadsAny ext.number ext.as_u64 o
    Reads-number none h = tt
    Reads-number (some n) h = (kinds.is_null-number n, laws.as_u64-number n h)

    pub read_number :
        (o : Option ℕ) → AreWords o → read_option ext.as_u64 (option_map ext.number o) ≡ some o
    read_number o h = read_option-map ext.number ext.as_u64 o (Reads-number o h)

    pub read_number_nullable :
        (o : Option ℕ) → AreWords o → read_option ext.as_u64 (some (nullable ext.number o)) ≡ some o
    read_number_nullable o h = read_option-nullable ext.number ext.as_u64 kinds o (Reads-number o h)

    Reads-float : (o : Option ext.Float) → AreFinite o → ReadsAny ext.float ext.as_f64 o
    Reads-float none h = tt
    Reads-float (some x) h = (kinds.is_null-float x h, kinds.as_f64-float x h)

    pub read_float :
        (o : Option ext.Float)
        → AreFinite o
        → read_option ext.as_f64 (option_map ext.float o) ≡ some o
    read_float o h = read_option-map ext.float ext.as_f64 o (Reads-float o h)

    pub read_float_nullable :
        (o : Option ext.Float)
        → AreFinite o
        → read_option ext.as_f64 (some (nullable ext.float o)) ≡ some o
    read_float_nullable o h = read_option-nullable ext.float ext.as_f64 kinds o (Reads-float o h)

    pub read_bool : (o : Option Bool) → read_option ext.as_bool (option_map ext.bool o) ≡ some o
    read_bool o = read_option-map ext.bool ext.as_bool o (go o)
      where
        go : (q : Option Bool) → ReadsAny ext.bool ext.as_bool q
        go none = tt
        go (some b) = (kinds.is_null-bool b, kinds.as_bool-bool b)
