-- ===== src/Types/Identity/Metadata.antt =====
-- The metadata of an identity card (src/types/identity.rs) as an object of JSON: the same texts under
-- the same names are read back, in whatever order.
use mathlib.Core.Option.{or_else}
use ldp_protocol.Common.{
  String, ◌≡◌, refl, ◌∙◌, sym, ap, ◌⊎◌, inl, inr, Bool-cases, none, some, List, [], ◌∷◌, All, In,
  arith, ◌==◌, eq_iff, or_else-none,
}
use ldp_protocol.Common.HashMap
use ldp_protocol.Common.HashMap.{HashMap, insert}
use ldp_protocol.Externals.{Externals, JsonLaws, json, json_map}
use ldp_protocol.Json.Reading.{entry, map_get-json_map}
use ldp_protocol.Types.Identity.{text_entries, read_entries, texts_from_value}

-- A map that holds a name at most once.
abbrev pub IsMap : HashMap String → Type 0
IsMap m = All (λ e. HashMap.get m e.0 ≡ some e.1) m

module _ ⦃ext : Externals⦄ (laws : JsonLaws) (md : HashMap String) where
  -- An entry that is the map's.
  abbrev IsOf : String × ext.Value → Type 0
  IsOf (k, v) = (s : String) × (v ≡ ext.string s) × (HashMap.get md k ≡ some s)

  entry-cases :
      (es : HashMap String) (k : String)
      → All (λ e. HashMap.get md e.0 ≡ some e.1) es
      → ((entry (text_entries es) k ≡ none) × (HashMap.get es k ≡ none))
        ⊎ ((s : String) × (entry (text_entries es) k ≡ some (ext.string s))
            × (HashMap.get md k ≡ some s))
  unfolding entry or_else HashMap.get
  entry-cases [] k h = inl (refl, refl)
  entry-cases ((j, v) ∷ es) k (held, rest) = elim (entry-cases es k rest) [
    | inr (s, found, got) ↦ inr (s, rw found refl, got)
    | inl (absent, missing) ↦ elim (Bool-cases (j == k)) [
      | inl same ↦
          let p : j ≡ k = (eq_iff j k).0 same in inr (v, rw (absent, same) refl, rw (← p) held)
      | inr other ↦ inl (rw (absent, other) refl, rw (other) missing)
    ]
  ]

  -- What is read of entries that are the map's.
  record Reads (es : List (String × ext.Value)) : Type 0 where
    map : HashMap String
    run : read_entries es ≡ some map
    sound : (j : String) → (HashMap.get map j ≡ none) ⊎ (HashMap.get map j ≡ HashMap.get md j)
    complete : (j : String) (v : ext.Value) → In (j, v) es → HashMap.get map j ≡ HashMap.get md j

  read_entries-Reads : (es : List (String × ext.Value)) → All IsOf es → Reads es
  unfolding read_entries HashMap.get
  read_entries-Reads [] h = record {
    map = [];
    run = refl;
    sound = λ j. inl refl;
    complete = λ j v i. absurd i;
  }
  read_entries-Reads ((k, v) ∷ es) ((s, same, held), rest) =
      let r = read_entries-Reads es rest in
      let m = insert r.map k s in
      let mine : (j : String) → k ≡ j → HashMap.get m j ≡ HashMap.get md j =
        λ j p. rw (← p) (HashMap.get-insert_self r.map k s ∙ sym held) in
      record {
        map = m;
        run = rw (same, laws.as_str-string, r.run) refl;
        sound = λ j. elim (Bool-cases (k == j)) [
          | inl here ↦ inr (mine j ((eq_iff k j).0 here))
          | inr other ↦ rw (HashMap.get-insert, other) (r.sound j)
        ];
        complete = λ j w i. elim (Bool-cases (k == j)) [
          | inl here ↦ mine j ((eq_iff k j).0 here)
          | inr other ↦ elim i [
            | inl e ↦ mine j (sym (ap (λ x. x.0) e))
            | inr later ↦ rw (HashMap.get-insert, other) (r.complete j w later)
          ]
        ];
      }

  -- What holds of the members of a list holds of all of it.
  All-In :
      {P : String × ext.Value → Type 0} (es : List (String × ext.Value))
      → ((e : String × ext.Value) → In e es → P e)
      → All P es
  All-In [] h = tt
  All-In (e ∷ es) h = (h e (inl refl), All-In es (λ d i. h d (inr i)))

  -- The object that is written.
  abbrev written : ext.Map
  written = json_map (text_entries md) ext.empty_map

  map_get-written : (k : String) → ext.map_get written k ≡ entry (text_entries md) k
  map_get-written k =
      rw (map_get-json_map laws (text_entries md) ext.empty_map k, laws.map_get-empty)
        (or_else-none (entry (text_entries md) k))

  written-IsOf : IsMap md → (e : String × ext.Value) → In e (ext.map_entries written) → IsOf e
  written-IsOf h (k, v) i =
      let stored : entry (text_entries md) k ≡ some v =
        sym (map_get-written k) ∙ (laws.map_entries_iff written k v).0 i in
      elim (entry-cases md k h) [
        | inl (absent, _) ↦ absurd (ground (arith, absent, stored))
        | inr (s, found, got) ↦ (s, ground (arith, found, stored), got)
      ]

  -- A map of texts that is written is read back as a map with the same lookups.
  pub texts_from_value-text_entries :
      IsMap md
      → (m : HashMap String) × (texts_from_value (json (text_entries md)) ≡ some m)
        × ((j : String) → HashMap.get m j ≡ HashMap.get md j)
  unfolding json
  texts_from_value-text_entries h =
      let r =
        read_entries-Reads (ext.map_entries written)
          (All-In (ext.map_entries written) (written-IsOf h)) in
      (
        r.map,
        rw (laws.as_object-object, r.run) refl,
        λ j. elim (entry-cases md j h) [
          | inl (_, missing) ↦ elim (r.sound j) [
            | inl nothing ↦ nothing ∙ sym missing
            | inr same ↦ same
          ]
          | inr (s, found, _) ↦
              r.complete j (ext.string s)
                ((laws.map_entries_iff written j (ext.string s)).1 (map_get-written j ∙ found))
        ],
      )
