-- ===== src/Types/Payload/Negotiation.antt =====
-- What `negotiate_payload_mode` (src/types/payload.rs) promises to the two sides.
use ldp_protocol.Common.{
  ◌≡◌, ap, ◌↔◌, ◌⊎◌, inl, inr, true, false, none, some, List, [], ◌∷◌, ◌++◌, arith, find, In, All,
  Bool-cases, Option-cases, All-filter, In-filter,
}
use ldp_protocol.Types.Payload.{
  PayloadMode, text, semantic_frame, embedding_hints, semantic_graph, mode_eq_iff, is_implemented,
  contains, is_common, is_fallback, negotiate_payload_mode,
}

-- A mode that the code implements and the responder lists.
abbrev pub IsCommon : List PayloadMode → PayloadMode → Type 0
IsCommon responder mode = (is_implemented mode ≡ true) × In mode responder

contains_iff : (modes : List PayloadMode) (m : PayloadMode) → (contains modes m ≡ true) ↔ In m modes
unfolding contains
contains_iff [] m = ground arith
contains_iff (x ∷ xs) m = ground (arith, mode_eq_iff m x, contains_iff xs m)

module _ (responder : List PayloadMode) where
  is_common_iff : (m : PayloadMode) → (is_common responder m ≡ true) ↔ IsCommon responder m
  is_common_iff m = ground (arith, contains_iff responder m)

  -- The first common mode of the list, or none of the list is common.
  abbrev pub FirstCommon : List PayloadMode → PayloadMode → Type 0
  FirstCommon prefs m =
      (before : List PayloadMode) × (after : List PayloadMode) × (prefs ≡ before ++ m ∷ after)
      × All (λ x. ¬ IsCommon responder x) before
      × IsCommon responder m

  not-IsCommon : (m : PayloadMode) → is_common responder m ≡ false → ¬ IsCommon responder m
  not-IsCommon m miss common = cc ((is_common_iff m).1 common)

  find-FirstCommon :
      (prefs : List PayloadMode) (m : PayloadMode)
      → find (is_common responder) prefs ≡ some m
      → FirstCommon prefs m
  unfolding find
  find-FirstCommon [] m e = cc
  find-FirstCommon (x ∷ xs) m e = elim (Bool-cases (is_common responder x)) [
    | inl hit ↦
        let q : x ≡ m = ground arith in
        ([], xs, ap (λ y. y ∷ xs) q, tt, rw (← q) ((is_common_iff x).0 hit))
    | inr miss ↦
        let (before, after, split, skipped, common) = find-FirstCommon xs m (ground arith) in
        (x ∷ before, after, ap (◌∷◌ x) split, (not-IsCommon x miss, skipped), common)
  ]

  find-none :
      (prefs : List PayloadMode)
      → find (is_common responder) prefs ≡ none
      → All (λ x. ¬ IsCommon responder x) prefs
  unfolding find
  find-none [] e = tt
  find-none (x ∷ xs) e =
      let miss : is_common responder x ≡ false = ground arith in
      (not-IsCommon x miss, find-none xs (ground arith))

  -- The agreed mode is the first of the initiator's preferences that is implemented and that the
  -- responder lists; where there is none, it is Text, also if the responder does not list it.
  pub negotiate_payload_mode_lem :
      (prefs : List PayloadMode)
      → FirstCommon prefs (negotiate_payload_mode prefs responder).mode
        ⊎ ((negotiate_payload_mode prefs responder).mode ≡ text)
          × All (λ x. ¬ IsCommon responder x) prefs
  unfolding negotiate_payload_mode
  negotiate_payload_mode_lem prefs = elim (Option-cases (find (is_common responder) prefs)) [
    | inl e ↦ inr (ground arith, find-none prefs e)
    | inr (m, e) ↦ inl (rw e (find-FirstCommon prefs m e))
  ]

  -- The mode of a session is always one that the code implements.
  pub is_implemented-negotiate_payload_mode :
      (prefs : List PayloadMode)
      → is_implemented (negotiate_payload_mode prefs responder).mode ≡ true
  is_implemented-negotiate_payload_mode prefs = elim (negotiate_payload_mode_lem prefs) [
    | inl (_, _, _, _, common) ↦ common.0
    | inr (fallback, _) ↦ rw fallback
  ]

  is_fallback_text :
      (agreed m : PayloadMode)
      → is_implemented agreed ≡ true
      → is_fallback responder agreed m ≡ true
      → (m ≡ text) × (agreed ≡ semantic_frame) × In text responder
  is_fallback_text text m h k = ground arith
  is_fallback_text semantic_frame m h k = ground (arith, contains_iff responder m)
  is_fallback_text embedding_hints m h k = cc
  is_fallback_text semantic_graph m h k = cc

  All-Text :
      (agreed : PayloadMode) (modes : List PayloadMode)
      → is_implemented agreed ≡ true
      → All (λ m. is_fallback responder agreed m ≡ true) modes
      → All (λ m. (m ≡ text) × (agreed ≡ semantic_frame) × In text responder) modes
  All-Text agreed [] h k = tt
  All-Text agreed (m ∷ ms) h k = (is_fallback_text agreed m h k.0, All-Text agreed ms h k.1)

  -- The fallback chain never offers more than Text, and Text only below semantic frames and to a
  -- responder that lists it.
  pub fallback_chain_sound :
      (prefs : List PayloadMode)
      → All
          (λ m.
            (m ≡ text)
            × ((negotiate_payload_mode prefs responder).mode ≡ semantic_frame)
            × In text responder)
          (negotiate_payload_mode prefs responder).fallback_chain
  unfolding negotiate_payload_mode
  fallback_chain_sound prefs =
      All-Text (negotiate_payload_mode prefs responder).mode
        (negotiate_payload_mode prefs responder).fallback_chain
        (is_implemented-negotiate_payload_mode prefs)
        (All-filter (is_fallback responder (negotiate_payload_mode prefs responder).mode) prefs)

  -- A session in semantic frames can fall back to Text whenever both sides list Text.
  pub fallback_chain_complete :
      (prefs : List PayloadMode)
      → (negotiate_payload_mode prefs responder).mode ≡ semantic_frame
      → In text prefs
      → In text responder
      → In text (negotiate_payload_mode prefs responder).fallback_chain
  unfolding negotiate_payload_mode
  fallback_chain_complete prefs agreed listed supported =
      In-filter (is_fallback responder (negotiate_payload_mode prefs responder).mode) text prefs
        listed (rw agreed (ground (arith, contains_iff responder text)))

  -- The server negotiates again, from the mode that the client proposes and Text: both sides come
  -- to the same mode.
  pub negotiate_payload_mode_idem :
      (prefs : List PayloadMode)
      → let agreed = (negotiate_payload_mode prefs responder).mode in
        (negotiate_payload_mode (agreed ∷ text ∷ []) responder).mode ≡ agreed
  unfolding negotiate_payload_mode find
  negotiate_payload_mode_idem prefs = elim (negotiate_payload_mode_lem prefs) [
    | inl (_, _, _, _, common) ↦ rw ((is_common_iff _).1 common)
    | inr (fallback, _) ↦ ground arith
  ]

  -- The fallback chain offers at most Text, and Text only below semantic frames and to a responder
  -- that lists it; and in a session in semantic frames it does offer Text whenever both sides list
  -- Text.
  pub fallback_chain_lem :
      (prefs : List PayloadMode)
      → All
          (λ m.
            (m ≡ text)
            × ((negotiate_payload_mode prefs responder).mode ≡ semantic_frame)
            × In text responder)
          (negotiate_payload_mode prefs responder).fallback_chain
        × ((negotiate_payload_mode prefs responder).mode ≡ semantic_frame
            → In text prefs
            → In text responder
            → In text (negotiate_payload_mode prefs responder).fallback_chain)
  fallback_chain_lem prefs = (fallback_chain_sound prefs, fallback_chain_complete prefs)
