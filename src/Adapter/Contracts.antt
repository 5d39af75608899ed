-- ===== src/Adapter/Contracts.antt =====
-- How contracts are validated and enforced (src/adapter.rs).
use ldp_protocol.Common.{
  ℕ, ◌<◌, String, ◌≡◌, ◌≢◌, refl, sym, ◌↔◌, ◌⊎◌, inl, inr, true, false, Option, none, some, List,
  [], ◌∷◌, ◌++◌, arith, is_empty, ltb, In, is_empty-append, not-In-append, In-append_left_iff,
  In-append_right_iff, eq_iff, Bool-cases, Option-cases,
}
use ldp_protocol.Externals.{Externals, Entropy, utc_now}
use ldp_protocol.Types.Contract.{DelegationContract, BudgetPolicy}
use ldp_protocol.Types.Provenance.{Provenance}
use ldp_protocol.Adapter.{
  deadline_violations, token_violations, cost_violations, budget_violations, validate_contract,
}

module _ ⦃ext : Externals⦄ where
  -- The deadline parses and the clock, read once, is past it.
  abbrev pub IsLate : DelegationContract → Entropy → Type 0
  IsLate c e =
      (d : String) × (t : ext.Time) × (c.deadline ≡ some d)
      × (ext.parse_from_rfc3339 d ≡ some t)
      × (ext.is_after (ext.clock e.reads) t ≡ true)

  -- The contract has a budget of tokens, and more are reported as used.
  abbrev pub IsOverTokens : DelegationContract → Provenance → Type 0
  IsOverTokens c p =
      (b : BudgetPolicy) × (most : ℕ) × (used : ℕ) × (c.policy.budget ≡ some b)
      × (b.max_tokens ≡ some most)
      × (p.tokens_used ≡ some used)
      × (most < used)

  -- The contract has a budget of cost, and a higher cost is reported.
  abbrev pub IsOverCost : DelegationContract → Provenance → Type 0
  IsOverCost c p =
      (b : BudgetPolicy) × (most : ext.Float) × (used : ext.Float) × (c.policy.budget ≡ some b)
      × (b.max_cost_usd ≡ some most)
      × (p.cost_usd ≡ some used)
      × (ext.float_gt used most ≡ true)

  infixl 4 ◌⨾◌
  ◌⨾◌ : {P Q R : Type 0} → (P ↔ Q) → (Q ↔ R) → P ↔ R
  ◌⨾◌ f g = (λ m. g.0 (f.0 m), λ m. f.1 (g.1 m))

  -- A part of the list: its code if a condition holds, and nothing otherwise.
  abbrev Flags : String → Type 0 → List String → Type 0
  Flags code P part = (part ≡ []) × (¬ P) ⊎ (part ≡ code ∷ []) × P

  Flags-In :
      (code : String) (P : Type 0) (part : List String) → Flags code P part → In code part ↔ P
  Flags-In code P part (inl (empty, refuted)) =
      (λ m. absurd (rw empty at m), λ h. absurd (refuted h))
  Flags-In code P part (inr (one, holds)) = (λ m. holds, λ h. rw one (inl refl))

  Flags-not-In :
      (code other : String) (P : Type 0) (part : List String)
      → other ≢ code
      → Flags code P part
      → ¬ In other part
  Flags-not-In code other P part ne (inl (empty, _)) = λ m. rw empty at m
  Flags-not-In code other P part ne (inr (one, _)) =
      λ m. let m' : In other (code ∷ []) = rw one at m in elim m' [ inl e ↦ ne e | inr r ↦ r ]

  late≢tokens : ◌≢◌ {A = String} "deadline_exceeded" "budget_tokens_exceeded"
  late≢tokens q = ground (arith, (eq_iff "deadline_exceeded" "budget_tokens_exceeded").1 q)

  late≢cost : ◌≢◌ {A = String} "deadline_exceeded" "budget_cost_exceeded"
  late≢cost q = ground (arith, (eq_iff "deadline_exceeded" "budget_cost_exceeded").1 q)

  tokens≢cost : ◌≢◌ {A = String} "budget_tokens_exceeded" "budget_cost_exceeded"
  tokens≢cost q = ground (arith, (eq_iff "budget_tokens_exceeded" "budget_cost_exceeded").1 q)

  Flags-IsLate :
      (c : DelegationContract) (e : Entropy)
      → Flags "deadline_exceeded" (IsLate c e) (deadline_violations c.deadline e).0
  unfolding deadline_violations utc_now
  Flags-IsLate c e = go c.deadline refl
    where
      go :
          (deadline : Option String)
          → c.deadline ≡ deadline
          → Flags "deadline_exceeded" (IsLate c e) (deadline_violations deadline e).0
      go none q = inl (refl, λ (d, t, h, r, late). cc)
      go (some d) q = elim (Option-cases (ext.parse_from_rfc3339 d)) [
        | inl unread ↦ rw (unread, deadline_violations) (inl (refl, λ (d', t, h, r, late). cc))
        | inr (t, read) ↦
            rw (read, deadline_violations)
              (elim (Bool-cases (ext.is_after (ext.clock e.reads) t)) [
                | inl late ↦ rw late (inr (refl, (d, t, q, read, late)))
                | inr early ↦ rw early (inl (refl, λ (d', t', h, r, late). cc))
              ])
      ]

  -- The part of a budget, where the contract has one.
  abbrev token_part : Option BudgetPolicy → Provenance → List String
  token_part none p = []
  token_part (some b) p = token_violations b.max_tokens p.tokens_used

  abbrev cost_part : Option BudgetPolicy → Provenance → List String
  cost_part none p = []
  cost_part (some b) p = cost_violations b.max_cost_usd p.cost_usd

  budget_parts :
      (b : Option BudgetPolicy) (p : Provenance)
      → budget_violations b p ≡ token_part b p ++ cost_part b p
  budget_parts none p = refl
  budget_parts (some b) p = refl

  Flags-IsOverTokens :
      (c : DelegationContract) (p : Provenance)
      → Flags "budget_tokens_exceeded" (IsOverTokens c p) (token_part c.policy.budget p)
  Flags-IsOverTokens c p = budget c.policy.budget refl
    where
      go :
          (b : BudgetPolicy) (most used : Option ℕ)
          → c.policy.budget ≡ some b
          → b.max_tokens ≡ most
          → p.tokens_used ≡ used
          → Flags "budget_tokens_exceeded" (IsOverTokens c p) (token_violations most used)
      go b none used h m u = inl (refl, λ (b', most', used', h', m', u', lt). cc)
      go b (some most) none h m u = inl (refl, λ (b', most', used', h', m', u', lt). cc)
      go b (some most) (some used) h m u = elim (Bool-cases (ltb most used)) [
        | inl over ↦ rw over (inr (refl, (b, most, used, h, m, u, ground arith)))
        | inr under ↦ rw under (inl (refl, λ (b', most', used', h', m', u', lt). ground arith))
      ]

      budget :
          (b : Option BudgetPolicy)
          → c.policy.budget ≡ b
          → Flags "budget_tokens_exceeded" (IsOverTokens c p) (token_part b p)
      budget none h = inl (refl, λ (b, most, used, h', m, u, gt). cc)
      budget (some b) h = go b b.max_tokens p.tokens_used h refl refl

  Flags-IsOverCost :
      (c : DelegationContract) (p : Provenance)
      → Flags "budget_cost_exceeded" (IsOverCost c p) (cost_part c.policy.budget p)
  Flags-IsOverCost c p = budget c.policy.budget refl
    where
      go :
          (b : BudgetPolicy) (most used : Option ext.Float)
          → c.policy.budget ≡ some b
          → b.max_cost_usd ≡ most
          → p.cost_usd ≡ used
          → Flags "budget_cost_exceeded" (IsOverCost c p) (cost_violations most used)
      go b none used h m u = inl (refl, λ (b', most', used', h', m', u', gt). cc)
      go b (some most) none h m u = inl (refl, λ (b', most', used', h', m', u', gt). cc)
      go b (some most) (some used) h m u = elim (Bool-cases (ext.float_gt used most)) [
        | inl over ↦ rw over (inr (refl, (b, most, used, h, m, u, over)))
        | inr under ↦ rw under (inl (refl, λ (b', most', used', h', m', u', gt). cc))
      ]

      budget :
          (b : Option BudgetPolicy)
          → c.policy.budget ≡ b
          → Flags "budget_cost_exceeded" (IsOverCost c p) (cost_part b p)
      budget none h = inl (refl, λ (b, most, used, h', m, u, gt). cc)
      budget (some b) h = go b b.max_cost_usd p.cost_usd h refl refl

  module _ (c : DelegationContract) (p : Provenance) (e : Entropy) where
    -- Which codes the validation reports.
    abbrev pub Reports : List String → Type 0
    Reports codes =
        (In "deadline_exceeded" codes ↔ IsLate c e)
        × (In "budget_tokens_exceeded" codes ↔ IsOverTokens c p)
        × (In "budget_cost_exceeded" codes ↔ IsOverCost c p)

    parts-Reports :
        (late tokens cost : List String)
        → Flags "deadline_exceeded" (IsLate c e) late
        → Flags "budget_tokens_exceeded" (IsOverTokens c p) tokens
        → Flags "budget_cost_exceeded" (IsOverCost c p) cost
        → Reports (late ++ (tokens ++ cost))
    parts-Reports late tokens cost f g h = (
      In-append_left_iff _ late (tokens ++ cost) (
            not-In-append _ tokens cost (Flags-not-In _ _ _ tokens late≢tokens g)
              (Flags-not-In _ _ _ cost late≢cost h))
          ⨾ Flags-In _ _ late f,
      In-append_right_iff _ late (tokens ++ cost)
            (Flags-not-In _ _ _ late (λ q. late≢tokens (sym q)) f)
          ⨾ In-append_left_iff _ tokens cost (Flags-not-In _ _ _ cost tokens≢cost h)
          ⨾ Flags-In _ _ tokens g,
      In-append_right_iff _ late (tokens ++ cost)
            (Flags-not-In _ _ _ late (λ q. late≢cost (sym q)) f)
          ⨾ In-append_right_iff _ tokens cost
              (Flags-not-In _ _ _ tokens (λ q. tokens≢cost (sym q)) g)
          ⨾ Flags-In _ _ cost h,
    )

    -- Each violation is reported exactly when it holds: the deadline parses and the clock is past
    -- it; the contract has a budget of tokens and more are reported as used; it has a budget of cost
    -- and a higher one is reported.
    pub validate_contract-Reports : Reports (validate_contract c p e).0
    unfolding validate_contract
    validate_contract-Reports =
        rw budget_parts
          (parts-Reports _ _ _ (Flags-IsLate c e) (Flags-IsOverTokens c p) (Flags-IsOverCost c p))

    abbrev pub IsViolated : Type 0
    IsViolated = IsLate c e ⊎ IsOverTokens c p ⊎ IsOverCost c p

    abbrev Nonempty : (P : Type 0) (part : List String) → Type 0
    Nonempty P part = (is_empty part ≡ true) × (¬ P) ⊎ (is_empty part ≡ false) × P

    Flags-Nonempty :
        (code : String) (P : Type 0) (part : List String) → Flags code P part → Nonempty P part
    Flags-Nonempty code P part (inl (empty, refuted)) = inl (rw empty (refl, refuted))
    Flags-Nonempty code P part (inr (one, holds)) = inr (rw one (refl, holds))

    parts_violated :
        (P Q R : Type 0) (xs ys zs : List String)
        → Nonempty P xs
        → Nonempty Q ys
        → Nonempty R zs
        → (is_empty (xs ++ (ys ++ zs)) ≡ false) ↔ P ⊎ Q ⊎ R
    parts_violated P Q R xs ys zs f g h =
        rw (is_empty-append xs (ys ++ zs), is_empty-append ys zs) (ground arith)

    -- Some violation is reported exactly when one holds.
    pub validate_contract_violated_iff : (is_empty (validate_contract c p e).0 ≡ false) ↔ IsViolated
    unfolding validate_contract
    validate_contract_violated_iff = rw budget_parts (
        parts_violated _ _ _ _ _ _ (Flags-Nonempty _ _ _ (Flags-IsLate c e))
          (Flags-Nonempty _ _ _ (Flags-IsOverTokens c p))
          (Flags-Nonempty _ _ _ (Flags-IsOverCost c p)))
