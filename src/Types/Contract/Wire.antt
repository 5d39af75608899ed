-- ===== src/Types/Contract/Wire.antt =====
-- A delegation contract (src/types/contract.rs) is read back from JSON as it was written.
use mathlib.Core.Option.{or_else}
use ldp_protocol.Common.{ℕ, ◌≡◌, refl, Option, none, some, false, option_map, ◌<◌, ◌^◌, arith}
use ldp_protocol.Externals.{Externals, JsonLaws, KindLaws, json}
use ldp_protocol.Json.{as_u32, read_option}
use ldp_protocol.Json.Reading.{
  entry, field_rules, get-json, read_option-map, ReadsAny, read_text, read_texts, read_number,
  read_float, AreWords, AreFinite,
}
use ldp_protocol.Types.Contract.{
  FailurePolicy, fail_closed, fail_open, policy_name, parse_policy, BudgetPolicy, PolicyEnvelope,
  DelegationContract, to_value, from_value, budget_to_value, budget_from_value, policy_to_value,
  policy_from_value,
}

parse_policy-policy_name : (p : FailurePolicy) → parse_policy (policy_name p) ≡ some p
parse_policy-policy_name fail_closed = refl
parse_policy-policy_name fail_open = refl

module _ ⦃ext : Externals⦄ where
  -- What the Rust types hold: a u64, a u32, and an f64 that is finite.
  abbrev pub IsBudget : BudgetPolicy → Type 0
  IsBudget b = AreWords b.max_tokens × AreFinite b.max_cost_usd

  abbrev pub AreBudgets : Option BudgetPolicy → Type 0
  AreBudgets none = Unit
  AreBudgets (some b) = IsBudget b

  abbrev pub AreDepths : Option ℕ → Type 0
  AreDepths none = Unit
  AreDepths (some n) = n < 2 ^ 32

  abbrev pub IsContract : DelegationContract → Type 0
  IsContract c = AreBudgets c.policy.budget × AreDepths c.policy.max_delegation_depth

  module _ (laws : JsonLaws) (kinds : KindLaws) where
    budget_from_value-to_value :
        (b : BudgetPolicy) → IsBudget b → budget_from_value (budget_to_value b) ≡ some b
    unfolding budget_from_value budget_to_value entry or_else
    budget_from_value-to_value b (words, finite) =
        simp
          (
            get-json laws,
            field_rules,
            read_number laws kinds b.max_tokens words,
            read_float laws kinds b.max_cost_usd finite,
          )
          refl

    is_null-budget : (b : BudgetPolicy) → ext.is_null (budget_to_value b) ≡ false
    unfolding budget_to_value json
    is_null-budget b = kinds.is_null-object _

    read_budget :
        (o : Option BudgetPolicy)
        → AreBudgets o
        → read_option budget_from_value (option_map budget_to_value o) ≡ some o
    read_budget o h = read_option-map budget_to_value budget_from_value o (go o h)
      where
        go : (q : Option BudgetPolicy) → AreBudgets q → ReadsAny budget_to_value budget_from_value q
        go none h = tt
        go (some b) h = (is_null-budget b, budget_from_value-to_value b h)

    read_depth :
        (o : Option ℕ) → AreDepths o → read_option as_u32 (option_map ext.number o) ≡ some o
    read_depth o h = read_option-map ext.number as_u32 o (go o h)
      where
        go : (q : Option ℕ) → AreDepths q → ReadsAny ext.number as_u32 q
        go none h = tt
        go (some n) h =
            (kinds.is_null-number n, rw (laws.as_u64-number n (omega arith)) (ground arith))

    policy_from_value-to_value :
        (p : PolicyEnvelope)
        → AreBudgets p.budget
        → AreDepths p.max_delegation_depth
        → policy_from_value (policy_to_value p) ≡ some p
    unfolding policy_from_value policy_to_value entry or_else
    policy_from_value-to_value p budget depth =
        simp
          (
            get-json laws,
            field_rules,
            laws.as_str-string,
            parse_policy-policy_name,
            read_budget p.budget budget,
            read_texts laws kinds,
            read_depth p.max_delegation_depth depth,
          )
          refl

    pub from_value-to_value :
        (c : DelegationContract) → IsContract c → from_value (to_value c) ≡ some c
    unfolding from_value to_value entry or_else
    from_value-to_value c (budget, depth) =
        simp
          (
            get-json laws,
            field_rules,
            laws.as_str-string,
            policy_from_value-to_value c.policy budget depth,
            read_text laws kinds,
            read_texts laws kinds,
          )
          refl
