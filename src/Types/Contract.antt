-- ===== src/Types/Contract.antt =====
-- src/types/contract.rs: delegation contracts.
pub mod Wire
use ldp_protocol.Common.{
  ℕ, String, Bool, true, false, Option, none, some, List, [], if◌then◌else◌, ◌==◌, ◌∷◌, ◌++◌,
}
use ldp_protocol.Externals.{json, skip_none, strings, Externals, Entropy, utc_now, new_v4}
use ldp_protocol.Json.{required, optional, defaulted, list_of, as_u32, ◌>>=◌}

pub data FailurePolicy : Type 0 where
  fail_closed fail_open : FailurePolicy

-- `policy == FailurePolicy::FailClosed`, by the derived PartialEq.
abbrev pub is_fail_closed : FailurePolicy → Bool
is_fail_closed fail_closed = true
is_fail_closed fail_open = false

-- serde's names, under rename_all = "snake_case", and their reading.
abbrev pub policy_name : FailurePolicy → String
policy_name fail_closed = "fail_closed"
policy_name fail_open = "fail_open"

abbrev pub parse_policy : String → Option FailurePolicy
parse_policy s =
    if s == "fail_closed"
    then some fail_closed
    else if s == "fail_open"
    then some fail_open
    else none

module _ ⦃ext : Externals⦄ where
  pub record BudgetPolicy : Type 0 where
    pub max_tokens : Option ℕ
    pub max_cost_usd : Option ext.Float

  pub record PolicyEnvelope : Type 0 where
    pub failure_policy : FailurePolicy
    pub budget : Option BudgetPolicy
    pub safety_constraints : List String
    pub max_delegation_depth : Option ℕ

  -- PolicyEnvelope::default
  abbrev pub default : PolicyEnvelope
  default = record {
    failure_policy = fail_open;
    budget = none;
    safety_constraints = [];
    max_delegation_depth = none;
  }

  pub record DelegationContract : Type 0 where
    pub contract_id : String
    pub objective : String
    pub success_criteria : List String
    pub policy : PolicyEnvelope
    pub deadline : Option String
    pub created_at : String

  unfoldable pub new : String → List String → Entropy → DelegationContract × Entropy
  unfolding new_v4 utc_now
  new objective success_criteria e =
      let (id, e₁) = new_v4 e in
      let (now, e₂) = utc_now e₁ in
      (
        record {
          contract_id = id;
          objective = objective;
          success_criteria = success_criteria;
          policy = default;
          deadline = none;
          created_at = ext.to_rfc3339 now;
        },
        e₂,
      )

  unfoldable pub with_deadline : DelegationContract → String → DelegationContract
  with_deadline c deadline = record c { deadline = some deadline }

  unfoldable pub with_budget : DelegationContract → BudgetPolicy → DelegationContract
  with_budget c budget = record c { policy = record c.policy { budget = some budget } }

  unfoldable pub with_failure_policy : DelegationContract → FailurePolicy → DelegationContract
  with_failure_policy c policy = record c { policy = record c.policy { failure_policy = policy } }

  -- The derived Serialize of the three records.
  unfoldable pub budget_to_value : BudgetPolicy → ext.Value
  budget_to_value b = json (
      skip_none "max_tokens" ext.number b.max_tokens
      ++ skip_none "max_cost_usd" ext.float b.max_cost_usd)

  unfoldable pub policy_to_value : PolicyEnvelope → ext.Value
  policy_to_value p = json (
      (("failure_policy", ext.string (policy_name p.failure_policy))
        ∷ skip_none "budget" budget_to_value p.budget)
      ++ (("safety_constraints", strings p.safety_constraints)
          ∷ skip_none "max_delegation_depth" ext.number p.max_delegation_depth))

  unfoldable pub to_value : DelegationContract → ext.Value
  to_value c = json (
      (("contract_id", ext.string c.contract_id)
        ∷ ("objective", ext.string c.objective)
        ∷ ("success_criteria", strings c.success_criteria)
        ∷ ("policy", policy_to_value c.policy)
        ∷ skip_none "deadline" ext.string c.deadline)
      ++ ("created_at", ext.string c.created_at) ∷ [])

  -- The derived Deserialize of the three records.
  unfoldable pub budget_from_value : ext.Value → Option BudgetPolicy
  budget_from_value v = do
    max_tokens ← optional ext.as_u64 "max_tokens" v
    max_cost_usd ← optional ext.as_f64 "max_cost_usd" v
    some (record { max_tokens = max_tokens; max_cost_usd = max_cost_usd })

  unfoldable pub policy_from_value : ext.Value → Option PolicyEnvelope
  policy_from_value v = do
    failure_policy ← defaulted (λ x. ext.as_str x >>= parse_policy) fail_open "failure_policy" v
    budget ← optional budget_from_value "budget" v
    safety_constraints ← defaulted (list_of ext.as_str) [] "safety_constraints" v
    max_delegation_depth ← optional as_u32 "max_delegation_depth" v
    some (record {
      failure_policy = failure_policy;
      budget = budget;
      safety_constraints = safety_constraints;
      max_delegation_depth = max_delegation_depth;
    })

  unfoldable pub from_value : ext.Value → Option DelegationContract
  from_value v = do
    contract_id ← required ext.as_str "contract_id" v
    objective ← required ext.as_str "objective" v
    success_criteria ← required (list_of ext.as_str) "success_criteria" v
    policy ← defaulted policy_from_value default "policy" v
    deadline ← optional ext.as_str "deadline" v
    created_at ← required ext.as_str "created_at" v
    some (record {
      contract_id = contract_id;
      objective = objective;
      success_criteria = success_criteria;
      policy = policy;
      deadline = deadline;
      created_at = created_at;
    })
