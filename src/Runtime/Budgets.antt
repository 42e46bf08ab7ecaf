-- ===== src/Runtime/Budgets.antt =====
-- src/xenopus/runtime/budget.py: the limits of a budget and the policy of retries. Durations are
-- numbers of microseconds.
use mathlib.Core.Bool.{decide}
use xenopus.Prelude.{
  ℕ, ◌-◌, ◌*◌, ◌^◌, Option, none, some, List, [], ◌∷◌, Result, ok, err, leb, if◌then◌else◌,
}

pub data BudgetDimension : Type 0 where
  tokens time cost tool_calls child_agents : BudgetDimension

BudgetDimension-discrete : Discrete BudgetDimension
BudgetDimension-discrete = hlevel

-- Limits are not negative; `none` is unlimited.
pub record Budget : Type 0 where
  pub limits : List (BudgetDimension × Option ℕ)

abbrev or_unlimited : Option (Option ℕ) → Option ℕ
or_unlimited none = none
or_unlimited (some limit) = limit

lookup_limit : BudgetDimension → List (BudgetDimension × Option ℕ) → Option (Option ℕ)
unfolding BudgetDimension-discrete decide
lookup_limit d [] = none
lookup_limit d ((e, limit) ∷ limits) =
    if decide (BudgetDimension-discrete e d) then some limit else lookup_limit d limits

unfoldable pub limit_for : BudgetDimension → Budget → Option ℕ
unfolding lookup_limit
limit_for d budget = or_unlimited (lookup_limit d budget.limits)

unfoldable pub unlimited : Budget
unlimited = record { limits = [] }

pub record RetryPolicy : Type 0 where
  pub max_attempts : ℕ
  pub backoff_base : ℕ

pub data PolicyError : Type 0 where
  no_attempt : PolicyError

-- `RetryPolicy.__post_init__`; a base is not negative.
unfoldable pub policy_post_init : RetryPolicy → Result PolicyError RetryPolicy
policy_post_init policy = if leb policy.max_attempts 0 then err no_attempt else ok policy

-- `backoff_seconds`: `max(0, attempt - 1)` is `-`, which stops at 0.
unfoldable pub backoff : RetryPolicy → ℕ → ℕ
backoff policy attempt = policy.backoff_base * 2 ^ (attempt - 1)
