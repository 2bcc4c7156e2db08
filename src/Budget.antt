-- ===== src/Budget.antt =====
-- agent_loop/config.py and agent_loop/budget.py. Main and sub loops share one tracker.
pub mod Laws
use park_smart_harness.Base.{
  ℕ, ◌+◌, String, Bool, true, false, Option, none, some, List, ◌&&◌, not, leb, if◌then◌else◌,
}

pub record LoopBudget : Type 0 where
  pub max_iterations : ℕ
  pub token_budget : Option ℕ
  pub max_tool_failures : ℕ

pub data LoopRole : Type 0 where
  main leaf : LoopRole

-- The sampling parameters `max_tokens` and `temperature` go to the model caller, which is a
-- parameter; `model` stands for them.
pub record LoopConfig : Type 0 where
  pub model : String
  pub role : LoopRole
  pub toolset : List String
  pub budget : LoopBudget
  pub max_depth : ℕ

pub record BudgetTracker : Type 0 where
  pub limits : LoopBudget
  pub iters : ℕ
  pub tokens : ℕ
  pub grace_used : Bool

abbrev pub new_tracker : LoopBudget → BudgetTracker
new_tracker b = record { limits = b; iters = 0; tokens = 0; grace_used = false }

unfoldable pub consume : ℕ → ℕ → BudgetTracker → BudgetTracker
consume iterations tokens t = record t { iters = t.iters + iterations; tokens = t.tokens + tokens }

abbrev pub over : Option ℕ → ℕ → Bool
over none tokens = false
over (some limit) tokens = leb limit tokens

unfoldable pub exhausted : BudgetTracker → Bool
exhausted t =
    if leb t.limits.max_iterations t.iters then true else over t.limits.token_budget t.tokens

unfoldable pub grace_available : BudgetTracker → Bool
unfolding exhausted
grace_available t = exhausted t && not t.grace_used

unfoldable pub use_grace : BudgetTracker → BudgetTracker
use_grace t = record t { grace_used = true }

-- The snapshot is a dict; an older one may lack a key.
pub record Snapshot : Type 0 where
  pub iters : Option ℕ
  pub tokens : Option ℕ
  pub grace_used : Option Bool

unfoldable pub snapshot : BudgetTracker → Snapshot
snapshot t = record { iters = some t.iters; tokens = some t.tokens; grace_used = some t.grace_used }

abbrev or_else {ℓ} : {A : Type ℓ} → A → Option A → A
or_else d none = d
or_else d (some a) = a

unfoldable pub restore : Snapshot → BudgetTracker → BudgetTracker
restore s t = record t {
  iters = or_else 0 s.iters;
  tokens = or_else 0 s.tokens;
  grace_used = or_else false s.grace_used;
}
