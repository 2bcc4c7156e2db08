-- ===== src/Budget/Laws.antt =====
-- The budget survives a restart, and only grows.
use park_smart_harness.Base.{
  ℕ, ◌+◌, ◌≡◌, refl, true, false, Option, none, some, arith, List, [], ◌∷◌,
}
use park_smart_harness.Budget.{
  BudgetTracker, consume, exhausted, over, grace_available, use_grace, snapshot, restore,
}

-- A snapshot that is restored into a new tracker gives the old one back, also if the new tracker
-- has been used before; only the limits are the new tracker's own.
restore-snapshot : (t u : BudgetTracker) → restore (snapshot t) u ≡ record t { limits = u.limits }
unfolding restore snapshot
restore-snapshot t u = refl

-- What a run does to the tracker.
pub data Spending : Type 0 where
  consumes : ℕ → ℕ → Spending
  graces : Spending

unfoldable pub spend_all : List Spending → BudgetTracker → BudgetTracker
spend_all [] t = t
spend_all (consumes i n ∷ ss) t = spend_all ss (consume i n t)
spend_all (graces ∷ ss) t = spend_all ss (use_grace t)

over_more : (l : Option ℕ) (n m : ℕ) → over l n ≡ true → over l (n + m) ≡ true
over_more none n m h = h
over_more (some k) n m h = ground arith

consume-exhausted :
    (i n : ℕ) (t : BudgetTracker) → exhausted t ≡ true → exhausted (consume i n t) ≡ true
unfolding exhausted consume
consume-exhausted i n t h = ground (arith, over_more t.limits.token_budget t.tokens n)

-- A budget that is exhausted with its grace turn used stays so, whatever is spent: no run of it
-- gets another turn.
pub exhausted_for_good :
    (ss : List Spending) (t : BudgetTracker)
    → exhausted t ≡ true
    → t.grace_used ≡ true
    → (exhausted (spend_all ss t) ≡ true) × (grace_available (spend_all ss t) ≡ false)
unfolding spend_all grace_available exhausted consume use_grace
exhausted_for_good [] t e g = (e, ground arith)
exhausted_for_good (consumes i n ∷ ss) t e g =
    exhausted_for_good ss (consume i n t) (consume-exhausted i n t e) g
exhausted_for_good (graces ∷ ss) t e g = exhausted_for_good ss (use_grace t) e refl
