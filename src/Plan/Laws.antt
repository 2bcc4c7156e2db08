-- ===== src/Plan/Laws.antt =====
-- Which plan a message log gives, and when it gives none.
use park_smart_harness.Base.{
  ◌≡◌, refl, ap, ◌∙◌, Option, none, some, List, [], ◌∷◌, ◌++◌, if◌then◌else◌,
}
use park_smart_harness.Json.{Json}
use park_smart_harness.Message.{Message}
use park_smart_harness.Plan.{
  PlanState, replace, last_items, last_snapshot, derive_plan, is_assistant,
}

-- The newer of two snapshots.
abbrev pub newer : Option Json → Option Json → Option Json
newer (some v) old = some v
newer none old = old

last_snapshot-append :
    (ms ns : List Message) → last_snapshot (ms ++ ns) ≡ newer (last_snapshot ns) (last_snapshot ms)
unfolding last_snapshot
last_snapshot-append [] ns = no_older (last_snapshot ns)
  where
    no_older : (o : Option Json) → o ≡ newer o none
    no_older none = refl
    no_older (some v) = refl
last_snapshot-append (m ∷ ms) ns =
    rw (last_snapshot-append ms ns) (by_new m (last_snapshot ns) (last_snapshot ms))
  where
    by_new :
        (m : Message) (o l : Option Json)
        → (elim (newer o l) as (λ _. Option Json) [
          | none ↦ if is_assistant m.role then last_items m.tool_calls else none
          | some v ↦ some v
        ])
          ≡ newer o (elim l as (λ _. Option Json) [
            | none ↦ if is_assistant m.role then last_items m.tool_calls else none
            | some v ↦ some v
          ])
    by_new m (some v) l = refl
    by_new m none none = refl
    by_new m none (some v) = refl

-- The plan of a longer log: the last plan call of the new messages replaces it, and without one
-- it stays. So a plan call whose items cannot be iterated makes the derivation fail, and it fails
-- for every longer log until another plan call comes.
pub derive_plan-append :
    (ms ns : List Message)
    → derive_plan (ms ++ ns) ≡ elim (last_snapshot ns) as (λ _. Option PlanState) [
      | none ↦ derive_plan ms
      | some v ↦ replace v
    ]
unfolding derive_plan
derive_plan-append ms ns =
    ap (λ o. elim o as (λ _. Option PlanState) [ none ↦ some [] | some v ↦ replace v ])
      (last_snapshot-append ms ns)
    ∙ by_new (last_snapshot ns)
  where
    by_new :
        (o : Option Json)
        → (elim (newer o (last_snapshot ms)) as (λ _. Option PlanState) [
          | none ↦ some []
          | some v ↦ replace v
        ])
          ≡ (elim o as (λ _. Option PlanState) [ none ↦ derive_plan ms | some v ↦ replace v ])
    by_new none = refl
    by_new (some v) = refl
