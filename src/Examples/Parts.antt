-- ===== src/Examples/Parts.antt =====
-- The theorems on the plan, the budget and the control stub at concrete inputs.
use park_smart_harness.Base.{ℕ, ◌≡◌, ◌↔◌, refl, true, false, none, some, List, [], ◌∷◌, ◌++◌}
use park_smart_harness.Json.{null, str, arr, obj, cons, nil, entry, end}
use park_smart_harness.Message.{Message, plain, assistant}
use park_smart_harness.Budget.{exhausted, grace_available}
use park_smart_harness.Budget.Laws.{consumes, graces, spend_all, exhausted_for_good}
use park_smart_harness.Plan.{replace, plan_items, plan_item, last_items, derive_plan}
use park_smart_harness.PlanTool.{plan_handler}
use park_smart_harness.PlanTool.Laws.{IsReadable, run_plan_calls, plan_of_log_agrees_iff}
use park_smart_harness.Tools.{Host}
use park_smart_harness.Dispatch.{execute_tool, attempt}
use park_smart_harness.Examples.{budget, asks, ctx_of, host}

-- A plan call without items, and then a turn without a plan.
abbrev bad_plan : List Message
bad_plan =
    record (plain assistant "") {
      tool_calls = record { id = "p"; name = "plan"; arguments = entry "items" null end } ∷ [];
    }
    ∷ []

abbrev started : Host ℕ
started = host 0

-- One turn that writes a plan of one step, and then calls the tool without items.
abbrev planning : Message
planning = record (plain assistant "") {
  tool_calls =
      record {
        id = "p";
        name = "plan";
        arguments =
            entry "items"
              (arr (cons (obj (entry "id" (str "1") (entry "content" (str "look") end))) nil)) end;
      }
      ∷ record { id = "q"; name = "plan"; arguments = end }
      ∷ [];
}

planned :
    (run_plan_calls planning.tool_calls (ctx_of []) started).plan
    ≡ record { id = str "1"; content = str "look"; status = str "todo"; result = null; spec = null }
      ∷ []
unfolding execute_tool attempt plan_handler replace plan_items plan_item
planned = refl

no_plan_yet : derive_plan [] ≡ some started.plan
unfolding derive_plan
no_plan_yet = refl

plan_of_log_agrees_iff_example :
    ((derive_plan (planning ∷ [])
        ≡ some (run_plan_calls planning.tool_calls (ctx_of []) started).plan)
      ↔ IsReadable (last_items planning.tool_calls))
    × (¬ IsReadable (last_items planning.tool_calls) → derive_plan (planning ∷ []) ≡ none)
plan_of_log_agrees_iff_example =
    plan_of_log_agrees_iff [] planning (ctx_of []) started refl no_plan_yet

still_failing : derive_plan (bad_plan ++ asks ∷ []) ≡ none
unfolding derive_plan
still_failing = refl

used_up : exhausted (record budget { iters = 5; grace_used = true }) ≡ true
unfolding exhausted
used_up = refl

exhausted_for_good_example :
    (exhausted
        (spend_all (graces ∷ consumes 1 7 ∷ []) (record budget { iters = 5; grace_used = true }))
      ≡ true)
    × (grace_available
          (spend_all (graces ∷ consumes 1 7 ∷ []) (record budget { iters = 5; grace_used = true }))
        ≡ false)
exhausted_for_good_example =
    exhausted_for_good (graces ∷ consumes 1 7 ∷ []) (record budget { iters = 5; grace_used = true })
      used_up refl
