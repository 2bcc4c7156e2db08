-- ===== src/PlanTool/Laws.antt =====
-- The plan that the tool leaves, against the plan that the log gives.
use park_smart_harness.Base.{
  ◌≡◌, refl, sym, ap, ◌∙◌, ◌↔◌, ◌≢◌, Option, none, some, List, [], ◌∷◌, ◌++◌, arith, Option-cases,
  Bool-cases, if◌then◌else◌, ◌==◌, inl, inr,
}
use park_smart_harness.Json.{Json, get}
use park_smart_harness.Message.{Message, ToolCallReq, assistant}
use park_smart_harness.Plan.{PlanState, replace, last_items, last_snapshot, derive_plan}
use park_smart_harness.Plan.Laws.{derive_plan-append}
use park_smart_harness.Tools.{ToolContext, Host}
use park_smart_harness.Dispatch.{execute_tool, attempt}
use park_smart_harness.PlanTool.{plan_tool, plan_handler}

-- The call brings no items, or items that can be iterated.
abbrev pub IsReadable : Option Json → Type 0
IsReadable none = Unit
IsReadable (some v) = replace v ≢ none

snapshot_of : (m : Message) → m.role ≡ assistant → last_snapshot (m ∷ []) ≡ last_items m.tool_calls
unfolding last_snapshot
snapshot_of m a = rw a refl

-- What a turn's last items, if it has any, make of the plan that the log gave.
abbrev derived : Option Json → Option PlanState → Option PlanState
derived none old = old
derived (some v) old = replace v

logged :
    (ms : List Message) (m : Message)
    → m.role ≡ assistant
    → derive_plan (ms ++ m ∷ []) ≡ derived (last_items m.tool_calls) (derive_plan ms)
logged ms m a =
    derive_plan-append ms (m ∷ [])
    ∙ ap (λ o. elim o as (λ _. Option PlanState) [ none ↦ derive_plan ms | some v ↦ replace v ])
        (snapshot_of m a)
    ∙ by_items (last_items m.tool_calls)
  where
    by_items :
        (o : Option Json)
        → (elim o as (λ _. Option PlanState) [ none ↦ derive_plan ms | some v ↦ replace v ])
          ≡ derived o (derive_plan ms)
    by_items none = refl
    by_items (some v) = refl

module _ {W : Type 0} where
  -- The plan that a call of the tool leaves.
  abbrev pub plan_after : Option Json → Host W → PlanState
  plan_after none h = h.plan
  plan_after (some v) h = elim (replace v) [ none ↦ h.plan | some p ↦ p ]

  execute_tool-plan_tool :
      (call : ToolCallReq) (ctx : ToolContext) (h : Host W)
      → (execute_tool call plan_tool ctx h).1.plan ≡ plan_after (get "items" call.arguments) h
  unfolding execute_tool attempt plan_handler
  execute_tool-plan_tool call ctx h = elim (Option-cases (get "items" call.arguments)) [
    | inl e ↦ ground (arith, e)
    | inr (v, e) ↦ elim (Option-cases (replace v)) [
      | inl n ↦ ground (arith, e, n)
      | inr (p, r) ↦ ground (arith, e, r)
    ]
  ]

  -- The plan calls of a turn, one after the other; the other calls leave the plan alone.
  abbrev pub run_plan_calls : List ToolCallReq → ToolContext → Host W → Host W
  run_plan_calls [] ctx h = h
  run_plan_calls (c ∷ cs) ctx h =
      run_plan_calls cs ctx (if c.name == "plan" then (execute_tool c plan_tool ctx h).1 else h)

  same_after :
      (v : Json) (h k : Host W) → replace v ≢ none → plan_after (some v) h ≡ plan_after (some v) k
  same_after v h k n = elim (Option-cases (replace v)) [
    | inl e ↦ absurd (n e)
    | inr (p, e) ↦ ground (arith, e)
  ]

  abbrev step : ToolCallReq → ToolContext → Host W → Host W
  step c ctx h = if c.name == "plan" then (execute_tool c plan_tool ctx h).1 else h

  step_lem :
      (c : ToolCallReq) (ctx : ToolContext) (h : Host W)
      → (step c ctx h).plan
        ≡ plan_after (if c.name == "plan" then get "items" c.arguments else none) h
  step_lem c ctx h = elim (Bool-cases (c.name == "plan")) [
    | inl e ↦ rw e (execute_tool-plan_tool c ctx h)
    | inr n ↦ rw n refl
  ]

  run_plan_calls_lem :
      (cs : List ToolCallReq) (ctx : ToolContext) (h : Host W)
      → IsReadable (last_items cs)
      → (run_plan_calls cs ctx h).plan ≡ plan_after (last_items cs) h
  unfolding last_items
  run_plan_calls_lem [] ctx h r = refl
  run_plan_calls_lem (c ∷ cs) ctx h r = elim (Option-cases (last_items cs)) [
    | inl e ↦
        run_plan_calls_lem cs ctx (step c ctx h) (rw e tt)
        ∙ ap (λ o. plan_after o (step c ctx h)) e
        ∙ rw e (step_lem c ctx h)
    | inr (v, e) ↦
        let ok = rw e at r in
        run_plan_calls_lem cs ctx (step c ctx h) (rw e ok)
        ∙ ap (λ o. plan_after o (step c ctx h)) e
        ∙ rw e (same_after v (step c ctx h) h ok)
  ]

  settled :
      (o : Option Json) (old : Option PlanState) (h : Host W)
      → old ≡ some h.plan
      → (IsReadable o → derived o old ≡ some (plan_after o h))
        × ((p : PlanState) → derived o old ≡ some p → IsReadable o)
        × (¬ IsReadable o → derived o old ≡ none)
  settled none old h d = (λ _. d, λ p e. tt, λ n. absurd (n tt))
  settled (some v) old h d = elim (Option-cases (replace v)) [
    | inl e ↦ (λ r. absurd (r e), λ p q r. cc, λ n. e)
    | inr (p, e) ↦ (λ r. ground (arith, e), λ q k r. cc, λ n. absurd (n (λ r. cc)))
  ]

  -- Where the plan in memory is the one that the log gives, and a turn of the model is logged and
  -- its plan calls are run in their order, the two agree again exactly if the last plan call of
  -- the turn that brings items brings ones that can be iterated. If it does not, the log gives no
  -- plan at all, while the plan in memory stays.
  pub plan_of_log_agrees_iff :
      (ms : List Message) (m : Message) (ctx : ToolContext) (h : Host W)
      → m.role ≡ assistant
      → derive_plan ms ≡ some h.plan
      → ((derive_plan (ms ++ m ∷ []) ≡ some (run_plan_calls m.tool_calls ctx h).plan)
          ↔ IsReadable (last_items m.tool_calls))
        × (¬ IsReadable (last_items m.tool_calls) → derive_plan (ms ++ m ∷ []) ≡ none)
  plan_of_log_agrees_iff ms m ctx h a d =
      let (to, from, lost) = settled (last_items m.tool_calls) (derive_plan ms) h d in
      let log = logged ms m a in
      (
        (
          λ e. from _ (sym log ∙ e),
          λ r. log ∙ to r ∙ ap some (sym (run_plan_calls_lem m.tool_calls ctx h r)),
        ),
        λ n. log ∙ lost n,
      )
