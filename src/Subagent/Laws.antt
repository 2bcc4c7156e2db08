-- ===== src/Subagent/Laws.antt =====
-- What a sub loop reports to its caller, and which toolsets it may have.
use mathlib.Core.Option.{some-injective}
use park_smart_harness.Base.{
  suc, String, ◌≡◌, ◌≢◌, ◌↔◌, refl, sym, ap, ◌∙◌, arith, Bool-cases, inl, inr, true, false, Option,
  none, some, List, [], ◌∷◌, leb, eq_iff, eq_refl, ◌==◌,
}
use park_smart_harness.Json.{Dict}
use park_smart_harness.Exec.{Exc, ok, raised}
use park_smart_harness.Tools.{ToolResult, ToolContext, Host, returned, LoopTool, get_tool}
use park_smart_harness.Gate.{member}
use park_smart_harness.Base.Assoc.{lookup}
use park_smart_harness.Store.{Threads, latest_boundary}
use park_smart_harness.Loop.Unattended.{unattended_never_waits}
use park_smart_harness.Loop.{LoopResult, ResultStatus}
use park_smart_harness.Loop.Termination.{run_loop_ends}
use park_smart_harness.Subagent.{
  Subagent, report, too_deep, sub_call, start, sub_run, map_result, sub_handler, control_among,
  keep_control, sub_tool, make_subagent_tool, unless_refused,
}

report_ok :
    (r : LoopResult) (s : ResultStatus)
    → r.status ≡ s
    → (report s r).ok ≡ true
    → (r.status ≡ ResultStatus.completed)
      × (report s r ≡ record { ok = true; content = r.final; error = none })
unfolding report
report_ok r ResultStatus.completed e h = (e, refl)
report_ok r ResultStatus.budget_exhausted e h = cc
report_ok r ResultStatus.failed e h = cc
report_ok r ResultStatus.interrupted e h = cc
report_ok r ResultStatus.awaiting_confirmation e h = cc

module _ {W : Type 0} (a : Subagent W) where
  -- The sub loop is within its depth, its run completed, and `t` carries its final text.
  abbrev pub IsCompleted : Dict → ToolContext → Host W → ToolResult → Type 0
  IsCompleted args ctx h t =
      (leb (suc ctx.depth) a.config.max_depth ≡ true)
      × (r : LoopResult) × ((sub_run a args ctx h).0 ≡ ok (some r))
      × (r.status ≡ ResultStatus.completed)
      × (t ≡ record { ok = true; content = r.final; error = none })

  reported :
      (x : Exc (Option LoopResult)) (t : ToolResult)
      → map_result a x ≡ returned t
      → t.ok ≡ true
      → (r : LoopResult) × (x ≡ ok (some r))
        × (r.status ≡ ResultStatus.completed)
        × (t ≡ record { ok = true; content = r.final; error = none })
  unfolding map_result
  reported (ok (some r)) t e h =
      let same : report r.status r ≡ t = cc in
      let won = report_ok r r.status refl (ap ToolResult.ok same ∙ h) in
      (r, refl, won.0, sym same ∙ won.1)
  reported (ok none) t e h = cc
  reported (raised x) t e h = cc

  refused : (u t : ToolResult) → u.ok ≡ false → returned u ≡ returned t → t.ok ≡ true → ⊥
  refused u t n e h = cc

  completes :
      (r : LoopResult) (t : ToolResult)
      → r.status ≡ ResultStatus.completed
      → t ≡ record { ok = true; content = r.final; error = none }
      → map_result a (ok (some r)) ≡ returned t
  unfolding map_result report
  completes r t c d = rw (c, d) refl

  -- The tool reports a success exactly if the caller is within the sub loop's depth and the sub
  -- loop completed, and then it passes on the sub loop's final text; a sub loop that ran out of
  -- steps, failed, broke off or raised is never a success.
  pub sub_handler_succeeds_iff :
      (args : Dict) (ctx : ToolContext) (h : Host W) (t : ToolResult)
      → (((sub_handler a args ctx h).0 ≡ returned t) × (t.ok ≡ true)) ↔ IsCompleted args ctx h t
  unfolding sub_handler
  sub_handler_succeeds_iff args ctx h t = (
    λ p. elim (Bool-cases (leb (suc ctx.depth) a.config.max_depth)) [
      | inl q ↦
          let e = rw q at p.0 in
          let (r, x, c, d) = reported (sub_run a args ctx h).0 t e p.1 in (q, r, x, c, d)
      | inr q ↦ let e = rw q at p.0 in absurd (refused (too_deep a.config.max_depth) t refl e p.1)
    ],
    λ p. let (q, r, e, c, d) = p in (rw (q, e) (completes r t c d), ap ToolResult.ok d),
  )

  -- The fuel of the sub loop is enough: its run returns a result or raises, whatever its seams do.
  pub sub_run_ends :
      (args : Dict) (ctx : ToolContext) (h : Host W) → (sub_run a args ctx h).0 ≢ ok none
  unfolding sub_run sub_call
  sub_run_ends args ctx h =
      run_loop_ends (sub_call a ctx h.world) (suc a.config.budget.max_iterations) none false
        (start a args h) (omega arith)

  keep_inv :
      (n : String) (o : Option (LoopTool (W × Threads))) (later : Option String)
      → keep_control a n o later ≡ none
      → (later ≡ none) × ((t : LoopTool (W × Threads)) → o ≡ some t → t.is_control ≡ false)
  keep_inv n none later h = (h, λ t e. cc)
  keep_inv n (some u) later h = elim (Bool-cases u.is_control) [
    | inl q ↦ let no : some n ≡ none = rw q at h in cc
    | inr q ↦ (rw q at h, λ t e. rw (sym (some-injective _ _ e)) q)
  ]

  keep_none :
      (n : String) (o : Option (LoopTool (W × Threads))) (later : Option String)
      → later ≡ none
      → ((t : LoopTool (W × Threads)) → o ≡ some t → t.is_control ≡ false)
      → keep_control a n o later ≡ none
  keep_none n none later e h = e
  keep_none n (some u) later e h = rw (h u refl) e

  no_control :
      (ns : List String)
      → control_among a ns ≡ none
      → (n : String) (t : LoopTool (W × Threads)) → member n ns ≡ true
      → get_tool a.registry n ≡ some t
      → t.is_control ≡ false
  unfolding control_among
  no_control [] h n t m e = cc
  no_control (k ∷ ns) h n t m e =
      let kept = keep_inv k (get_tool a.registry k) (control_among a ns) h in
      elim (Bool-cases (k == n)) [
        | inl q ↦ kept.1 t (rw ((eq_iff k n).0 q) e)
        | inr q ↦ no_control ns kept.0 n t (rw q at m) e
      ]

  or_later : (k n : String) (ns : List String) → member n ns ≡ true → member n (k ∷ ns) ≡ true
  or_later k n ns m = ground (arith, m)

  none_among :
      (ns : List String)
      → ((n : String) (t : LoopTool (W × Threads))
          → member n ns ≡ true
          → get_tool a.registry n ≡ some t
          → t.is_control ≡ false)
      → control_among a ns ≡ none
  unfolding control_among
  none_among [] h = refl
  none_among (k ∷ ns) h =
      keep_none k (get_tool a.registry k) (control_among a ns)
        (none_among ns λ n t m e. h n t (or_later k n ns m) e) λ t e. h k t (rw (eq_refl k) refl) e

  made : (o : Option String) → unless_refused a o ≡ ok (sub_tool a) → o ≡ none
  made none e = refl
  made (some n) e = cc

  -- The sub loop never ends as suspended, whatever its gate says of the calls: the last case of the
  -- report is not reached.
  pub sub_run_never_waits :
      (args : Dict) (ctx : ToolContext) (h : Host W) (r : LoopResult)
      → (sub_run a args ctx h).0 ≡ ok (some r)
      → r.status ≢ ResultStatus.awaiting_confirmation
  unfolding sub_run sub_call start latest_boundary lookup
  sub_run_never_waits args ctx h r e =
      unattended_never_waits (sub_call a ctx h.world) refl (suc a.config.budget.max_iterations) none
        false (start a args h) r refl e

  -- The factory makes the tool exactly if no registered tool of the toolset is a control tool.
  pub make_subagent_tool_iff : (make_subagent_tool a ≡ ok (sub_tool a)) ↔ (
      (n : String) (t : LoopTool (W × Threads))
      → member n a.config.toolset ≡ true
      → get_tool a.registry n ≡ some t
      → t.is_control ≡ false)
  unfolding make_subagent_tool
  make_subagent_tool_iff = (
    λ h. no_control a.config.toolset (made (control_among a a.config.toolset) h),
    λ h. ap (unless_refused a) (none_among a.config.toolset h),
  )
