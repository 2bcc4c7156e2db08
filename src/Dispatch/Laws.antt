-- ===== src/Dispatch/Laws.antt =====
-- What the executor does with a call: its message, its one retry, and the refusal of a control.
use park_smart_harness.Base.{
  ℕ, zero, suc, ◌≤◌, String, ◌<>◌, ◌≡◌, ◌⊎◌, inl, inr, refl, ap, sym, subst, true, false, Bool,
  Option, none, some, arith, if◌then◌else◌,
}
use park_smart_harness.Message.{ToolCallReq, tool}
use park_smart_harness.Tools.{
  ToolContext, Host, Handled, returned, timed_out, failed_with, LoopTool, apply_budget,
}
use park_smart_harness.Dispatch.{
  Attempted, result, timeout, exhausted, Disposition, executed, failed, ToolExecOutcome, attempt,
  normalise, refused_control, seconds, execute_tool, error_text, budgeted,
}

module _ {W : Type 0} (call : ToolCallReq) (t : LoopTool W) (ctx : ToolContext) (h : Host W) where
  -- Whatever happens, the outcome carries a tool message for the call.
  pub execute_tool_answers :
      ((execute_tool call t ctx h).0.message.role ≡ tool)
      × ((execute_tool call t ctx h).0.message.tool_call_id ≡ some call.id)
  unfolding execute_tool
  execute_tool_answers = ground arith

  -- A control tool is refused: its handler is not called, and nothing changes.
  pub execute_tool_control :
      t.is_control ≡ true → execute_tool call t ctx h ≡ (refused_control call, h)
  unfolding execute_tool
  execute_tool_control c = rw c

abbrev pub has_raised : Handled → Bool
has_raised (failed_with e) = true
has_raised _ = false

module _ {W : Type 0} (call : ToolCallReq) (t : LoopTool W) (ctx : ToolContext) where
  -- What one run of the handler does, and what the run after `k` others does.
  abbrev pub runs : Host W → Handled × Host W
  runs = t.handler call.arguments ctx

  abbrev pub run_after : ℕ → Host W → Handled × Host W
  run_after zero h = runs h
  run_after (suc k) h = run_after k (runs h).1

  -- The first `k` runs raise.
  abbrev pub Raise : ℕ → Host W → Type 0
  Raise zero h = Unit {0}
  Raise (suc k) h = (has_raised (runs h).0 ≡ true) × Raise k (runs h).1

  abbrev pub Says : ToolExecOutcome → Disposition → Bool → String → Type 0
  Says o d ok text =
      (o.disposition ≡ d)
      × (o.ok ≡ ok)
      × (o.message.content ≡ text)
      × (o.message.role ≡ tool)
      × (o.message.tool_call_id ≡ some call.id)

  abbrev pub cut : Option ℕ → String → String
  cut none text = text
  cut (some n) text = apply_budget n text

  -- What the model is told of a run.
  abbrev pub Tells : Handled → ToolExecOutcome → Type 0
  Tells (returned r) o =
      Says o executed r.ok
        (cut t.output_budget (if r.ok then r.content else "[error] " <> error_text r.error))
  Tells timed_out o =
      Says o failed false
        ("[error] 工具「" <> call.name <> "」超时(" <> seconds t.timeout_s <> "s)已中断——可重试或换更具体的查询")
  Tells (failed_with e) o = Says o failed false ("[error] " <> e)

  -- The run that ends a call with so many retries: all before it raise, and it does not, or it is
  -- the last one that is allowed.
  pub record Ends (left : ℕ) (h : Host W) (o : ToolExecOutcome) (after : Host W) : Type 0 where
    pub before : ℕ
    pub within : before ≤ left
    pub raised : Raise before h
    pub final : (before ≡ left) ⊎ (has_raised (run_after before h).0 ≡ false)
    pub tells : Tells (run_after before h).0 o
    pub leaves : after ≡ (run_after before h).1

  abbrev come_to : Handled → Attempted
  come_to (returned r) = result r
  come_to timed_out = timeout
  come_to (failed_with e) = exhausted e

  cut-eq : (o : Option ℕ) (text : String) → budgeted o text ≡ cut o text
  cut-eq none text = refl
  cut-eq (some n) text = refl

  outcome_says : (x : Handled) → Tells x (normalise call t (come_to x))
  unfolding normalise
  outcome_says (returned r) = (refl, refl, cut-eq t.output_budget _, refl, refl)
  outcome_says timed_out = (refl, refl, refl, refl, refl)
  outcome_says (failed_with e) = (refl, refl, refl, refl, refl)

  abbrev pub EndsBy : ℕ → Host W → Attempted × Host W → Type 0
  EndsBy left h a = Ends left h (normalise call t a.0) a.1

  abbrev pub tried : ℕ → Host W → Attempted × Host W
  tried left h = attempt left t.handler call.arguments ctx h

  last_try : (h : Host W) (x : Handled) → (runs h).0 ≡ x → tried 0 h ≡ (come_to x, (runs h).1)
  unfolding attempt
  last_try h (returned r) e = simp (attempt, e) refl
  last_try h timed_out e = simp (attempt, e) refl
  last_try h (failed_with f) e = simp (attempt, e) refl

  settled :
      (left : ℕ) (h : Host W) (x : Handled)
      → (runs h).0 ≡ x
      → has_raised x ≡ false
      → tried (suc left) h ≡ (come_to x, (runs h).1)
  unfolding attempt
  settled left h (returned r) e n = simp (attempt, e) refl
  settled left h timed_out e n = simp (attempt, e) refl
  settled left h (failed_with f) e n = cc

  retried :
      (left : ℕ) (h : Host W) (f : String)
      → (runs h).0 ≡ failed_with f
      → tried (suc left) h ≡ tried left (runs h).1
  unfolding attempt
  retried left h f e = simp (attempt, e) refl

  ends_at_once :
      (left : ℕ) (h : Host W) (x : Handled)
      → (runs h).0 ≡ x
      → (0 ≡ left) ⊎ (has_raised x ≡ false)
      → EndsBy left h (come_to x, (runs h).1)
  ends_at_once left h x e f = record {
    before = 0;
    within = omega arith;
    raised = tt;
    final = rw e f;
    tells = rw e (outcome_says x);
    leaves = refl;
  }

  ends_later :
      (left : ℕ) (h : Host W) (f : String) (a : Attempted × Host W)
      → (runs h).0 ≡ failed_with f
      → EndsBy left (runs h).1 a
      → EndsBy (suc left) h a
  ends_later left h f a e n = record {
    before = suc n.before;
    within = omega (arith, n.within);
    raised = (ap has_raised e, n.raised);
    final = later n.final;
    tells = n.tells;
    leaves = n.leaves;
  }
    where
      later :
          (n.before ≡ left) ⊎ (has_raised (run_after n.before (runs h).1).0 ≡ false)
          → (suc n.before ≡ suc left) ⊎ (has_raised (run_after n.before (runs h).1).0 ≡ false)
      later (inl q) = inl (ap suc q)
      later (inr q) = inr q

  attempt-Ends : (left : ℕ) (h : Host W) → EndsBy left h (tried left h)
  attempt-Ends zero h =
      subst (EndsBy 0 h) (sym (last_try h (runs h).0 refl))
        (ends_at_once 0 h (runs h).0 refl (inl refl))
  attempt-Ends (suc left) h = by_first (attempt-Ends left (runs h).1) (runs h).0 refl
    where
      by_first :
          EndsBy left (runs h).1 (tried left (runs h).1)
          → (x : Handled) → (runs h).0 ≡ x
          → EndsBy (suc left) h (tried (suc left) h)
      by_first n (failed_with f) e =
          subst (EndsBy (suc left) h) (sym (retried left h f e))
            (ends_later left h f (tried left (runs h).1) e n)
      by_first n (returned r) e =
          subst (EndsBy (suc left) h) (sym (settled left h (returned r) e refl))
            (ends_at_once (suc left) h (returned r) e (inr refl))
      by_first n timed_out e =
          subst (EndsBy (suc left) h) (sym (settled left h timed_out e refl))
            (ends_at_once (suc left) h timed_out e (inr refl))

  -- However many retries a call has, its handler runs until a run does not raise or the retries are
  -- used up, each run from the state that the one before left. The state after the call is that of
  -- the last run, and so is what the model is told: a returned result as executed, with its ok flag
  -- and its content or error cut to the tool's budget; a timeout, which is not tried again, and a
  -- raise as failed, with the text of the timeout or of the last error. The executor gives a tool
  -- that is no control one retry.
  pub execute_tool_retries :
      (h : Host W)
      → ((left : ℕ) → EndsBy left h (tried left h))
        × (t.is_control ≡ false
            → Ends 1 h (execute_tool call t ctx h).0 (execute_tool call t ctx h).1)
  unfolding execute_tool
  execute_tool_retries h = (λ left. attempt-Ends left h, λ c. simp c (attempt-Ends 1 h))
