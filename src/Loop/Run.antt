-- ===== src/Loop/Run.antt =====
-- agent_loop/loop.py: the entry of `run_loop`, its main loop on fuel, and its exits.
use park_smart_harness.Base.{
  ℕ, zero, suc, String, Bool, true, false, Option, none, some, List, [], ◌∷◌, length, if◌then◌else◌,
}
use park_smart_harness.Base.Assoc.{lookup, insert}
use park_smart_harness.Exec.{
  Exec, Exc, ok, raised, persist_error, exception, pure, raise, gets, ◌>>=◌, ◌>>◌,
}
use park_smart_harness.Message.{Message, PendingAction, plain, tool}
use park_smart_harness.Budget.{Snapshot, restore, snapshot}
use park_smart_harness.Dispatch.{result_text}
use park_smart_harness.Tools.{Boundary, Status, iteration, ToolResult}
use park_smart_harness.Store.{Resolved, replace_placeholders}
use park_smart_harness.Loop.{
  ModelTurn, Control, Call, Decision, reject, Machine, Locals, Progress, again, done, LoopResult,
  result, failure, ResultStatus, model_error, compaction_thrash, persist_failed, on_host, safely,
  modify,
}
use park_smart_harness.Loop.Prompt.{
  Entry, stop, go, Assembly, thrashed, ready, set_messages, repaired, check_entry, assemble_prompt,
  nudged, call_model_with_retry, turn_id,
}
use park_smart_harness.Loop.Turn.{after_model}

-- `resolution: dict[str, str]`, from `tool_call_id`
abbrev pub Resolution : Type 0
Resolution = List (String × Decision)

abbrev pub reject_all : List PendingAction → Resolution
reject_all [] = []
reject_all (p ∷ ps) = insert p.tool_call_id reject (reject_all ps)

-- A cancellation rejects the whole batch.
abbrev pub reject_batch : Option (List PendingAction) → Resolution
reject_batch none = []
reject_batch (some ps) = reject_all ps

abbrev pub or_reject : Option Decision → Decision
or_reject none = reject
or_reject (some d) = d

-- The default is to reject.
unfoldable pub decision_for : Resolution → PendingAction → Decision
decision_for r p = or_reject (lookup p.tool_call_id r)

abbrev pub is_awaiting : Status → Bool
is_awaiting Status.awaiting_confirmation = true
is_awaiting _ = false

abbrev pub fresh_locals : ℕ → Locals
fresh_locals seq = record {
  seq = seq;
  failures = 0;
  empty_retries = 0;
  stall_sigs = [];
  no_progress = 0;
  pending_nudge = none;
  local_iters = 0;
  unproductive = 0;
}

abbrev pub resolved_message : PendingAction → ToolResult → Message
resolved_message p r = record (plain tool (result_text r)) {
  tool_call_id = some p.tool_call_id;
  name = some p.action_name;
}

module _ {W : Type 0} where
  -- `continue` or `return`
  abbrev pub on_progress :
      (Locals → Exec (Machine W) (Option LoopResult))
      → Progress
      → Exec (Machine W) (Option LoopResult)
  on_progress rest (again l) = rest l
  on_progress rest (done r) = pure (some r)

module _ {W : Type 0} (x : Call W) where
  unfoldable pub on_turn : Bool → Locals → ℕ → Option ModelTurn → Exec (Machine W) Progress
  on_turn is_grace l base none = pure (done (failure "(模型调用失败)" model_error))
  on_turn is_grace l base (some t) = after_model x is_grace l base t

  unfoldable pub ask_model : Bool → Locals → List Message → Exec (Machine W) Progress
  ask_model is_grace l prompt = do
    base ← gets (λ s. length s.messages)
    turn ← call_model_with_retry x 2 (nudged l.pending_nudge prompt)
    on_turn is_grace l base turn

  unfoldable pub on_assembly : Bool → Locals → Assembly → Exec (Machine W) Progress
  on_assembly is_grace l thrashed = pure (done (failure "(压缩后仍超限,停止)" compaction_thrash))
  on_assembly is_grace l (ready seq prompt) = ask_model is_grace (record l { seq = seq }) prompt

  unfoldable pub on_entry : Locals → Entry → Exec (Machine W) Progress
  on_entry l (stop r) = pure (done r)
  on_entry l (go is_grace) = do assembly ← assemble_prompt x l.seq; on_assembly is_grace l assembly

  unfoldable pub iterate : Locals → Exec (Machine W) Progress
  iterate l = do repaired x; entry ← check_entry x l.local_iters; on_entry l entry

  -- `while True`; `none` means that the fuel ran out.
  unfoldable pub main_loop : ℕ → Locals → Exec (Machine W) (Option LoopResult)
  main_loop zero l = pure none
  main_loop (suc fuel) l = do p ← iterate l; on_progress (main_loop fuel) p

  -- Each pending action is resolved in turn, and its result keyed by its call.
  unfoldable pub resolve_batch :
      Control W → Resolution → List PendingAction → Resolved → Exec (Machine W) Resolved
  resolve_batch c r [] resolved = pure resolved
  resolve_batch c r (p ∷ ps) resolved = do
    t ← on_host (c.resolve p (decision_for r p))
    resolve_batch c r ps (insert p.tool_call_id (resolved_message p t) resolved)

  -- The confirmed batch: the placeholders of the conversation and of the store are replaced.
  unfoldable pub confirm :
      Control W → Resolution → ℕ → List PendingAction → Exec (Machine W) (Unit {0})
  confirm c r seq pending = do
    resolved ← resolve_batch c r pending []
    modify (λ s. set_messages (replace_placeholders resolved s.messages) s)
    b ← gets (λ s. s.host.budget)
    safely (
        x.store.resolve_pending x.thread_id resolved (record {
          status = iteration;
          turn_id = turn_id (suc seq);
          seq = suc seq;
          pending_batch = none;
          budget_snapshot = some (snapshot b);
        }))

  unfoldable pub confirm_pending :
      Option (Control W)
      → Option (List PendingAction)
      → Resolution
      → ℕ
      → Exec (Machine W) (Unit {0})
  confirm_pending none pending r seq = raise (exception "AssertionError")
  confirm_pending (some c) none r seq = raise (exception "TypeError")
  confirm_pending (some c) (some ps) r seq = confirm c r seq ps

  -- A thread that waits for a confirmation takes a cancellation or a decision, and nothing else.
  unfoldable pub resume :
      ℕ → Option Resolution → Bool → Boundary → Exec (Machine W) (Option LoopResult)
  resume fuel resolution true b = do
    confirm_pending x.control b.pending_batch (reject_batch b.pending_batch) b.seq
    main_loop fuel (fresh_locals (suc b.seq))
  resume fuel none false b = pure (
      some
        (record (result "(等待确认)" ResultStatus.awaiting_confirmation) { pending = b.pending_batch }))
  resume fuel (some r) false b = do
    confirm_pending x.control b.pending_batch r b.seq
    main_loop fuel (fresh_locals (suc b.seq))

  unfoldable pub restored : Option Snapshot → Exec (Machine W) (Unit {0})
  restored none = pure tt
  restored (some b) =
      modify (λ s. record s { host = record s.host { budget = restore b s.host.budget } })

  unfoldable pub on_last :
      ℕ → Option Resolution → Bool → Option Boundary → Exec (Machine W) (Option LoopResult)
  on_last fuel resolution cancel none = main_loop fuel (fresh_locals 0)
  on_last fuel resolution cancel (some b) = do
    restored b.budget_snapshot
    if is_awaiting b.status
        then resume fuel resolution cancel b
        else main_loop fuel (fresh_locals b.seq)

  -- The body of the `try`.
  unfoldable pub run_body : ℕ → Option Resolution → Bool → Exec (Machine W) (Option LoopResult)
  run_body fuel resolution cancel = do
    last ← safely (x.store.latest_boundary x.thread_id)
    on_last fuel resolution cancel last

  unfoldable pub persist_exit :
      Exc (Option LoopResult) × Machine W → Exc (Option LoopResult) × Machine W
  persist_exit (raised persist_error, s) = (ok (some (failure "(持久化失败)" persist_failed)), s)
  persist_exit (r, s) = (r, s)

  -- `run_loop`: a failure of the store is a result, any other exception goes to the caller.
  unfoldable pub run_loop : ℕ → Option Resolution → Bool → Exec (Machine W) (Option LoopResult)
  run_loop fuel resolution cancel s = persist_exit (run_body fuel resolution cancel s)
