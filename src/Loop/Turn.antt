-- ===== src/Loop/Turn.antt =====
-- agent_loop/loop.py, the second half of an iteration: what is done with the model's turn.
use park_smart_harness.Base.{
  ℕ, suc, String, Bool, true, false, Option, none, some, List, [], ◌∷◌, leb, take, has_text,
  if◌then◌else◌,
}
use park_smart_harness.Exec.{Exec, exception, pure, raise, gets, ◌>>=◌, ◌>>◌}
use park_smart_harness.Message.{Message, ToolCallReq, PendingAction, plain, assistant}
use park_smart_harness.Tools.{ToolContext, Status, iteration}
use park_smart_harness.Loop.{
  ModelTurn, Call, Machine, Locals, Progress, again, done, result, failure, ResultStatus,
  budget_exhausted, completed, empty_response, no_progress, stall, tool_failures, modify, Reason,
}
use park_smart_harness.Loop.Prompt.{set_messages, extend, spend, commit_now}
use park_smart_harness.Loop.Watch.{
  stalled, acts, batch_useful, nudge, max_empty, no_progress_limit, unproductive_limit,
}
use park_smart_harness.Loop.Batch.{run_batch}

-- `turn` with its text, its thought and its calls.
abbrev pub assistant_message : ModelTurn → Message
assistant_message t = record (plain assistant t.content) {
  reasoning = t.reasoning;
  tool_calls = t.tool_calls;
}

-- Every slot of the results is filled; `none` is the assertion of the source.
abbrev pub all_filled : List (Option Message) → Option (List Message)
all_filled [] = some []
all_filled (none ∷ rs) = none
all_filled (some m ∷ rs) = elim (all_filled rs) [ none ↦ none | some ms ↦ some (m ∷ ms) ]

abbrev pub is_empty {ℓ} : {A : Type ℓ} → List A → Bool
is_empty [] = true
is_empty (a ∷ as') = false

abbrev pub session_or : String → Option String → String
session_or thread none = thread
session_or thread (some s) = s

module _ {W : Type 0} (x : Call W) where
  abbrev pub context : ToolContext
  context = record {
    depth = x.depth;
    principal = x.principal;
    thread_id = session_or x.thread_id x.session_id;
  }

  -- `del conversation.messages[committed_len:]`, then a `return`.
  unfoldable pub roll_back : ℕ → Progress → Exec (Machine W) Progress
  roll_back n p = do modify (λ s. set_messages (take n s.messages) s); pure p

  -- A commit of this iteration, and how it goes on.
  unfoldable pub finish :
      Status → ℕ → Option (List PendingAction) → List Message → Progress → Exec (Machine W) Progress
  finish status seq pending buffer p = do commit_now x status seq pending buffer; pure p

  -- The watchdog on batches without a useful result, and the regular commit.
  unfoldable pub keep_going : Locals → ℕ → List Message → List Message → Exec (Machine W) Progress
  keep_going l base buffer results =
      if batch_useful results
      then finish iteration (suc l.seq) none buffer
          (again (record l { seq = suc l.seq; unproductive = 0 }))
      else if leb unproductive_limit (suc l.unproductive)
      then roll_back base (done (failure "(连续多轮无有效结果,停止)" no_progress))
      else finish iteration (suc l.seq) none buffer
          (again (record l { seq = suc l.seq; unproductive = suc l.unproductive }))

  -- After the batch: interrupt, suspension, the breaker on failures, then the regular end.
  unfoldable pub conclude :
      Locals → ℕ → List Message → List Message → List PendingAction → Exec (Machine W) Progress
  conclude l base buffer results pending = do
    stopped ← gets (λ s. x.interrupted s.host.world)
    if stopped
        then roll_back base (
            done (record (result "(中断)" ResultStatus.interrupted) {
              reason = some Reason.interrupted;
            }))
        else if is_empty pending
        then (if leb x.config.budget.max_tool_failures l.failures
            then finish Status.failed (suc l.seq) none buffer
                (done (failure "(连续工具失败,停止)" tool_failures))
            else keep_going l base buffer results)
        else finish Status.awaiting_confirmation (suc l.seq) (some pending) buffer (
            done (record (result "(等待确认)" ResultStatus.awaiting_confirmation) {
              pending = some pending;
            }))

  -- The results, if every slot is filled, are appended in the order of the calls.
  unfoldable pub after_batch :
      Locals → ℕ → Message → List PendingAction → Option (List Message) → Exec (Machine W) Progress
  after_batch l base said pending none = raise (exception "AssertionError")
  after_batch l base said pending (some ms) = do
    modify (extend ms)
    conclude l base (said ∷ ms) ms pending

  unfoldable pub act : Locals → ℕ → Message → List ToolCallReq → Exec (Machine W) Progress
  act l base said calls s =
      let (b, h) = run_batch x context l.failures calls s.host in
      after_batch (record l { failures = b.failures }) base said b.pending_batch
        (all_filled b.results) (record s { host = h })

  unfoldable pub check_stall : Locals → ℕ → Message → List ToolCallReq → Exec (Machine W) Progress
  check_stall l base said calls =
      let sigs = calls ∷ l.stall_sigs in
      if stalled sigs
      then roll_back base (done (failure "(检测到原地踏步,停止)" stall))
      else act (record l { stall_sigs = sigs }) base said calls

  -- A turn that only rewrites the plan is no progress: it is nudged, and stopped after a few.
  unfoldable pub check_progress :
      Locals → ℕ → Message → List ToolCallReq → Exec (Machine W) Progress
  check_progress l base said calls =
      if acts calls
      then check_stall (record l { no_progress = 0; pending_nudge = none }) base said calls
      else if leb (suc no_progress_limit) (suc l.no_progress)
      then roll_back base (done (failure "(连续多轮只更新计划、未执行,停止)" no_progress))
      else check_stall (record l { no_progress = suc l.no_progress; pending_nudge = some nudge })
          base said calls

  -- A turn with no call: an answer ends the run, an empty one is rolled back and tried again.
  unfoldable pub answered : Locals → ℕ → ModelTurn → Exec (Machine W) Progress
  answered l base t =
      if has_text t.content
      then finish Status.completed (suc l.seq) none (assistant_message t ∷ [])
          (done (result t.content completed))
      else if leb (suc max_empty) (suc l.empty_retries)
      then roll_back base (done (failure "(模型空响应,重试耗尽)" empty_response))
      else roll_back base (again (record l { empty_retries = suc l.empty_retries }))

  -- What follows the model's turn; `base` is `committed_len`.
  unfoldable pub after_model : Bool → Locals → ℕ → ModelTurn → Exec (Machine W) Progress
  after_model is_grace l base t = do
    modify (spend 1 t.usage_tokens)
    modify (extend (assistant_message t ∷ []))
    let l' = record l { local_iters = suc l.local_iters }
    if is_grace
        then finish Status.completed (suc l.seq) none (assistant_message t ∷ [])
            (done (result t.content budget_exhausted))
        else if is_empty t.tool_calls
        then answered l' base t
        else check_progress (record l' { empty_retries = 0 }) base (assistant_message t)
            t.tool_calls
