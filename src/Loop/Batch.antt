-- ===== src/Loop/Batch.antt =====
-- agent_loop/loop.py, a batch of tool calls: the pass that sorts the calls by verdict, the run of
-- the allowed ones, and the results in the order of the calls.
pub mod Answers
pub mod Governed
pub mod Unattended
use park_smart_harness.Base.{
  ℕ, suc, ◌<>◌, true, Option, none, some, List, [], ◌∷◌, ◌++◌, set, replicate, length, nonempty,
  if◌then◌else◌,
}
use park_smart_harness.Message.{Message, ToolCallReq, PendingAction, tool_message}
use park_smart_harness.Tools.{Host, LoopTool, ToolContext, get_tool}
use park_smart_harness.Gate.{Verdict, allow, ask, deny}
use park_smart_harness.Dispatch.{ToolExecOutcome, Disposition, executed, failed, VerifyVerdict}
use park_smart_harness.Loop.{Control, Call}

-- The allowed calls, each with its index in the batch.
abbrev pub Items : Type 0 → Type 0
Items W = List (ℕ × ToolCallReq × LoopTool W)

-- What the two passes fill in.
pub record Batch (W : Type 0) : Type 0 where
  pub results : List (Option Message)
  pub pending_batch : List PendingAction
  pub allow_items : Items W
  pub failures : ℕ

abbrev pub unknown_tool : ToolCallReq → Message
unknown_tool call =
    record (tool_message call ("[error] 未知工具「" <> call.name <> "」——本轮没有这个工具,请改用已提供的工具")) {
      is_error = true;
    }

abbrev pub blocked : ToolCallReq → Message
blocked call = tool_message call "[blocked] 无权限或被策略拦截"

abbrev pub no_control : ToolCallReq → Message
no_control call = tool_message call "[error] 需要确认但无控制能力"

abbrev pub placeholder : ToolCallReq → Message
placeholder call = tool_message call "[pending_confirmation]"

-- The mark of a result that the verifier refuses.
unfoldable pub mark : VerifyVerdict → Message → Message
mark v m =
    if v.business_ok
    then m
    else if nonempty v.note
    then record m { is_error = true; content = "[verify-failed] " <> v.note <> " | " <> m.content }
    else record m { is_error = true; content = "[verify-failed] " <> m.content }

-- `executed` clears the count of failures in a row, also where the verifier refuses the result.
abbrev pub count_failure : Disposition → ℕ → ℕ
count_failure executed n = 0
count_failure failed n = suc n

module _ {W : Type 0} where
  abbrev pub answer : ℕ → Message → Batch W → Batch W
  answer i m b = record b { results = set b.results i (some m) }

  abbrev pub fail_with : ℕ → Message → Batch W → Batch W
  fail_with i m b = record b { results = set b.results i (some m); failures = suc b.failures }

  abbrev pub defer : ℕ → ToolCallReq → LoopTool W → Batch W → Batch W
  defer i call tool b = record b { allow_items = b.allow_items ++ (i, call, tool) ∷ [] }

  abbrev pub suspend : ℕ → ToolCallReq → PendingAction → Batch W → Batch W
  suspend i call p b = record b {
    pending_batch = b.pending_batch ++ p ∷ [];
    results = set b.results i (some (placeholder call));
  }

  -- The second half of the pass that fills the results of the allowed calls.
  unfoldable pub fill :
      List (ℕ × ToolCallReq × LoopTool W) → List ToolExecOutcome → Batch W → Batch W
  fill [] os b = b
  fill (item ∷ items) [] b = b
  fill (item ∷ items) (o ∷ os) b = fill items os (record b {
    results = set b.results item.0 (some o.message);
    failures = count_failure o.disposition b.failures;
  })

module _ {W : Type 0} (x : Call W) where
  unfoldable pub on_ask : ℕ → ToolCallReq → Option (Control W) → Batch W × Host W → Batch W × Host W
  on_ask i call none (b, h) = (fail_with i (no_control call) b, h)
  on_ask i call (some c) (b, h) =
      let (p, h') = c.freeze call x.thread_id h in (suspend i call p b, h')

  unfoldable pub on_verdict :
      ℕ → ToolCallReq → LoopTool W → Verdict → Batch W × Host W → Batch W × Host W
  unfolding on_ask
  on_verdict i call tool deny (b, h) = (answer i (blocked call) b, h)
  on_verdict i call tool ask (b, h) = on_ask i call x.control (b, h)
  on_verdict i call tool allow (b, h) = (defer i call tool b, h)

  unfoldable pub classify_found :
      ToolContext → ℕ → ToolCallReq → Option (LoopTool W) → Batch W × Host W → Batch W × Host W
  unfolding on_verdict
  classify_found ctx i call none (b, h) = (fail_with i (unknown_tool call) b, h)
  classify_found ctx i call (some tool) (b, h) =
      on_verdict i call tool (x.classify call tool ctx) (b, h)

  -- The first pass, from the call at index `i` on.
  unfoldable pub classify_calls :
      ToolContext → ℕ → List ToolCallReq → Batch W × Host W → Batch W × Host W
  unfolding classify_found
  classify_calls ctx i [] b = b
  classify_calls ctx i (call ∷ calls) b =
      classify_calls ctx (suc i) calls (classify_found ctx i call (get_tool x.registry call.name) b)

  unfoldable pub verified :
      ToolContext → ToolCallReq → LoopTool W → ToolExecOutcome → ToolExecOutcome
  verified ctx call tool o = elim o.disposition [
    | executed ↦ record o { message = mark (x.verify call tool o ctx) o.message }
    | failed ↦ o
  ]

  -- `_run_allow`: the verifier sees only what ran.
  unfoldable pub run_allow :
      ToolContext → ToolCallReq → LoopTool W → Host W → ToolExecOutcome × Host W
  unfolding verified
  run_allow ctx call tool h =
      let (o, h') = x.execute_one call tool ctx h in (verified ctx call tool o, h')

  -- The allowed calls, in an order in which the gathered tasks may run.
  unfoldable pub run_items : ToolContext → Items W → Host W → List ToolExecOutcome × Host W
  unfolding run_allow
  run_items ctx [] h = ([], h)
  run_items ctx ((i, call, tool) ∷ items) h =
      let (o, h') = run_allow ctx call tool h in
      let (os, h'') = run_items ctx items h' in (o ∷ os, h'')

  -- The whole batch of a turn.
  unfoldable pub run_batch : ToolContext → ℕ → List ToolCallReq → Host W → Batch W × Host W
  unfolding classify_calls run_items fill
  run_batch ctx failures calls h =
      let start : Batch W = record {
        results = replicate (length calls) none;
        pending_batch = [];
        allow_items = [];
        failures = failures;
      } in
      let (b, h') = classify_calls ctx 0 calls (start, h) in
      let (os, h'') = run_items ctx b.allow_items h' in (fill b.allow_items os b, h'')
