-- ===== src/Subagent.antt =====
-- agent_loop/subagent.py: `make_subagent_tool`, which wraps a loop of its own as a tool of another.
-- The sub loop has a store of its own beside the world, its own plan, and the caller's budget.
pub mod Laws
use park_smart_harness.Base.{
  ℕ, suc, String, show, ◌<>◌, Bool, true, false, Option, none, some, List, [], ◌∷◌, leb, nonempty,
  if◌then◌else◌,
}
use park_smart_harness.Json.{Json, Dict, get, str, null, arr, obj, entry, cons, nil}
use park_smart_harness.Exec.{Exec, Exc, ok, raised, Error, persist_error, exception, pure}
use park_smart_harness.Message.{Message, ToolCallReq, plain, user}
use park_smart_harness.Budget.{LoopConfig}
use park_smart_harness.Tools.{
  ToolResult, ToolContext, Host, Handled, returned, failed_with, LoopTool, Registry, get_tool,
  Schema, Conversation,
}
use park_smart_harness.Gate.{Verdict}
use park_smart_harness.Dispatch.{execute_tool, null_verify}
use park_smart_harness.Store.{Threads}
use park_smart_harness.Loop.{
  ModelTurn, Durable, Seams, Call, Machine, LoopResult, Reason, ResultStatus, model_error,
  empty_response, stall, no_progress, tool_failures, persist_failed, compaction_thrash,
}
use park_smart_harness.Loop.Memory.{memory}
use park_smart_harness.Loop.Run.{run_loop}

-- The arguments of the factory. A sub tool may see the sub loop's store: it is beside the world.
-- `uuid` is the number that `uuid4` draws, and `repr` is `str` of a task that is no text.
pub record Subagent (W : Type 0) : Type 0 where
  pub name : String
  pub description : String
  pub config : LoopConfig
  pub registry : Registry (W × Threads)
  pub model_caller : LoopConfig → List Message → List Schema → Exec (Host (W × Threads)) ModelTurn
  pub assemble : LoopConfig → Conversation → Exec (Host (W × Threads)) (List Message)
  pub classify : ToolCallReq → LoopTool (W × Threads) → ToolContext → Verdict
  pub interrupted : W → Bool
  pub uuid : W → String
  pub repr : Json → String

abbrev pub string_schema : List (String × String) → Dict
string_schema [] = Dict.end
string_schema ((k, v) ∷ ps) = entry k (str v) (string_schema ps)

-- The parameters of the tool: a text `task` is required.
abbrev pub task_parameters : Dict
task_parameters = entry "type" (str "object") (
    entry "properties" (obj (entry "task" (obj (string_schema (("type", "string") ∷ []))) Dict.end))
      (entry "required" (arr (cons (str "task") nil)) Dict.end))

-- `reason`, as the text that the loop's results carry
abbrev pub reason_text : Reason → String
reason_text model_error = "model_error"
reason_text empty_response = "empty_response"
reason_text stall = "stall"
reason_text no_progress = "no_progress"
reason_text tool_failures = "tool_failures"
reason_text Reason.interrupted = "interrupted"
reason_text persist_failed = "persist_error"
reason_text compaction_thrash = "compaction_thrash"

-- `reason or default`
abbrev pub reason_or : String → Option Reason → String
reason_or default none = default
reason_or default (some r) = reason_text r

abbrev pub gave_up : String → String → ToolResult
gave_up why error = record {
  ok = false;
  content =
      "子任务未完成(" <> why <> "),**未取得可靠结果**。如实告诉用户没查到/没办成,"
      <> "**绝不据此臆造温度/状态/读数等任何结果**;若是设备查无,直接回报「无此设备」。";
  error = some error;
}

-- The result of the tool by the status of the sub loop.
unfoldable pub report : ResultStatus → LoopResult → ToolResult
report ResultStatus.completed r = record { ok = true; content = r.final; error = none }
report ResultStatus.budget_exhausted r = gave_up "步数用尽" (reason_or "budget_exhausted" r.reason)
report ResultStatus.failed r = gave_up (reason_or "未完成" r.reason) (reason_or "failed" r.reason)
report ResultStatus.interrupted r = record {
  ok = false;
  content = r.final;
  error = some "interrupted";
}
report ResultStatus.awaiting_confirmation r = record {
  ok = false;
  content = r.final;
  error = some "unexpected_awaiting";
}

abbrev pub too_deep : ℕ → ToolResult
too_deep max = record {
  ok = false;
  content = "";
  error = some ("max depth " <> show max <> " exceeded");
}

-- The exception that leaves a handler, as its text.
abbrev pub exception_text : Error → String
exception_text persist_error = "persist_error"
exception_text (exception text) = text

module _ {W : Type 0} (a : Subagent W) where
  -- The store of the sub loop is in memory, and thrown away with it.
  abbrev pub own_store : Durable (W × Threads)
  own_store = record {
    latest_boundary = λ id w. let (r, ts) = memory.latest_boundary id w.1 in (r, (w.0, ts));
    commit = λ id ms b w. let (r, ts) = memory.commit id ms b w.1 in (r, (w.0, ts));
    resolve_pending = λ id m b w. let (r, ts) = memory.resolve_pending id m b w.1 in (r, (w.0, ts));
  }

  abbrev pub text_of : Option Json → String
  text_of none = ""
  text_of (some (str t)) = t
  text_of (some v) = a.repr v

  -- No control and no compaction; depth and session are the caller's.
  unfoldable pub sub_call : ToolContext → W → Call (W × Threads)
  sub_call ctx w = record {
    config = a.config;
    registry = a.registry;
    seams = record {
      model_caller = a.model_caller;
      assemble = a.assemble;
      execute_one = execute_tool;
      classify = a.classify;
      verify = λ c t o ctx. null_verify o;
      store = own_store;
      control = none;
      compaction = none;
      interrupted = λ w. a.interrupted w.0;
    };
    thread_id = a.name <> ":" <> a.uuid w;
    principal = ctx.principal;
    depth = suc ctx.depth;
    session_id = some ctx.thread_id;
  }

  unfoldable pub start : Dict → Host W → Machine (W × Threads)
  start args h = record {
    messages = plain user (text_of (get "task" args)) ∷ [];
    host = record { budget = h.budget; plan = []; world = (h.world, []) };
  }

  -- One unit of fuel more than the sub loop's steps.
  unfoldable pub sub_run :
      Dict → ToolContext → Host W → Exc (Option LoopResult) × Machine (W × Threads)
  sub_run args ctx h =
      run_loop (sub_call ctx h.world) (suc a.config.budget.max_iterations) none false (start args h)

  -- The caller keeps its plan.
  abbrev pub back : Host W → Machine (W × Threads) → Host W
  back h s = record { budget = s.host.budget; plan = h.plan; world = s.host.world.0 }

  -- The second case is that the fuel runs out.
  unfoldable pub map_result : Exc (Option LoopResult) → Handled
  map_result (ok (some r)) = returned (report r.status r)
  map_result (ok none) = failed_with "out of fuel"
  map_result (raised e) = failed_with (exception_text e)

  unfoldable pub sub_handler : Dict → ToolContext → Host W → Handled × Host W
  sub_handler args ctx h =
      let (r, s) = sub_run args ctx h in
      if leb (suc ctx.depth) a.config.max_depth
      then (map_result r, back h s)
      else (returned (too_deep a.config.max_depth), h)

  -- The first control tool among the registered ones of the list
  abbrev pub keep_control : String → Option (LoopTool (W × Threads)) → Option String → Option String
  keep_control n none later = later
  keep_control n (some t) later = if t.is_control then some n else later

  unfoldable pub control_among : List String → Option String
  control_among [] = none
  control_among (n ∷ ns) = keep_control n (get_tool a.registry n) (control_among ns)

  abbrev pub sub_tool : LoopTool W
  sub_tool = record {
    name = a.name;
    description = a.description;
    parameters = task_parameters;
    handler = sub_handler;
    output_budget = none;
    is_control = false;
    timeout_s = none;
  }

  abbrev pub unless_refused : Option String → Exc (LoopTool W)
  unless_refused none = ok sub_tool
  unless_refused (some n) =
      raised (exception ("subagent '" <> a.name <> "' may not include control tool '" <> n <> "'"))

  unfoldable pub make_subagent_tool : Exc (LoopTool W)
  make_subagent_tool = unless_refused (control_among a.config.toolset)
