-- ===== src/Dispatch.antt =====
-- agent_loop/dispatch.py and agent_loop/verify.py: one allowed call, its retry, its normalised
-- outcome, and the check of an outcome.
pub mod Laws
use park_smart_harness.Base.{
  ℕ, zero, suc, String, ◌<>◌, Bool, true, false, Option, none, some, ◌&&◌, ◌||◌, contains,
  if◌then◌else◌,
}
use park_smart_harness.Json.{Dict}
use park_smart_harness.Message.{Message, ToolCallReq, tool_message}
use park_smart_harness.Tools.{
  ToolResult, ToolContext, Host, Handled, returned, timed_out, failed_with, LoopTool, apply_budget,
}

pub data Disposition : Type 0 where
  executed failed : Disposition

-- The executor never leaves `message` empty and never answers `awaiting_confirmation`.
pub record ToolExecOutcome : Type 0 where
  pub disposition : Disposition
  pub message : Message
  pub ok : Bool

-- What the attempts came to.
pub data Attempted : Type 0 where
  result : ToolResult → Attempted
  timeout : Attempted
  exhausted : String → Attempted

abbrev pub default_timeout : String
default_timeout = "30.0"

abbrev pub seconds : Option String → String
seconds none = default_timeout
seconds (some s) = s

abbrev pub error_text : Option String → String
error_text none = "None"
error_text (some e) = e

-- `result.content if result.ok else f"[error] {result.error}"`
abbrev pub result_text : ToolResult → String
result_text r = if r.ok then r.content else "[error] " <> error_text r.error

abbrev budgeted : Option ℕ → String → String
budgeted none text = text
budgeted (some n) text = apply_budget n text

abbrev pub refused_control : ToolCallReq → ToolExecOutcome
refused_control call = record {
  disposition = failed;
  message = tool_message call "[error] 控制工具不应到达执行器(应被闸判 ask)";
  ok = false;
}

module _ {W : Type 0} where
  -- The loop over the attempts that are left after this one; only an exception is tried again.
  unfoldable pub attempt :
      ℕ
      → (Dict → ToolContext → Host W → Handled × Host W)
      → Dict
      → ToolContext
      → Host W
      → Attempted × Host W
  attempt zero handler args ctx h =
      let (r, h') = handler args ctx h in
      elim r [
        | returned t ↦ (result t, h')
        | timed_out ↦ (timeout, h')
        | failed_with e ↦ (exhausted e, h')
      ]
  attempt (suc left) handler args ctx h =
      let (r, h') = handler args ctx h in
      elim r [
        | returned t ↦ (result t, h')
        | timed_out ↦ (timeout, h')
        | failed_with e ↦ attempt left handler args ctx h'
      ]

  -- The outcome of a call whose handler ran.
  unfoldable pub normalise : ToolCallReq → LoopTool W → Attempted → ToolExecOutcome
  normalise call tool (result t) = record {
    disposition = executed;
    message = tool_message call (budgeted tool.output_budget (result_text t));
    ok = t.ok;
  }
  normalise call tool timeout = record {
    disposition = failed;
    message =
        record (tool_message call (
          "[error] 工具「" <> call.name <> "」超时(" <> seconds tool.timeout_s <> "s)已中断——可重试或换更具体的查询")) {
            is_error = true;
          };
    ok = false;
  }
  normalise call tool (exhausted e) = record {
    disposition = failed;
    message = tool_message call ("[error] " <> e);
    ok = false;
  }

  -- `SequentialToolExecutor.execute_one` on the tool that the registry has: a control tool is
  -- refused before its handler, any other has one retry.
  unfoldable pub execute_tool :
      ToolCallReq → LoopTool W → ToolContext → Host W → ToolExecOutcome × Host W
  unfolding attempt normalise
  execute_tool call tool ctx h =
      if tool.is_control
      then (refused_control call, h)
      else (let (r, h') = attempt 1 tool.handler call.arguments ctx h in
          (normalise call tool r, h'))

pub record VerifyVerdict : Type 0 where
  pub business_ok : Bool
  pub note : String

-- `NullVerifier.verify`
abbrev pub null_verify : ToolExecOutcome → VerifyVerdict
null_verify o = record { business_ok = o.ok; note = "" }

-- `ControlVerifier.verify`
unfoldable pub control_verify : Bool → ToolExecOutcome → VerifyVerdict
control_verify is_control o =
    let text = o.message.content in
    if (is_control || contains text "[executed]")
      && (contains text "effective=False" || contains text "effective=pending")
    then record { business_ok = false; note = "控制已受理但读回未达目标(未生效/待生效)" }
    else record { business_ok = o.ok; note = "" }
