-- ===== src/Loop.antt =====
-- agent_loop/loop.py: the arguments of `run_loop`, its variables and its results. The seams
-- (assembler, executor, gate, store, control, verifier, compactor, model caller) are fields of a
-- record; the components that implement them are modelled in modules of their own.
pub mod Prompt
pub mod Batch
pub mod Watch
pub mod Turn
pub mod Run
pub mod Waiting
pub mod Unattended
pub mod Termination
pub mod Memory
pub mod Ledger
use park_smart_harness.Base.{ℕ, String, Bool, Option, none, some, List}
use park_smart_harness.Exec.{Error, Exc, ok, raised, Exec, persist_error, catch_as}
use park_smart_harness.Message.{Message, ToolCallReq, PendingAction}
use park_smart_harness.Budget.{LoopConfig}
use park_smart_harness.Tools.{
  ToolResult, ToolContext, Principal, Host, LoopTool, Registry, Schema, Boundary, Conversation,
}
use park_smart_harness.Gate.{Verdict}
use park_smart_harness.Dispatch.{ToolExecOutcome, VerifyVerdict}
use park_smart_harness.Store.{Resolved}

-- agent_loop/llm.py
pub record ModelTurn : Type 0 where
  pub content : String
  pub tool_calls : List ToolCallReq
  pub usage_tokens : ℕ
  pub reasoning : String

pub data Decision : Type 0 where
  approve reject : Decision

-- agent_loop/control.py, `ControlCapability`
pub record Control (W : Type 0) : Type 0 where
  pub freeze : ToolCallReq → String → Host W → PendingAction × Host W
  pub resolve : PendingAction → Decision → Exec (Host W) ToolResult

pub record Compactor (W : Type 0) : Type 0 where
  pub should_compact : List Message → Bool
  pub compact : Conversation → ℕ → LoopConfig → Exec (Host W) (Option (List Message))

-- agent_loop/conversation.py, `ConversationStore`, as far as the loop calls it
pub record Durable (W : Type 0) : Type 0 where
  pub latest_boundary : String → Exec W (Option Boundary)
  pub commit : String → List Message → Boundary → Exec W (Unit {0})
  pub resolve_pending : String → Resolved → Boundary → Exec W (Unit {0})

-- `interrupted` reads the run control, which the outside may set at any time.
pub record Seams (W : Type 0) : Type 0 where
  pub model_caller : LoopConfig → List Message → List Schema → Exec (Host W) ModelTurn
  pub assemble : LoopConfig → Conversation → Exec (Host W) (List Message)
  pub execute_one : ToolCallReq → LoopTool W → ToolContext → Host W → ToolExecOutcome × Host W
  pub classify : ToolCallReq → LoopTool W → ToolContext → Verdict
  pub verify : ToolCallReq → LoopTool W → ToolExecOutcome → ToolContext → VerifyVerdict
  pub store : Durable W
  pub control : Option (Control W)
  pub compaction : Option (Compactor W)
  pub interrupted : W → Bool

-- The arguments that stay the same during a call of `run_loop`.
pub record Call (W : Type 0) : Type 0 where
  pub config : LoopConfig
  pub registry : Registry W
  pub seams : Seams W
  pub open seams use *
  pub thread_id : String
  pub principal : Option Principal
  pub depth : ℕ
  pub session_id : Option String

-- What the loop mutates: the messages of the conversation, and the host.
pub record Machine (W : Type 0) : Type 0 where
  pub messages : List Message
  pub host : Host W

pub data ResultStatus : Type 0 where
  completed awaiting_confirmation budget_exhausted failed interrupted : ResultStatus

pub data Reason : Type 0 where
  model_error empty_response stall no_progress tool_failures interrupted persist_failed
        compaction_thrash :
      Reason

pub record LoopResult : Type 0 where
  pub final : String
  pub status : ResultStatus
  pub pending : Option (List PendingAction)
  pub reason : Option Reason

abbrev pub result : String → ResultStatus → LoopResult
result f s = record { final = f; status = s; pending = none; reason = none }

abbrev pub failure : String → Reason → LoopResult
failure f r = record { final = f; status = failed; pending = none; reason = some r }

-- The local variables of the loop; `stall_sigs` is kept newest first.
pub record Locals : Type 0 where
  pub seq : ℕ
  pub failures : ℕ
  pub empty_retries : ℕ
  pub stall_sigs : List (List ToolCallReq)
  pub no_progress : ℕ
  pub pending_nudge : Option String
  pub local_iters : ℕ
  pub unproductive : ℕ

-- How an iteration ends: `continue`, or a `return`.
pub data Progress : Type 0 where
  again : Locals → Progress
  done : LoopResult → Progress

module _ {W A : Type 0} where
  -- An action of a seam, run from the loop.
  unfoldable pub on_host : Exec (Host W) A → Exec (Machine W) A
  on_host m s = let (r, h) = m s.host in (r, record s { host = h })

  unfoldable pub on_world : Exec W A → Exec (Machine W) A
  on_world m s = let (r, w) = m s.host.world in (r, record s { host = record s.host { world = w } })

  -- The `_safe_*` wrappers: any failure of the store is a `_PersistError`.
  unfoldable pub safely : Exec W A → Exec (Machine W) A
  unfolding on_world catch_as
  safely m = catch_as persist_error (on_world m)

module _ {W : Type 0} where
  unfoldable pub modify : (Machine W → Machine W) → Exec (Machine W) (Unit {0})
  modify f s = (ok tt, f s)
