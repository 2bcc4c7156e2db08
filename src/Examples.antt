-- ===== src/Examples.antt =====
-- Data for the examples: two calls, their messages, three tools and a principal.
pub mod Basics
pub mod Engine
pub mod Confirmations
pub mod Controls
pub mod Parts
pub mod Subagents
pub mod Context
pub mod Views
pub mod Grounding
pub mod Server
use park_smart_harness.Base.{
  ℕ, zero, suc, String, Bool, true, false, Option, none, some, List, [], ◌∷◌,
}
use park_smart_harness.Json.{Dict}
use park_smart_harness.Message.{Message, ToolCallReq, plain, tool_message, user, assistant}
use park_smart_harness.Budget.{BudgetTracker, LoopBudget, new_tracker}
use park_smart_harness.Plan.{PlanState}
use park_smart_harness.Tools.{
  ToolResult, ToolContext, Principal, Host, Handled, returned, failed_with, LoopTool, Registry,
}
use park_smart_harness.Gate.{ToolSpec, Catalog}

abbrev pub call_of : String → String → ToolCallReq
call_of i n = record { id = i; name = n; arguments = Dict.end }

abbrev pub read_call : ToolCallReq
read_call = call_of "c1" "read"

abbrev pub switch_call : ToolCallReq
switch_call = call_of "c2" "switch"

abbrev pub asks : Message
asks = record (plain assistant "") { tool_calls = read_call ∷ switch_call ∷ [] }

-- The tool message of `switch_call` is missing, and one message answers no call.
abbrev pub torn : List Message
torn =
    plain user "a"
    ∷ asks
    ∷ tool_message read_call "21"
    ∷ tool_message (call_of "c9" "read") "22"
    ∷ plain user "b"
    ∷ plain user "c"
    ∷ []

abbrev pub returns : String → ToolResult
returns text = record { ok = true; content = text; error = none }

abbrev pub budget : BudgetTracker
budget = new_tracker (record { max_iterations = 5; token_budget = none; max_tool_failures = 3 })

module _ {W : Type 0} where
  abbrev pub host : W → Host W
  host w = record { budget = budget; plan = []; world = w }

  abbrev pub tool_of : String → Bool → (Dict → ToolContext → Host W → Handled × Host W) → LoopTool W
  tool_of n c f = record {
    name = n;
    description = "";
    parameters = Dict.end;
    handler = f;
    output_budget = none;
    is_control = c;
    timeout_s = none;
  }

abbrev first : ℕ → Handled
first zero = failed_with "busy"
first (suc n) = returned (returns "21")

-- Raises once, then answers; the world counts the runs.
abbrev flaky : Dict → ToolContext → Host ℕ → Handled × Host ℕ
flaky arguments ctx h = (first h.world, record h { world = suc h.world })

abbrev pub reader : LoopTool ℕ
reader = tool_of "read" false flaky

abbrev pub switch : LoopTool ℕ
switch = tool_of "switch" true flaky

abbrev pub someone : List String → Principal
someone perms = record {
  id = "u1";
  name = "";
  role = "";
  dept = "";
  koujing = "";
  park_id = none;
  token = none;
  permissions = perms;
}

abbrev pub ctx_of : List String → ToolContext
ctx_of perms = record { depth = 0; principal = some (someone perms); thread_id = "t" }

abbrev pub catalog : Catalog ℕ
catalog =
    ("read", record { tool = reader; capability_code = "see"; output_budget = none })
    ∷ ("switch", record { tool = switch; capability_code = "act"; output_budget = none })
    ∷ []
