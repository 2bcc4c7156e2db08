-- ===== src/Control.antt =====
-- agent_loop/control.py, `FakeControlCapability`: an idempotent stub of a control.
pub mod Laws
use park_smart_harness.Base.{
  ℕ, suc, String, ◌<>◌, Bool, true, false, Option, none, some, List, [], ◌∷◌,
}
use park_smart_harness.Base.Assoc.{lookup, insert}
use park_smart_harness.Json.{Dict}
use park_smart_harness.Message.{ToolCallReq, PendingAction}
use park_smart_harness.Tools.{ToolResult}
use park_smart_harness.Loop.{Decision, approve, reject}

-- `_ledger` and `execute_count`
pub record Executions : Type 0 where
  pub ledger : List (String × ToolResult)
  pub execute_count : ℕ

abbrev pub no_executions : Executions
no_executions = record { ledger = []; execute_count = 0 }

-- `freeze`; `fresh` is the uuid that is drawn.
unfoldable pub freeze : String → ToolCallReq → PendingAction
freeze fresh call = record {
  tool_call_id = call.id;
  idem_key = fresh;
  action_name = call.name;
  action_arguments = call.arguments;
  handle = none;
}

abbrev rejected : PendingAction → ToolResult
rejected p = record {
  ok = true;
  content = "[rejected] " <> p.action_name <> " not executed";
  error = none;
}

-- `repr` prints the arguments.
abbrev pub echoed : (Dict → String) → PendingAction → ToolResult
echoed repr p = record {
  ok = true;
  content =
      "[executed] "
      <> p.action_name
      <> " args="
      <> repr p.action_arguments
      <> " (idem="
      <> p.idem_key
      <> ") readback=ok";
  error = none;
}

-- A key that is in the ledger is answered from it; any other is executed and written down.
unfoldable pub execute_once :
    (Dict → String) → PendingAction → Option ToolResult → Executions → ToolResult × Executions
execute_once repr p (some cached) s = (cached, s)
execute_once repr p none s = (
  echoed repr p,
  record {
    ledger = insert p.idem_key (echoed repr p) s.ledger;
    execute_count = suc s.execute_count;
  },
)

unfoldable pub resolve :
    (Dict → String) → PendingAction → Decision → Executions → ToolResult × Executions
unfolding execute_once
resolve repr p reject s = (rejected p, s)
resolve repr p approve s = execute_once repr p (lookup p.idem_key s.ledger) s
