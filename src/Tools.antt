-- ===== src/Tools.antt =====
-- agent_loop/tools.py, agent_loop/conversation.py (`Boundary`, `Conversation`) and what a tool
-- sees of its surroundings. `W` is the world outside the loop: stores, devices, model, clock and
-- interrupt flag.
use park_smart_harness.Base.{
  ℕ, String, ◌<>◌, Bool, Option, none, some, List, [], ◌∷◌, leb, chars, first_chars, if◌then◌else◌,
}
use park_smart_harness.Base.Assoc.{lookup, insert}
use park_smart_harness.Json.{Dict}
use park_smart_harness.Message.{Message, PendingAction}
use park_smart_harness.Budget.{BudgetTracker, Snapshot}
use park_smart_harness.Plan.{PlanState}

pub record ToolResult : Type 0 where
  pub ok : Bool
  pub content : String
  pub error : Option String

-- `OutputBudget.apply`
unfoldable pub apply_budget : ℕ → String → String
apply_budget max_chars text =
    if leb (chars text) max_chars then text else first_chars max_chars text <> "…"

-- agent_context/principal.py
pub record Principal : Type 0 where
  pub id : String
  pub name : String
  pub role : String
  pub dept : String
  pub koujing : String
  pub park_id : Option String
  pub token : Option String
  pub permissions : List String

-- The budget and the run control of the context are shared objects: they are in the host.
pub record ToolContext : Type 0 where
  pub depth : ℕ
  pub principal : Option Principal
  pub thread_id : String

-- What a handler can change: the shared budget, the plan object, and the world.
pub record Host (W : Type 0) : Type 0 where
  pub budget : BudgetTracker
  pub plan : PlanState
  pub world : W

-- `await wait_for(handler(...), timeout)`
pub data Handled : Type 0 where
  returned : ToolResult → Handled
  timed_out : Handled
  failed_with : String → Handled

-- `timeout_s` is the number of seconds as it is printed.
pub record LoopTool (W : Type 0) : Type 0 where
  pub name : String
  pub description : String
  pub parameters : Dict
  pub handler : Dict → ToolContext → Host W → Handled × Host W
  pub output_budget : Option ℕ
  pub is_control : Bool
  pub timeout_s : Option String

pub record Schema : Type 0 where
  pub name : String
  pub description : String
  pub parameters : Dict

module _ {W : Type 0} where
  abbrev pub schema : LoopTool W → Schema
  schema t = record { name = t.name; description = t.description; parameters = t.parameters }

-- `LoopToolRegistry`: a dict by name.
abbrev pub Registry : Type 0 → Type 0
Registry W = List (String × LoopTool W)

module _ {W : Type 0} where
  unfoldable pub register : LoopTool W → Registry W → Registry W
  register t r = insert t.name t r

  -- `get` is a KeyError, `none`, for a name that `__contains__` refuses.
  unfoldable pub get_tool : Registry W → String → Option (LoopTool W)
  get_tool r name = lookup name r

  abbrev add_schema : Option (LoopTool W) → List Schema → List Schema
  add_schema none ss = ss
  add_schema (some t) ss = schema t ∷ ss

  unfoldable pub schemas : Registry W → List String → List Schema
  unfolding get_tool
  schemas r [] = []
  schemas r (n ∷ ns) = add_schema (get_tool r n) (schemas r ns)

pub data Status : Type 0 where
  iteration completed awaiting_confirmation failed : Status

pub record Boundary : Type 0 where
  pub status : Status
  pub turn_id : String
  pub seq : ℕ
  pub pending_batch : Option (List PendingAction)
  pub budget_snapshot : Option Snapshot

pub record Conversation : Type 0 where
  pub thread_id : String
  pub messages : List Message
  pub plan : PlanState
  pub principal : Option Principal
