-- ===== src/Message.antt =====
-- agent_loop/messages.py and agent_loop/pending.py
use park_smart_harness.Base.{String, Bool, false, Option, none, some, List, []}
use park_smart_harness.Json.{Dict}

pub record ToolCallReq : Type 0 where
  pub id : String
  pub name : String
  pub arguments : Dict

-- `role: str`; the four that the program writes, and any other text that a decoder may bring.
pub data Role : Type 0 where
  system user assistant tool : Role
  other : String → Role

pub record Message : Type 0 where
  pub role : Role
  pub content : String
  pub reasoning : String
  pub tool_calls : List ToolCallReq
  pub tool_call_id : Option String
  pub name : Option String
  pub is_error : Bool

-- `Message(role=..., content=...)` with the defaults of the dataclass.
abbrev pub plain : Role → String → Message
plain r c = record {
  role = r;
  content = c;
  reasoning = "";
  tool_calls = [];
  tool_call_id = none;
  name = none;
  is_error = false;
}

-- `Message(role="tool", content=..., tool_call_id=..., name=...)`
abbrev pub tool_message : ToolCallReq → String → Message
tool_message call c = record (plain tool c) { tool_call_id = some call.id; name = some call.name }

pub record PendingAction : Type 0 where
  pub tool_call_id : String
  pub idem_key : String
  pub action_name : String
  pub action_arguments : Dict
  pub handle : Option String
