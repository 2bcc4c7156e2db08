-- ===== src/Codec.antt =====
-- agent_loop/codec.py: messages, pending actions and boundaries as JSON-safe dicts, and back. A
-- field that is missing has its default. Python would pass on a value of another type than the
-- field's; here the result is then `none`.
pub mod Laws
use park_smart_harness.Base.{
  ℕ, String, ◌==◌, Bool, true, false, Option, none, some, List, [], ◌∷◌, map, if◌then◌else◌,
}
use park_smart_harness.Json.{
  Json, Items, Dict, ℤ, pos, null, bool, int, str, arr, obj, nil, cons, end, entry, get, list_of,
  items_of,
}
use park_smart_harness.Message.{
  Message, ToolCallReq, PendingAction, Role, system, user, assistant, tool, other,
}
use park_smart_harness.Budget.{Snapshot}
use park_smart_harness.Tools.{Boundary, Status, iteration, completed, awaiting_confirmation, failed}

module _ {A B : Type 0} where
  infixl 10 ◌>>=◌
  abbrev pub ◌>>=◌ : Option A → (A → Option B) → Option B
  ◌>>=◌ none f = none
  ◌>>=◌ (some a) f = f a

module _ {A B : Type 0} where
  -- A comprehension: one failure fails it.
  abbrev pub each : (A → Option B) → List A → Option (List B)
  each f [] = some []
  each f (a ∷ as') = f a >>= λ b. elim (each f as') [ none ↦ none | some bs ↦ some (b ∷ bs) ]

abbrev pub text : String → Option Json → Option String
text default none = some default
text default (some (str s)) = some s
text default _ = none

abbrev pub text_or_none : Option Json → Option (Option String)
text_or_none none = some none
text_or_none (some null) = some none
text_or_none (some (str s)) = some (some s)
text_or_none _ = none

abbrev pub flag : Bool → Option Json → Option Bool
flag default none = some default
flag default (some (bool b)) = some b
flag default _ = none

abbrev pub number : ℕ → Option Json → Option ℕ
number default none = some default
number default (some (int (pos n))) = some n
number default _ = none

-- `d.get(k) or {}`
abbrev pub dict_or_empty : Option Json → Option Dict
dict_or_empty none = some end
dict_or_empty (some null) = some end
dict_or_empty (some (obj d)) = some d
dict_or_empty _ = none

-- `d.get(k) or []`
abbrev pub list_or_empty : Option Json → Option (List Json)
list_or_empty none = some []
list_or_empty (some null) = some []
list_or_empty (some (arr js)) = some (list_of js)
list_or_empty _ = none

abbrev pub of_dict : {A : Type 0} → (Dict → Option A) → Json → Option A
of_dict f (obj d) = f d
of_dict f _ = none

abbrev pub text_json : Option String → Json
text_json none = null
text_json (some s) = str s

abbrev pub role_text : Role → String
role_text system = "system"
role_text user = "user"
role_text assistant = "assistant"
role_text tool = "tool"
role_text (other t) = t

unfoldable pub role_of : String → Role
role_of t =
    if t == "system"
    then system
    else if t == "user"
    then user
    else if t == "assistant"
    then assistant
    else if t == "tool"
    then tool
    else other t

unfoldable pub encode_tool_call : ToolCallReq → Dict
encode_tool_call c =
    entry "id" (str c.id) (entry "name" (str c.name) (entry "arguments" (obj c.arguments) end))

unfoldable pub decode_tool_call : Dict → Option ToolCallReq
decode_tool_call d = do
  i ← text "" (get "id" d)
  n ← text "" (get "name" d)
  a ← dict_or_empty (get "arguments" d)
  some (record { id = i; name = n; arguments = a })

unfoldable pub encode_message : Message → Dict
unfolding encode_tool_call
encode_message m = entry "role" (str (role_text m.role)) (
    entry "content" (str m.content) (
      entry "reasoning" (str m.reasoning) (
        entry "tool_calls" (arr (items_of (map (λ c. obj (encode_tool_call c)) m.tool_calls))) (
          entry "tool_call_id" (text_json m.tool_call_id)
            (entry "name" (text_json m.name) (entry "is_error" (bool m.is_error) end))))))

unfoldable pub decode_message : Dict → Option Message
unfolding decode_tool_call role_of
decode_message d = do
  r ← text "" (get "role" d)
  c ← text "" (get "content" d)
  t ← text "" (get "reasoning" d)
  raw ← list_or_empty (get "tool_calls" d)
  calls ← each (of_dict decode_tool_call) raw
  i ← text_or_none (get "tool_call_id" d)
  n ← text_or_none (get "name" d)
  e ← flag false (get "is_error" d)
  some (record {
    role = role_of r;
    content = c;
    reasoning = t;
    tool_calls = calls;
    tool_call_id = i;
    name = n;
    is_error = e;
  })

unfoldable pub encode_messages : List Message → List Dict
encode_messages = map encode_message

unfoldable pub decode_messages : List Dict → Option (List Message)
decode_messages = each decode_message

unfoldable pub encode_pending : PendingAction → Dict
encode_pending p = entry "tool_call_id" (str p.tool_call_id) (
    entry "idem_key" (str p.idem_key) (
      entry "frozen_action"
        (obj (entry "name" (str p.action_name) (entry "arguments" (obj p.action_arguments) end)))
        (entry "handle" (text_json p.handle) end)))

-- A frozen action without its name would fail where it is resolved.
unfoldable pub decode_pending : Dict → Option PendingAction
decode_pending d = do
  t ← text "" (get "tool_call_id" d)
  k ← text "" (get "idem_key" d)
  f ← dict_or_empty (get "frozen_action" d)
  n ← text "" (get "name" f)
  a ← dict_or_empty (get "arguments" f)
  h ← text_or_none (get "handle" d)
  some
      (record { tool_call_id = t; idem_key = k; action_name = n; action_arguments = a; handle = h })

abbrev pub status_text : Status → String
status_text iteration = "iteration"
status_text completed = "completed"
status_text awaiting_confirmation = "awaiting_confirmation"
status_text failed = "failed"

unfoldable pub status_of : String → Option Status
status_of t =
    if t == "iteration"
    then some iteration
    else if t == "completed"
    then some completed
    else if t == "awaiting_confirmation"
    then some awaiting_confirmation
    else if t == "failed"
    then some failed
    else none

abbrev pub batch_json : Option (List PendingAction) → Json
batch_json none = null
batch_json (some ps) = arr (items_of (map (λ p. obj (encode_pending p)) ps))

-- The keys that the snapshot has.
abbrev add_number : String → Option ℕ → Dict → Dict
add_number k none d = d
add_number k (some n) d = entry k (int (pos n)) d

abbrev add_flag : String → Option Bool → Dict → Dict
add_flag k none d = d
add_flag k (some b) d = entry k (bool b) d

abbrev pub snapshot_json : Option Snapshot → Json
snapshot_json none = null
snapshot_json (some s) = obj (
    add_number "iters" s.iters
      (add_number "tokens" s.tokens (add_flag "grace_used" s.grace_used end)))

unfoldable pub encode_boundary : Boundary → Dict
unfolding encode_pending
encode_boundary b = entry "status" (str (status_text b.status)) (
    entry "turn_id" (str b.turn_id) (
      entry "seq" (int (pos b.seq)) (
        entry "pending_batch" (batch_json b.pending_batch)
          (entry "budget_snapshot" (snapshot_json b.budget_snapshot) end))))

abbrev pub present : Option (List PendingAction) → Option (Option (List PendingAction))
present none = none
present (some ps) = some (some ps)

abbrev pub batch_of : Option Json → Option (Option (List PendingAction))
batch_of none = some none
batch_of (some null) = some none
batch_of (some (arr js)) = present (each (of_dict decode_pending) (list_of js))
batch_of _ = none

abbrev pub some_number : Option Json → Option (Option ℕ)
some_number none = some none
some_number (some (int (pos n))) = some (some n)
some_number _ = none

abbrev pub some_flag : Option Json → Option (Option Bool)
some_flag none = some none
some_flag (some (bool b)) = some (some b)
some_flag _ = none

abbrev pub snapshot_of : Option Json → Option (Option Snapshot)
snapshot_of none = some none
snapshot_of (some null) = some none
snapshot_of (some (obj d)) = do
  i ← some_number (get "iters" d)
  t ← some_number (get "tokens" d)
  g ← some_flag (get "grace_used" d)
  some (some (record { iters = i; tokens = t; grace_used = g }))
snapshot_of _ = none

unfoldable pub decode_boundary : Dict → Option Boundary
unfolding status_of decode_pending
decode_boundary d = do
  s ← text "" (get "status" d)
  st ← status_of s
  t ← text "" (get "turn_id" d)
  q ← number 0 (get "seq" d)
  b ← batch_of (get "pending_batch" d)
  sn ← snapshot_of (get "budget_snapshot" d)
  some (record { status = st; turn_id = t; seq = q; pending_batch = b; budget_snapshot = sn })
