-- ===== src/Store.antt =====
-- agent_loop/conversation.py: the in-memory conversation store, and what a loop needs of a store.
pub mod Laws
use park_smart_harness.Base.{
  String, Bool, true, false, Option, none, some, List, [], ◌∷◌, ◌++◌, map, last?, if◌then◌else◌,
}
use park_smart_harness.Base.Assoc.{lookup, insert}
use park_smart_harness.Message.{Message, Role, tool}
use park_smart_harness.Plan.{PlanState, derive_plan}
use park_smart_harness.Tools.{Boundary, Conversation}

pub record ThreadState : Type 0 where
  pub committed_messages : List Message
  pub uncommitted_tail : List Message
  pub boundaries : List Boundary

abbrev pub new_thread : ThreadState
new_thread = record { committed_messages = []; uncommitted_tail = []; boundaries = [] }

-- `self._threads`
abbrev pub Threads : Type 0
Threads = List (String × ThreadState)

abbrev pub or_new : Option ThreadState → ThreadState
or_new none = new_thread
or_new (some t) = t

-- The state that `_get_or_create` gives; the caller writes it back.
unfoldable pub get_or_create : Threads → String → ThreadState
get_or_create ts id = or_new (lookup id ts)

abbrev pub conversation_of : String → List Message → Option PlanState → Option Conversation
conversation_of id ms none = none
conversation_of id ms (some p) =
    some (record { thread_id = id; messages = ms; plan = p; principal = none })

-- `load`; `none` is the TypeError of `derive_plan`.
unfoldable pub load : Threads → String → Option Conversation
load ts id = elim (lookup id ts) [
  | none ↦ some (record { thread_id = id; messages = []; plan = []; principal = none })
  | some t ↦ conversation_of id t.committed_messages (derive_plan t.committed_messages)
]

unfoldable pub commit_thread : List Message → Boundary → ThreadState → ThreadState
commit_thread new_messages b t = record {
  committed_messages = t.committed_messages ++ new_messages;
  uncommitted_tail = [];
  boundaries = t.boundaries ++ b ∷ [];
}

unfoldable pub commit : String → List Message → Boundary → Threads → Threads
unfolding get_or_create commit_thread
commit id new_messages b ts = insert id (commit_thread new_messages b (get_or_create ts id)) ts

unfoldable pub latest_boundary : Threads → String → Option Boundary
latest_boundary ts id = elim (lookup id ts) [ none ↦ none | some t ↦ last? t.boundaries ]

-- A dict from `tool_call_id` to the message that takes the placeholder's place.
abbrev pub Resolved : Type 0
Resolved = List (String × Message)

abbrev pub is_tool : Role → Bool
is_tool tool = true
is_tool _ = false

-- `resolved[m.tool_call_id]`, where `m.tool_call_id in resolved`
abbrev pub resolution_for : Resolved → Option String → Option Message
resolution_for r none = none
resolution_for r (some i) = lookup i r

abbrev pub or_self : Message → Option Message → Message
or_self m none = m
or_self m (some n) = n

unfoldable pub replace_placeholder : Resolved → Message → Message
replace_placeholder r m = if is_tool m.role then or_self m (resolution_for r m.tool_call_id) else m

-- The loop that replaces placeholders in place; the store and the engine run the same one.
unfoldable pub replace_placeholders : Resolved → List Message → List Message
unfolding replace_placeholder
replace_placeholders r = map (replace_placeholder r)

unfoldable pub resolve_thread : Resolved → Boundary → ThreadState → ThreadState
unfolding replace_placeholders
resolve_thread r b t = record t {
  committed_messages = replace_placeholders r t.committed_messages;
  boundaries = t.boundaries ++ b ∷ [];
}

unfoldable pub resolve_pending : String → Resolved → Boundary → Threads → Threads
unfolding get_or_create resolve_thread
resolve_pending id r b ts = insert id (resolve_thread r b (get_or_create ts id)) ts

-- The test seam `_append_uncommitted`: a crash between the messages and their boundary.
unfoldable pub append_uncommitted : String → List Message → Threads → Threads
unfolding get_or_create
append_uncommitted id ms ts =
    let t = get_or_create ts id in
    insert id (record t { uncommitted_tail = t.uncommitted_tail ++ ms }) ts
