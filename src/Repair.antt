-- ===== src/Repair.antt =====
-- agent_loop/repair.py: the two passes over a message sequence, with contents as values.
pub mod Laws
pub mod Words
pub mod Alike
pub mod Append
pub mod Replace
pub mod Legal
use park_smart_harness.Base.{
  ℕ, zero, suc, ◌+◌, String, ◌<>◌, Bool, true, false, Option, none, some, List, [], ◌∷◌, map, any,
  ◌==◌, ◌&&◌, nonempty, if◌then◌else◌,
}
use park_smart_harness.Message.{Message, ToolCallReq, Role, user, assistant, tool, system, other}

-- `tc_id and tc_id in known_tool_ids`
abbrev pub is_known : List String → Option String → Bool
is_known known none = false
is_known known (some i) = nonempty i && any (λ k. k == i) known

abbrev pub ids_of : List ToolCallReq → List String
ids_of = map (λ c. c.id)

-- The ids that are known after a message: an assistant refreshes them, a user message clears them.
abbrev pub known_after : Role → Message → List String → List String
known_after assistant m known = ids_of m.tool_calls
known_after user m known = []
known_after _ m known = known

abbrev pub is_kept : Role → Message → List String → Bool
is_kept tool m known = is_known known m.tool_call_id
is_kept _ m known = true

-- Pass 1, with its count of dropped messages.
unfoldable pub drop_orphans : List String → List Message → List Message × ℕ
drop_orphans known [] = ([], 0)
drop_orphans known (m ∷ ms) =
    let rest = drop_orphans (known_after m.role m known) ms in
    if is_kept m.role m known then (m ∷ rest.0, rest.1) else (rest.0, suc rest.1)

abbrev pub is_user : Role → Bool
is_user user = true
is_user _ = false

-- The content of two user messages in a row.
unfoldable pub join_contents : String → String → String
join_contents prev new =
    if nonempty prev && nonempty new
    then prev <> "\n\n" <> new
    else if nonempty prev
    then prev
    else new

-- Pass 2, where `prev` is `merged[-1]`.
unfoldable pub merge_from : Message → List Message → List Message × ℕ
unfolding join_contents
merge_from prev [] = (prev ∷ [], 0)
merge_from prev (m ∷ ms) =
    let joined = merge_from (record prev { content = join_contents prev.content m.content }) ms in
    let rest = merge_from m ms in
    if is_user m.role && is_user prev.role
    then (joined.0, suc joined.1)
    else (prev ∷ rest.0, rest.1)

unfoldable pub merge_users : List Message → List Message × ℕ
unfolding merge_from
merge_users [] = ([], 0)
merge_users (m ∷ ms) = merge_from m ms

-- `messages[:] = merged` only if something was repaired.
abbrev pub rewrite_if : ℕ → List Message → List Message → List Message × ℕ
rewrite_if zero messages merged = (messages, 0)
rewrite_if (suc n) messages merged = (merged, suc n)

-- The repaired list and the number of repairs; a list with nothing to repair stays as it is.
unfoldable pub repair_messages : List Message → List Message × ℕ
unfolding drop_orphans merge_users
repair_messages messages =
    let filtered = drop_orphans [] messages in
    let merged = merge_users filtered.0 in
    let repairs = filtered.1 + merged.1 in rewrite_if repairs messages merged.0
