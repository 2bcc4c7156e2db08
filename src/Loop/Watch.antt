-- ===== src/Loop/Watch.antt =====
-- agent_loop/loop.py: the watchdogs on a batch, and what counts as a useful one.
use park_smart_harness.Base.{
  ℕ, String, Bool, true, false, List, ◌∷◌, any, ◌==◌, ◌&&◌, ◌||◌, not, has_text, same_sorted,
}
use text.Mathlib.Text.{starts_with}
use park_smart_harness.Json.{Json, json_eq, entries}
use park_smart_harness.Message.{Message, ToolCallReq, Role, tool}

abbrev pub stall_limit : ℕ
stall_limit = 3

abbrev pub no_progress_limit : ℕ
no_progress_limit = 2

abbrev pub unproductive_limit : ℕ
unproductive_limit = 3

abbrev pub max_empty : ℕ
max_empty = 2

same_entry : String × Json → String × Json → Bool
same_entry (j, a) (k, b) = j == k && json_eq a b

-- `(c.name, repr(sorted(c.arguments.items())))` is the same for both calls.
unfoldable pub same_call : ToolCallReq → ToolCallReq → Bool
unfolding same_entry
same_call a b =
    a.name == b.name && same_sorted same_entry (entries a.arguments) (entries b.arguments)

-- The sorted signatures of two turns are equal.
unfoldable pub same_batch : List ToolCallReq → List ToolCallReq → Bool
unfolding same_call
same_batch = same_sorted same_call

-- The last `stall_limit` signatures, newest first, are one.
unfoldable pub stalled : List (List ToolCallReq) → Bool
stalled (a ∷ b ∷ c ∷ rest) = same_batch a b && same_batch a c
stalled _ = false

-- Some call of the turn is no `plan`.
unfoldable pub acts : List ToolCallReq → Bool
acts = any (λ c. not (c.name == "plan"))

abbrev is_tool : Role → Bool
is_tool tool = true
is_tool _ = false

unfoldable pub is_useful : Message → Bool
is_useful m =
    is_tool m.role
    && not m.is_error
    && has_text m.content
    && not (starts_with m.content "[blocked]" || starts_with m.content "[error]")

-- `batch_useful`
unfoldable pub batch_useful : List Message → Bool
unfolding is_useful
batch_useful = any is_useful

abbrev pub nudge : String
nudge =
    "你刚才只更新了计划、没有执行任何步骤。计划已经记录好——**现在立刻调用对应工具去完成下一个未完成的步骤**(查询/控制/检索等),不要再调用 plan。所有步骤都完成了就直接用一段话给出最终答案。"
