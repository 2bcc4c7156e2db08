-- ===== src/PlanView.antt =====
-- agent_context/plan_view.py: the plan as text for the model, and the log without its plan calls.
pub mod Laws
pub mod Render
use park_smart_harness.Base.{
  ℕ, zero, suc, String, ◌<>◌, show, Bool, true, false, Option, none, some, List, [], ◌∷◌, ◌++◌,
  ◌==◌, ◌&&◌, ◌||◌, not, ltb, leb, any, nonempty, has_text, chars, first_chars, if◌then◌else◌,
  length, filter, drop, map,
}
use park_smart_harness.Json.{Json, ℤ, pos, null, bool, int, float, str, arr, obj, list_of, entries}
use park_smart_harness.Message.{Message, ToolCallReq, Role, assistant, tool}
use park_smart_harness.Plan.{PlanItem, PlanState, is_assistant}
use park_smart_harness.Repair.{ids_of}
use park_smart_harness.Store.{is_tool}
use park_smart_harness.Loop.Turn.{is_empty}

abbrev pub is_plan_call : ToolCallReq → Bool
is_plan_call c = c.name == "plan"

abbrev pub plan_calls : List ToolCallReq → List ToolCallReq
plan_calls = filter is_plan_call

abbrev pub other_calls : List ToolCallReq → List ToolCallReq
other_calls = filter (λ c. not (is_plan_call c))

-- `m.tool_call_id in plan_result_ids`
abbrev pub among : List String → Option String → Bool
among ids none = false
among ids (some i) = any (λ k. k == i) ids

-- An assistant that calls the plan tool.
abbrev pub plans : Message → Bool
plans m = is_assistant m.role && not (is_empty (plan_calls m.tool_calls))

abbrev pub has_words : Message → Bool
has_words m = has_text m.content || has_text m.reasoning

-- A turn that calls the plan tool alone, and says nothing.
abbrev pub only_plans : Message → Bool
only_plans m = is_empty (other_calls m.tool_calls) && not (has_words m)

abbrev pub ids_after : List String → Message → List String
ids_after ids m = if plans m then ids_of (plan_calls m.tool_calls) ++ ids else ids

abbrev pub without_plans : Message → Message
without_plans m = record m { tool_calls = other_calls m.tool_calls }

abbrev pub keep_unless {ℓ} : {A : Type ℓ} → Bool → A → List A → List A
keep_unless true x xs = xs
keep_unless false x xs = x ∷ xs

-- `ids` are the plan calls so far.
unfoldable pub exclude_from : List String → List Message → List Message
exclude_from ids [] = []
exclude_from ids (m ∷ ms) =
    let rest = exclude_from (ids_after ids m) ms in
    if plans m
    then keep_unless (only_plans m) (without_plans m) rest
    else keep_unless (is_tool m.role && among ids m.tool_call_id) m rest

unfoldable pub exclude_plan_calls : List Message → List Message
unfolding exclude_from
exclude_plan_calls = exclude_from []

-- The fields of an item are values of the model; `repr` is the text of one in an f-string.
abbrev pub text_of_json : (Json → String) → Json → String
text_of_json repr (str s) = s
text_of_json repr v = repr v

abbrev pub is_text : String → Json → Bool
is_text s (str t) = t == s
is_text s _ = false

abbrev pub is_done : PlanItem → Bool
is_done it = is_text "done" it.status

abbrev pub is_zero : ℤ → Bool
is_zero (pos zero) = true
is_zero _ = false

-- `_SYM.get(status, " ")`; `none` is the TypeError of a list or a dict, which is no key.
abbrev pub symbol : Json → Option String
symbol (str s) = some (if s == "done" then "✓" else if s == "doing" then "▶" else " ")
symbol (arr vs) = none
symbol (obj d) = none
symbol _ = some " "

-- What a `result` adds to its line.
pub data Shown : Type 0 where
  nothing : Shown
  shown : String → Shown
  type_error : Shown

abbrev pub clipped : ℕ → String → String
clipped max s = if leb (chars s) max then s else first_chars max s <> "…"

abbrev pub shown_if : Bool → String → Shown
shown_if true s = shown s
shown_if false s = type_error

abbrev pub error_if : Bool → Shown
error_if true = type_error
error_if false = nothing

-- `repr` is the text of a value in an f-string, and `is_zero_float` tells the literals of zero.
module _ (repr : Json → String) (is_zero_float : String → Bool) where
  -- `if it.result`, its length, and its slice: a number that is not zero has no length, and a list
  -- or a dict of more elements than `max` cannot be cut and extended by a text.
  unfoldable pub shown_result : ℕ → Json → Shown
  shown_result max null = nothing
  shown_result max (bool b) = error_if b
  shown_result max (int z) = error_if (not (is_zero z))
  shown_result max (float l) = error_if (not (is_zero_float l))
  shown_result max (str s) = if nonempty s then shown (clipped max s) else nothing
  shown_result max (arr vs) =
      if is_empty (list_of vs)
      then nothing
      else shown_if (leb (length (list_of vs)) max) (repr (arr vs))
  shown_result max (obj d) =
      if is_empty (entries d)
      then nothing
      else shown_if (leb (length (entries d)) max) (repr (obj d))

  abbrev pub line_of : String → Option String → Shown → Option String
  line_of content none r = none
  line_of content (some s) nothing = some ("[" <> s <> "] " <> content)
  line_of content (some s) (shown r) = some ("[" <> s <> "] " <> content <> " → " <> r)
  line_of content (some s) type_error = none

  unfoldable pub item_line : ℕ → PlanItem → Option String
  unfolding shown_result
  item_line max it =
      line_of (text_of_json repr it.content) (symbol it.status) (shown_result max it.result)

  abbrev pub cons_line : Option String → Option (List String) → Option (List String)
  cons_line none later = none
  cons_line (some l) none = none
  cons_line (some l) (some ls) = some (l ∷ ls)

  unfoldable pub item_lines : ℕ → PlanState → Option (List String)
  unfolding item_line
  item_lines max [] = some []
  item_lines max (it ∷ its) = cons_line (item_line max it) (item_lines max its)

  abbrev pub next_line : Option String → String
  next_line none = "\n↑ 计划所有步骤已完成。现在**直接用一段话向用户汇报结果**,不要再调任何工具。"
  next_line (some step) =
      "\n↑ 计划已登记并已展示给用户。**立即调用对应工具执行下一步:「" <> step <> "」**(查询 / 控制 / 检索等用相应工具)。"
      <> "**不要再调用 plan**——计划与进度已自动展示,无需重列计划来更新状态;" <> "只有当步骤本身要增删时才重新 plan。做完所有步骤直接用一段话汇报结果。"

  -- The content of the first step that is not done.
  unfoldable pub next_step : PlanState → Option String
  next_step [] = none
  next_step (it ∷ its) = if is_done it then next_step its else some (text_of_json repr it.content)

  unfoldable pub lead_done : PlanState → ℕ
  lead_done [] = 0
  lead_done (it ∷ its) = if is_done it then suc (lead_done its) else 0

  abbrev pub folds : ℕ → PlanState → Bool
  folds max its = ltb max (length its) && ltb 2 (lead_done its)

  -- A long plan is shown without the steps it starts with that are done.
  unfoldable pub shown_items : ℕ → PlanState → PlanState
  unfolding lead_done
  shown_items max its = if folds max its then drop (lead_done its) its else its

  abbrev pub folded : ℕ → PlanState → List String
  folded max its = if folds max its then ("(前 " <> show (lead_done its) <> " 步已完成)") ∷ [] else []

  abbrev pub join_lines : List String → String
  join_lines [] = ""
  join_lines (l ∷ []) = l
  join_lines (l ∷ k ∷ ls) = l <> "\n" <> join_lines (k ∷ ls)

  abbrev pub laid_out : ℕ → PlanState → Option (List String) → Option String
  laid_out max its none = none
  laid_out max its (some ls) = some (
      join_lines
        ("【当前计划】" ∷ (folded max its ++ (ls ++ next_line (next_step (shown_items max its)) ∷ []))))

  -- `render_plan`; `none` is its TypeError.
  unfoldable pub render_plan : ℕ → ℕ → PlanState → Option String
  unfolding item_lines shown_items next_step
  render_plan max_items max_chars [] = some ""
  render_plan max_items max_chars (it ∷ its) =
      laid_out max_items (it ∷ its) (item_lines max_chars (shown_items max_items (it ∷ its)))
