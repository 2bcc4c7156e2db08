-- ===== src/PlanTool.antt =====
-- agent_loop/plan.py: the tool by which the model writes its plan down, and the plain rendering.
pub mod Laws
use park_smart_harness.Base.{
  String, ◌<>◌, Bool, true, false, Option, none, some, List, [], ◌∷◌, nonempty, not, map,
  if◌then◌else◌,
}
use park_smart_harness.Json.{
  Json, Items, Dict, null, bool, int, float, str, arr, obj, nil, cons, end, entry, get, items_of,
}
use park_smart_harness.Plan.{PlanItem, PlanState, replace}
use park_smart_harness.PlanView.{is_zero, text_of_json}
use park_smart_harness.Tools.{
  ToolResult, ToolContext, Host, Handled, returned, failed_with, LoopTool,
}

-- `bool(v)`; `is_zero_float` tells the literals of zero.
abbrev pub is_true : (String → Bool) → Json → Bool
is_true is_zero_float null = false
is_true is_zero_float (bool b) = b
is_true is_zero_float (int z) = not (is_zero z)
is_true is_zero_float (float l) = not (is_zero_float l)
is_true is_zero_float (str s) = nonempty s
is_true is_zero_float (arr nil) = false
is_true is_zero_float (arr (cons v vs)) = true
is_true is_zero_float (obj end) = false
is_true is_zero_float (obj (entry k v d)) = true

-- `repr` is the text of a value in an f-string.
module _ (repr : Json → String) (is_zero_float : String → Bool) where
  unfoldable pub item_text : PlanItem → String
  item_text i =
      let line = "- [" <> text_of_json repr i.status <> "] " <> text_of_json repr i.content in
      if is_true is_zero_float i.spec then line <> "  spec=" <> text_of_json repr i.spec else line

  abbrev pub after_heading : String → List PlanItem → String
  after_heading text [] = text
  after_heading text (i ∷ is) = after_heading (text <> "\n" <> item_text i) is

  -- `PlanState.render`
  unfoldable pub render : PlanState → String
  unfolding item_text
  render [] = ""
  render (i ∷ is) = after_heading "当前计划(plan):" (i ∷ is)

-- The name of the type in the TypeError of a value that cannot be iterated.
abbrev pub type_name : Json → String
type_name null = "NoneType"
type_name (bool b) = "bool"
type_name (int z) = "int"
type_name (float l) = "float"
type_name (str s) = "str"
type_name (arr vs) = "list"
type_name (obj d) = "dict"

abbrev pub fields : List (String × Json) → Dict
fields [] = end
fields ((k, v) ∷ ps) = entry k v (fields ps)

abbrev pub object : List (String × Json) → Json
object ps = obj (fields ps)

abbrev pub texts : List String → Json
texts ts = arr (items_of (map str ts))

abbrev pub typed : String → Json
typed t = object (("type", str t) ∷ [])

abbrev pub described : String → String → Json
described t description = object (("type", str t) ∷ ("description", str description) ∷ [])

abbrev pub plan_item_schema : Json
plan_item_schema = object (
    ("type", str "object")
    ∷ (
      "properties",
      object (
          ("id", typed "string")
          ∷ ("content", described "string" "这步要达成什么")
          ∷ (
            "status",
            object (("type", str "string") ∷ ("enum", texts ("todo" ∷ "doing" ∷ "done" ∷ [])) ∷ []),
          )
          ∷ ("result", described "string" "可选:这步拿到什么(人话短句,如\"26℃,偏高\"/\"已下发待确认\")")
          ∷ ("spec", described "object" "可选:该步的结构化规格(grounding 结果/参数);大产物走外部句柄")
          ∷ []),
    )
    ∷ ("required", texts ("id" ∷ "content" ∷ "status" ∷ []))
    ∷ [])

abbrev pub plan_parameters : Dict
plan_parameters = entry "type" (str "object") (
    entry "properties"
      (object (("items", object (("type", str "array") ∷ ("items", plan_item_schema) ∷ [])) ∷ []))
      (entry "required" (texts ("items" ∷ [])) end))

module _ {W : Type 0} where
  abbrev pub replaced : Json → Option PlanState → Host W → Handled × Host W
  replaced v none h = (failed_with ("'" <> type_name v <> "' object is not iterable"), h)
  replaced v (some p) h = (
    returned (record { ok = true; content = "plan updated"; error = none }),
    record h { plan = p },
  )

  abbrev pub with_items : Option Json → Host W → Handled × Host W
  with_items none h = (failed_with "'items'", h)
  with_items (some v) h = replaced v (replace v) h

  -- The handler of `make_plan_tool`: without items, a KeyError.
  unfoldable pub plan_handler : Dict → ToolContext → Host W → Handled × Host W
  plan_handler args ctx h = with_items (get "items" args) h

  -- `make_plan_tool`
  abbrev pub plan_tool : LoopTool W
  plan_tool = record {
    name = "plan";
    description =
        "提交一份全量计划快照(覆盖式)。每步含 id/content/status," <> "并可带 spec:该步的结构化规格(如已 grounding 的设备/参数等)。"
        <> "大产物(完整候选集、长文本)走外部句柄,不要嵌进 spec。" <> "并行/串行不在此声明——并行=一轮发多个工具调用,串行=按需分步。";
    parameters = plan_parameters;
    handler = plan_handler;
    output_budget = none;
    is_control = false;
    timeout_s = none;
  }
