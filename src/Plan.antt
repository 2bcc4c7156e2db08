-- ===== src/Plan.antt =====
-- agent_loop/plan.py: the plan as the model last wrote it down.
pub mod Laws
use park_smart_harness.Base.{
  String, Bool, true, false, Option, none, some, List, [], ◌∷◌, ◌==◌, if◌then◌else◌,
}
use park_smart_harness.Json.{Json, Dict, null, str, arr, obj, end, entry, get, list_of}
use park_smart_harness.Message.{Message, ToolCallReq, Role, assistant}

-- The model writes these fields, so each may hold any value.
pub record PlanItem : Type 0 where
  pub id : Json
  pub content : Json
  pub status : Json
  pub result : Json
  pub spec : Json

abbrev pub PlanState : Type 0
PlanState = List PlanItem

-- `d.get(k, default)`
abbrev pub get_or : Json → Option Json → Json
get_or d none = d
get_or d (some v) = v

item_with : Dict → Option Json → Option Json → Option PlanItem
item_with d (some i) (some c) = some (record {
  id = i;
  content = c;
  status = get_or (str "todo") (get "status" d);
  result = get_or null (get "result" d);
  spec = get_or null (get "spec" d);
})
item_with d _ _ = none

-- A value that is no dict, or lacks `id` or `content`, is no item.
unfoldable pub plan_item : Json → Option PlanItem
unfolding item_with
plan_item (obj d) = item_with d (get "id" d) (get "content" d)
plan_item _ = none

abbrev keep_some {ℓ} : {A : Type ℓ} → Option A → List A → List A
keep_some none xs = xs
keep_some (some x) xs = x ∷ xs

unfoldable pub plan_items : List Json → PlanState
unfolding plan_item
plan_items [] = []
plan_items (v ∷ vs) = keep_some (plan_item v) (plan_items vs)

abbrev keys_of : Dict → List Json
keys_of end = []
keys_of (entry k v d) = str k ∷ keys_of d

abbrev char_texts : String → List Json
char_texts String.[] = []
char_texts (String.◌∷◌ c s) = str (String.◌∷◌ c "") ∷ char_texts s

-- `for i in v`; `none` is the TypeError of a value that cannot be iterated.
abbrev pub iterate : Json → Option (List Json)
iterate (arr vs) = some (list_of vs)
iterate (obj d) = some (keys_of d)
iterate (str s) = some (char_texts s)
iterate _ = none

-- `PlanState.replace`; `none` is its TypeError.
unfoldable pub replace : Json → Option PlanState
unfolding plan_items
replace v = elim (iterate v) [ none ↦ none | some vs ↦ some (plan_items vs) ]

-- The last call of `plan` in a turn that brings `items`.
unfoldable pub last_items : List ToolCallReq → Option Json
last_items [] = none
last_items (c ∷ cs) = elim (last_items cs) [
  | some v ↦ some v
  | none ↦ if c.name == "plan" then get "items" c.arguments else none
]

abbrev pub is_assistant : Role → Bool
is_assistant assistant = true
is_assistant _ = false

-- The snapshot that the newest such turn left; `none` if there is none.
unfoldable pub last_snapshot : List Message → Option Json
unfolding last_items
last_snapshot [] = none
last_snapshot (m ∷ ms) = elim (last_snapshot ms) [
  | some v ↦ some v
  | none ↦ if is_assistant m.role then last_items m.tool_calls else none
]

-- `derive_plan`; the outer `none` is the TypeError of `replace`.
unfoldable pub derive_plan : List Message → Option PlanState
unfolding last_snapshot replace
derive_plan ms = elim (last_snapshot ms) [ none ↦ some [] | some v ↦ replace v ]
