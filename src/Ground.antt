-- ===== src/Ground.antt =====
-- agent_tools/grounding.py: a control intent of the model becomes a checked action, or is rejected.
-- `ParamType` is the dictionary's item of agent_tools/backend.py, as far as grounding reads it.
pub mod Control
pub mod Safe
pub mod Checked
use park_smart_harness.Base.{
  String, ◌<>◌, Bool, true, false, Option, none, some, List, [], ◌∷◌, ◌++◌, ◌==◌, ◌&&◌, ◌||◌, not,
  any, filter, nonempty, contains, strip, ends_with, if◌then◌else◌,
}
use park_smart_harness.Json.{
  Json, Dict, ℤ, null, bool, int, float, str, arr, obj, end, entry, get, list_of, items_of, entries,
}
use park_smart_harness.PlanView.{is_zero, text_of_json}
use park_smart_harness.Loop.Turn.{is_empty}
use park_smart_harness.History.{or_else}
use park_smart_harness.Compaction.{find}

pub record Intent : Type 0 where
  pub point_type_id : String
  pub point_type_no : String
  pub device_id : String
  pub point_id : String
  pub system_no : String
  pub param : String
  pub value : String

pub record Grounded : Type 0 where
  pub device_id : String
  pub point_id : String
  pub point_type_id : String
  pub point_type_no : String
  pub param_type_id : String
  pub param_type_no : String
  pub param_type_name : String
  pub param_value : String
  pub param_status : String
  pub system_no : String
  pub reversibility : String
  pub param_type : String
  pub param_sub_id : String
  pub current_value : String
  pub action : String

pub record Rejection : Type 0 where
  pub reason : String
  pub code : String

pub record ParamType : Type 0 where
  pub param_type_no : String
  pub param_type_name : String
  pub is_ctrl : Bool
  pub min_value : String
  pub max_value : String
  pub param_statuses : List Dict
  pub param_type_id : String
  pub param_type : String
  pub param_sub_id : String
  pub current_value : String

-- An answer of the backend, or its BackendError with the code and the text.
pub data Fetched (A : Type 0) : Type 0 where
  fetched : A → Fetched A
  backend_error : String → String → Fetched A

pub data Grounding : Type 0 where
  grounded : Grounded → Grounding
  rejected : Rejection → Grounding

abbrev pub reject : String → String → Grounding
reject reason code = rejected (record { reason = reason; code = code })

-- The keys of the reversibility map: numbers of parameters, and pairs with the point's type.
pub record ReversibilityMap : Type 0 where
  pub params : List String
  pub pairs : List (String × String)

abbrev pub in_list : String → List String → Bool
in_list s ts = any (λ t. s == t) ts

abbrev pub reversible : String
reversible = "可逆"

abbrev pub irreversible : String
irreversible = "不可逆"

-- `_classify`
unfoldable pub classify : String → String → ReversibilityMap → String
classify point_type_no param_type_no m =
    if any (λ p. p.0 == point_type_no && p.1 == param_type_no) m.pairs
      || in_list param_type_no m.params
    then irreversible
    else reversible

-- `_door_action`
unfoldable pub door_action : String → Option (String × String)
door_action value =
    let v = strip value in
    if in_list v ("开门" ∷ "开" ∷ "打开" ∷ "开启" ∷ "开锁" ∷ [])
    then some ("开门", "2")
    else if in_list v ("关门" ∷ "关" ∷ "关闭" ∷ "闭门" ∷ "锁门" ∷ [])
    then some ("关门", "1")
    else none

-- `_is_door_param`
unfoldable pub is_door_param : ParamType → Bool
is_door_param p =
    p.param_type_no == "channelControl"
    || (contains p.param_type_name "通道控制"
        || (contains p.param_type_name "门锁" || contains p.param_type_name "开关门"))

abbrev pub entry_if : Bool → String → Json → Dict → Dict
entry_if true k v d = entry k v d
entry_if false k v d = d

abbrev pub entry_text : String × String → Dict → Dict
entry_text (k, v) d = entry_if (nonempty v) k (str v) d

abbrev pub dict_of_texts : List (String × String) → Dict
dict_of_texts [] = end
dict_of_texts (p ∷ ps) = entry_text p (dict_of_texts ps)

abbrev pub one : Json → Json
one v = arr (items_of (v ∷ []))

abbrev pub device_entries : Option ℤ → Dict → Dict
device_entries none d = d
device_entries (some n) d = entry "deviceId" (int n) (entry "deviceIds" (one (int n)) d)

abbrev pub door_entries : Option ℤ → Dict → Dict
door_entries none d = d
door_entries (some n) d = entry "deviceIds" (one (int n)) d

abbrev pub point_entries : String → Dict → Dict
point_entries i d =
    entry_if (nonempty i) "pointId" (str i) (entry_if (nonempty i) "pointIds" (one (str i)) d)

-- `int_of` is `int` of a text, `none` for its ValueError.
module _ (int_of : String → Option ℤ) where
  -- `Grounded.payload`
  unfoldable pub payload : Grounded → Dict
  payload g = device_entries (int_of (strip g.device_id)) (
      point_entries g.point_id (
        dict_of_texts (
          ("pointTypeId", g.point_type_id)
          ∷ ("pointTypeNo", g.point_type_no)
          ∷ ("paramTypeId", g.param_type_id)
          ∷ ("paramTypeNo", g.param_type_no)
          ∷ ("paramTypeName", g.param_type_name)
          ∷ ("paramType", g.param_type)
          ∷ ("paramValue", g.param_value)
          ∷ ("paramStatus", g.param_status)
          ∷ ("paramSubId", g.param_sub_id)
          ∷ ("systemNo", g.system_no)
          ∷ [])))

  -- `Grounded.door_payload`
  unfoldable pub door_payload : Grounded → Dict
  door_payload g = door_entries (int_of (strip g.device_id)) (
      point_entries g.point_id (
        entry_text ("status", if nonempty g.param_status then g.param_status else g.param_value)
          (entry_text ("currentParamValue", g.param_value) (entry "isAble" (bool true) end))))

-- `repr` is the text of a value, and `is_zero_float` tells the literals of zero.
module _ (repr : Json → String) (is_zero_float : String → Bool) where
  abbrev pub truthy : Json → Bool
  truthy null = false
  truthy (bool b) = b
  truthy (int z) = not (is_zero z)
  truthy (float l) = not (is_zero_float l)
  truthy (str s) = nonempty s
  truthy (arr vs) = not (is_empty (list_of vs))
  truthy (obj d) = not (is_empty (entries d))

  abbrev text_of_value : Option Json → String
  text_of_value none = ""
  text_of_value (some v) = if truthy v then text_of_json repr v else ""

  -- `str(s.get(k) or "")`
  abbrev pub text_at : String → Dict → String
  text_at k d = text_of_value (get k d)

  -- `s.get("isAble") not in (False, 0, "0")`
  abbrev pub is_able : Option Json → Bool
  is_able (some (bool b)) = b
  is_able (some (int z)) = not (is_zero z)
  is_able (some (float l)) = not (is_zero_float l)
  is_able (some (str s)) = not (s == "0")
  is_able _ = true

  abbrev pub or_first : List ParamType → Option ParamType → Option ParamType
  or_first hits (some p) = some p
  or_first [] none = none
  or_first (p ∷ ps) none = some p

  abbrev pub by_number : String → ParamType → Bool
  by_number key p = nonempty p.param_type_no && p.param_type_no == key

  abbrev pub by_status : String → ParamType → Bool
  by_status key p = any (λ d. key == text_at "status" d) p.param_statuses

  abbrev pub match_name : String → List ParamType → Option ParamType
  match_name key ps =
      let hits = filter (λ p. contains p.param_type_name key) ps in
      if is_empty hits then find (by_status key) ps else or_first hits (find (λ p. p.is_ctrl) hits)

  abbrev pub match_key : String → List ParamType → Option ParamType
  match_key key ps = or_else (find (by_number key) ps) (match_name key ps)

  -- `_match_param`
  unfoldable pub match_param : List ParamType → String → Option ParamType
  match_param ps key = if nonempty (strip key) then match_key (strip key) ps else none

  abbrev pub is_choice : String → Dict → Bool
  is_choice value d =
      (value == text_at "status" d || value == text_at "paramValue" d) && is_able (get "isAble" d)
