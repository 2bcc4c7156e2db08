-- ===== src/Ground/Control.antt =====
-- agent_tools/grounding.py: the value of a control, and the whole of its grounding.
use park_smart_harness.Base.{
  String, ◌<>◌, Bool, true, false, Option, none, some, List, ◌==◌, ◌&&◌, ◌||◌, not, nonempty,
  contains, strip, ends_with, if◌then◌else◌,
}
use park_smart_harness.Json.{Json, Dict, ℤ}
use park_smart_harness.Loop.Turn.{is_empty}
use park_smart_harness.Compaction.{find}
use park_smart_harness.Ground.{
  Intent, Grounded, Rejection, ParamType, Fetched, fetched, backend_error, Grounding, grounded,
  rejected, reject, ReversibilityMap, reversible, irreversible, classify, door_action,
  is_door_param, text_at, match_param, is_choice,
}

-- The two reads of the dictionary, by the ids that they are given.
pub record ParamReader : Type 0 where
  pub by_point : String → String → Option String → Fetched (List ParamType)
  pub by_type : String → Option String → Fetched (List ParamType)

-- The text functions of the source: the text of a value, the literals of zero, `int` and `float` of a
-- text, `none` for their ValueError, the order of floats, and `upper`.
pub record Texts (Num : Type 0) : Type 0 where
  pub repr : Json → String
  pub is_zero_float : String → Bool
  pub int_of : String → Option ℤ
  pub num : String → Option Num
  pub less : Num → Num → Bool
  pub upper : String → String

pub data Resolved : Type 0 where
  value_of : String → String → Resolved
  unresolved : Rejection → Resolved

abbrev pub refuse : String → String → Resolved
refuse reason code = unresolved (record { reason = reason; code = code })

abbrev pub is_set {ℓ} : {A : Type ℓ} → Option A → Bool
is_set none = false
is_set (some a) = true

module _ {Num : Type 0} (texts : Texts Num) where
  abbrev pub value_from : String → Option Dict → Resolved
  value_from value none = refuse ("取值「" <> value <> "」不在可选状态内") "value_not_in_enum"
  value_from value (some d) =
      value_of (text_at texts.repr texts.is_zero_float "paramValue" d)
        (text_at texts.repr texts.is_zero_float "status" d)

  abbrev pub below : Option Num → Num → Bool
  below none v = false
  below (some lo) v = texts.less v lo

  abbrev pub above : Option Num → Num → Bool
  above none v = false
  above (some hi) v = texts.less hi v

  abbrev pub in_range : ParamType → String → Option Num → Resolved
  in_range p value none = refuse ("取值「" <> value <> "」不是数值") "out_of_range"
  in_range p value (some v) =
      if below (texts.num (strip p.min_value)) v || above (texts.num (strip p.max_value)) v
      then refuse ("取值 " <> value <> " 超范围 [" <> p.min_value <> "," <> p.max_value <> "]")
          "out_of_range"
      else value_of value value

  abbrev pub has_range : ParamType → Bool
  has_range p = is_set (texts.num (strip p.min_value)) || is_set (texts.num (strip p.max_value))

  abbrev pub resolve_stripped : ParamType → String → Resolved
  resolve_stripped p value =
      if not (is_empty p.param_statuses)
      then value_from value (find (is_choice texts.repr texts.is_zero_float value) p.param_statuses)
      else if has_range p
      then in_range p value (texts.num (strip value))
      else refuse ("参数「" <> p.param_type_name <> "」取值无法校验(无枚举/无范围)") "ungroundable"

  -- `_resolve_value`
  unfoldable pub resolve_value : ParamType → String → Resolved
  resolve_value p value = resolve_stripped p (strip value)

  -- `_is_door`
  unfoldable pub is_door : String → String → Bool
  is_door point_type_no system_no =
      system_no == "mj"
      || (ends_with (texts.upper point_type_no) "MJ" || contains point_type_no "门禁")

  abbrev pub either_action :
      Option (String × String) → Option (String × String) → Option (String × String)
  either_action (some a) b = some a
  either_action none b = b

  abbrev pub door_grounded : Intent → String × String → Grounded
  door_grounded i (status, cpv) = record {
    device_id = i.device_id;
    point_id = i.point_id;
    point_type_id = i.point_type_id;
    point_type_no = i.point_type_no;
    param_type_id = "";
    param_type_no = "channelControl";
    param_type_name = "通道控制";
    param_value = cpv;
    param_status = status;
    system_no = i.system_no;
    reversibility = reversible;
    param_type = "";
    param_sub_id = "";
    current_value = "";
    action = "doorControl";
  }

  abbrev pub grounded_at : Intent → ParamType → String → String → String → Grounded
  grounded_at i p value status rev = record {
    device_id = i.device_id;
    point_id = i.point_id;
    point_type_id = i.point_type_id;
    point_type_no = i.point_type_no;
    param_type_id = p.param_type_id;
    param_type_no = p.param_type_no;
    param_type_name = p.param_type_name;
    param_value = value;
    param_status = status;
    system_no = i.system_no;
    reversibility = rev;
    param_type = p.param_type;
    param_sub_id = p.param_sub_id;
    current_value = p.current_value;
    action = if is_door_param p then "doorControl" else "deviceCtrl";
  }

module _ {Num : Type 0} (texts : Texts Num) (rmap : ReversibilityMap) (idempotent : Bool)
    (i : Intent) where
  abbrev pub with_class : ParamType → String → String → String → Grounding
  with_class p value status rev =
      if rev == irreversible && not idempotent
      then reject "识别为不可逆操作(非状态型),后端暂不支持安全下发,已降级人工" "irreversible_no_idem"
      else grounded (grounded_at texts i p value status rev)

  abbrev pub with_value : ParamType → Resolved → Grounding
  with_value p (unresolved r) = rejected r
  with_value p (value_of value status) =
      with_class p value status (classify i.point_type_no p.param_type_no rmap)

  abbrev pub with_param : Option ParamType → Grounding
  with_param none = reject ("找不到可控参数「" <> i.param <> "」") "param_not_found"
  with_param (some p) =
      if not p.is_ctrl
      then reject ("参数「" <> p.param_type_name <> "」不可控(isCtrl=false)") "not_controllable"
      else with_value p (resolve_value texts p i.value)

  abbrev pub with_params : Fetched (List ParamType) → Grounding
  with_params (backend_error code text) = reject ("读取参数字典失败:" <> text) "dict_error"
  with_params (fetched ps) = with_param (match_param texts.repr texts.is_zero_float ps i.param)

  abbrev pub read_params : ParamReader → Option String → Fetched (List ParamType)
  read_params backend token =
      if nonempty i.point_id
      then backend.by_point i.point_id i.point_type_id token
      else backend.by_type i.point_type_id token

  abbrev pub ground_by : ParamReader → Option String → Option (String × String) → Grounding
  ground_by backend token none = with_params (read_params backend token)
  ground_by backend token (some a) =
      if is_door texts i.point_type_no i.system_no
      then grounded (door_grounded texts i a)
      else with_params (read_params backend token)

  abbrev pub bad_device : Bool
  bad_device = nonempty i.device_id && not (is_set (texts.int_of (strip i.device_id)))

  -- `ground_control`
  unfoldable pub ground_control : ParamReader → Option String → Grounding
  ground_control backend token =
      if not (nonempty i.point_type_id) && not (nonempty i.point_id)
      then reject "缺少设备点位坐标,请先查设备(device_status)" "no_point_type"
      else if bad_device
      then reject ("设备 id「" <> i.device_id <> "」非数字,无法下发——请先用 device_status 取正确设备坐标")
          "bad_device_id"
      else ground_by backend token (either_action texts (door_action i.value) (door_action i.param))
