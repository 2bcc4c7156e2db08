-- ===== src/Examples/Grounding.antt =====
-- The theorems on grounded controls and their proposals at concrete inputs.
use park_smart_harness.Base.{
  ℕ, ◌≡◌, refl, String, true, false, Option, none, some, [], ◌∷◌, ◌==◌, ltb, if◌then◌else◌, strip,
  contains,
}
use park_smart_harness.Json.{Json, Dict, ℤ, pos, str, entry, end}
use park_smart_harness.Ground.{
  Intent, Grounded, ParamType, fetched, grounded, ReversibilityMap, match_param, classify,
  door_action, is_door_param, reversible,
}
use park_smart_harness.Ground.Control.{
  ParamReader, Texts, resolve_value, grounded_at, ground_control,
}
use park_smart_harness.Ground.Checked.{IsChecked, ground_control-IsChecked}
use park_smart_harness.Propose.{DeviceHit, ProposeBackend, propose_control}
use park_smart_harness.Propose.Unique.{Outcome, propose_control-Outcome}
use park_smart_harness.Examples.{ctx_of}

abbrev number_of : String → Option ℕ
number_of s =
    if s == "16"
    then some 16
    else if s == "24"
    then some 24
    else if s == "30"
    then some 30
    else none

abbrev int_of : String → Option ℤ
int_of s = if s == "7" then some (pos 7) else none

abbrev print : Json → String
print (str s) = s
print v = "?"

abbrev texts : Texts ℕ
texts = record {
  repr = print;
  is_zero_float = λ l. false;
  int_of = int_of;
  num = number_of;
  less = ltb;
  upper = λ s. s;
}

-- The temperature of an air conditioner, between 16 and 30.
abbrev temperature : ParamType
temperature = record {
  param_type_no = "WD";
  param_type_name = "温度设定";
  is_ctrl = true;
  min_value = "16";
  max_value = "30";
  param_statuses = [];
  param_type_id = "p-wd";
  param_type = "1";
  param_sub_id = "";
  current_value = "26";
}

abbrev reader : ParamReader
reader = record {
  by_point = λ point point_type token. fetched (temperature ∷ []);
  by_type = λ point_type token. fetched (temperature ∷ []);
}

abbrev no_exceptions : ReversibilityMap
no_exceptions = record { params = []; pairs = [] }

abbrev warmer : Intent
warmer = record {
  point_type_id = "11";
  point_type_no = "KT";
  device_id = "7";
  point_id = "p";
  system_no = "";
  param = "温度";
  value = "24";
}

abbrev warm : Grounded
warm = grounded_at texts warmer temperature "24" "24" reversible

warmer-grounded : ground_control texts no_exceptions false warmer reader none ≡ grounded warm
unfolding ground_control match_param resolve_value classify door_action is_door_param strip contains
warmer-grounded = refl

ground_control-IsChecked_example : IsChecked texts no_exceptions false warmer reader none warm
ground_control-IsChecked_example =
    ground_control-IsChecked texts no_exceptions false warmer reader none warm warmer-grounded

abbrev conditioner : String → DeviceHit
conditioner name = record {
  device_id = "7";
  name = name;
  status = "在线";
  point_type_no = "KT";
  point_type_id = "11";
  point_id = "p";
}

abbrev backend : ProposeBackend
backend = record {
  device_status = λ name token. fetched (conditioner "空调1" ∷ conditioner "空调11" ∷ []);
  params = reader;
}

abbrev wish : String → Dict
wish device = entry "device" (str device) (entry "param" (str "温度") (entry "value" (str "24") end))

propose_control-Outcome_example :
    Outcome texts no_exceptions backend
      (wish "空调1")
      (ctx_of [])
      "h1"
      []
      (propose_control texts no_exceptions backend (wish "空调1") (ctx_of []) "h1" [])
propose_control-Outcome_example =
    propose_control-Outcome texts no_exceptions backend (wish "空调1") (ctx_of []) "h1" []

-- Both outcomes happen: an exact name among two devices, and a name that fits both.
named_exactly :
    (propose_control texts no_exceptions backend (wish "空调1") (ctx_of []) "h1" []).0.ok ≡ true
unfolding propose_control ground_control match_param resolve_value classify door_action
    is_door_param strip contains
named_exactly = refl

named_badly :
    (propose_control texts no_exceptions backend (wish "空调") (ctx_of []) "h1" []).0.ok ≡ false
unfolding propose_control
named_badly = refl
