-- ===== src/Proposal/Backend.antt =====
-- agent_tools/proposal_control.py, `_execute`: one command to the devices, and its read-back.
use park_smart_harness.Base.{
  String, ◌<>◌, ◌==◌, Bool, true, false, not, ◌&&◌, Option, none, some, List, [], ◌∷◌, nonempty,
  contains, if◌then◌else◌,
}
use park_smart_harness.Base.Assoc.{lookup}
use park_smart_harness.Json.{Json, Dict, get}

-- A call of the backend: its answer, or an exception with its `code` and its text.
pub data Answer {ℓ} (A : Type ℓ) : Type ℓ where
  got : A → Answer A
  broke : String → String → Answer A

-- One device as the status page shows it, with the readings of its parameters.
pub record DeviceHit : Type 0 where
  pub device_id : String
  pub status : String
  pub readings : List (String × String)

-- `BackendClient`, as far as it is called here. A token that is empty is not sent.
pub record Backend (B : Type 0) : Type 0 where
  pub device_status : Option String → B → Answer (List DeviceHit) × B
  pub device_ctrl : Dict → Option String → B → Answer Bool × B
  pub door_control : Dict → Option String → B → Answer Bool × B

-- `x or None`, of a text
abbrev pub or_none : String → Option String
or_none s = if nonempty s then some s else none

-- Python's `str` of a value, and `repr` of a dict.
pub record Printer : Type 0 where
  pub text : Json → String
  pub repr : Dict → String

abbrev text_or_empty : Printer → Option Json → String
text_or_empty p none = ""
text_or_empty p (some j) = p.text j

-- `str(args.get(key, ""))`
abbrev pub arg_text : Printer → String → Dict → String
arg_text p key args = text_or_empty p (get key args)

-- The first hit of the device.
unfoldable pub hit_of : String → List DeviceHit → Option DeviceHit
hit_of device_id [] = none
hit_of device_id (h ∷ hs) = if h.device_id == device_id then some h else hit_of device_id hs

unfoldable pub reading_of : String → DeviceHit → Option String
reading_of param_no h = lookup param_no h.readings

abbrev or_empty : Option String → String
or_empty none = ""
or_empty (some s) = s

-- What is read back now, in a simulated run; any failure counts as nothing read.
unfoldable pub current : Printer → Dict → Answer (List DeviceHit) → String
current p args (broke code text) = ""
current p args (got hits) = elim (hit_of (arg_text p "deviceId" args) hits) [
  | none ↦ ""
  | some h ↦ or_empty (reading_of (arg_text p "paramTypeNo" args) h)
]

unfoldable pub simulated_text : Printer → Dict → String → String
simulated_text p args cur =
    let msg : String = "[模拟] 已确认,未真实下发(real 需后端 commandId/幂等)" in
    if nonempty cur then msg <> ";当前读回=" <> cur <> "、目标=" <> arg_text p "paramValue" args else msg

abbrev compared : String → String → Option String → String
compared target param_no none =
    "accepted=True effective=unknown(该参数无即时读回,状态型稍后生效) target=" <> target
compared target param_no (some reading) =
    if nonempty target && (target == reading)
    then "accepted=True effective=True " <> param_no <> "读回=" <> reading
    else "accepted=True effective=pending(已受理," <> param_no <> "读回 " <> reading <> "≠目标 " <> target
      <> ")"

-- The command was accepted; its effect is what the device's own reading says, no other device's.
unfoldable pub effect : Printer → Dict → Answer (List DeviceHit) → String
effect p args (broke code text) =
    "accepted=True effective=unknown(读回失败:" <> text <> ") target=" <> arg_text p "paramValue" args
effect p args (got hits) = elim (hit_of (arg_text p "deviceId" args) hits) [
  | none ↦ "accepted=True effective=unknown(无设备读回) target=" <> arg_text p "paramValue" args
  | some h ↦
      if not (contains h.status "在线") && nonempty h.status
      then "accepted=True effective=False(设备" <> h.status <> ",已受理未生效)"
      else compared (arg_text p "paramValue" args) (arg_text p "paramTypeNo" args)
          (reading_of (arg_text p "paramTypeNo" args) h)
]

module _ {B : Type 0} (p : Printer) (b : Backend B) where
  -- After the command.
  unfoldable pub settled : String → Dict → String → Answer Bool × B → Answer String × B
  settled name args token (broke code text, w) = (broke code text, w)
  settled name args token (got false, w) = (got "accepted=False(后端未受理)", w)
  settled name args token (got true, w) =
      if name == "doorControl"
      then (
        got (
            "accepted=True effective=unknown(门禁通道控制,状态型稍后核验) target="
            <> arg_text p "currentParamValue" args),
        w,
      )
      else (let (hits, w') = b.device_status (or_none token) w in (got (effect p args hits), w'))

  unfoldable pub simulate : Dict → String → B → Answer String × B
  simulate args token w =
      let (hits, w') = b.device_status (or_none token) w in
      (got (simulated_text p args (current p args hits)), w')

  unfoldable pub command : String → Dict → String → B → Answer String × B
  command name args token w = settled name args token (
      if name == "doorControl"
      then b.door_control args (or_none token) w
      else b.device_ctrl args (or_none token) w)

-- `_execute`: without a backend an echo; unless the mode is `real`, nothing is sent.
unfoldable pub execute :
    {B : Type 0}
    → Printer
    → Option (Backend B)
    → String
    → String
    → Dict
    → String
    → B
    → Answer String × B
execute p none mode name args token w = (got "ok", w)
execute p (some b) mode name args token w =
    if mode == "real" then command p b name args token w else simulate p b args token w
