-- ===== src/Ground/Checked.antt =====
-- The guarantee of `ground_control`, on every path to a grounded action.
use mathlib.Core.List.{Memᴰ}
use park_smart_harness.Base.{
  ◌≡◌, ◌⊎◌, inl, inr, refl, ap, ◌∙◌, subst, String, Bool, true, Option, none, some, List, [], ◌∷◌,
  ◌==◌, ◌&&◌, not, nonempty, strip, arith, eq_iff, Bool-cases,
}
use park_smart_harness.Ground.{
  Intent, Grounded, ParamType, Fetched, fetched, backend_error, Grounding, grounded, rejected,
  ReversibilityMap, irreversible, classify, door_action, match_param, in_list,
}
use park_smart_harness.Ground.Control.{
  ParamReader, Texts, Resolved, value_of, unresolved, resolve_value, is_door, either_action,
  door_grounded, grounded_at, with_class, with_value, with_param, with_params, read_params,
  ground_by, bad_device, ground_control,
}
use park_smart_harness.Ground.Safe.{Allowed, WhenValue, resolve_value-Allowed, match_param-Mem}

-- Opening or closing a door.
abbrev pub DoorAction : String × String → Type 0
DoorAction a = (a ≡ ("开门", "2")) ⊎ (a ≡ ("关门", "1"))

abbrev pub WhenAction : Option (String × String) → Type 0
WhenAction none = Unit {0}
WhenAction (some a) = DoorAction a

door_action-DoorAction : (v : String) → WhenAction (door_action v)
unfolding door_action
door_action-DoorAction v =
    elim (Bool-cases (in_list (strip v) ("开门" ∷ "开" ∷ "打开" ∷ "开启" ∷ "开锁" ∷ []))) [
      | inl e ↦ rw e (inl refl)
      | inr e ↦ elim (Bool-cases (in_list (strip v) ("关门" ∷ "关" ∷ "关闭" ∷ "闭门" ∷ "锁门" ∷ []))) [
        | inl f ↦ rw (e, f) (inr refl)
        | inr f ↦ rw (e, f) tt
      ]
    ]

module _ {Num : Type 0} (texts : Texts Num) (rmap : ReversibilityMap) (idempotent : Bool)
    (i : Intent) (backend : ParamReader) (token : Option String) where
  either-WhenAction :
      (a b : Option (String × String))
      → WhenAction a
      → WhenAction b
      → WhenAction (either_action texts a b)
  either-WhenAction (some a) b h k = h
  either-WhenAction none b h k = k

  -- A fixed action on a door; or a write of an allowed value to a parameter that the backend has just
  -- listed for this device as controllable, and if it is marked as irreversible, only with a backend
  -- that takes an action once.
  pub data IsChecked (g : Grounded) : Type 0 where
    door :
        (a : String × String)
        → is_door texts i.point_type_no i.system_no ≡ true
        → DoorAction a
        → g ≡ door_grounded texts i a
        → IsChecked g
    write :
        (ps : List ParamType) (p : ParamType)
        → read_params texts rmap idempotent i backend token ≡ fetched ps
        → Memᴰ p ps
        → p.is_ctrl ≡ true
        → Allowed texts p (strip i.value) g.param_value g.param_status
        → (classify i.point_type_no p.param_type_no rmap ≡ irreversible → idempotent ≡ true)
        → g
          ≡ grounded_at texts i p g.param_value g.param_status
              (classify i.point_type_no p.param_type_no rmap)
        → IsChecked g

  abbrev pub WhenGrounded : Grounding → Type 0
  WhenGrounded (rejected r) = Unit {0}
  WhenGrounded (grounded g) = IsChecked g

  with_class-checked :
      (ps : List ParamType) (p : ParamType) (value status rev : String)
      → read_params texts rmap idempotent i backend token ≡ fetched ps
      → Memᴰ p ps
      → p.is_ctrl ≡ true
      → Allowed texts p (strip i.value) value status
      → rev ≡ classify i.point_type_no p.param_type_no rmap
      → WhenGrounded (with_class texts rmap idempotent i p value status rev)
  with_class-checked ps p value status rev r m c a e =
      elim (Bool-cases (rev == irreversible && not idempotent)) [
        | inl h ↦ rw h tt
        | inr h ↦ rw h (
            write ps p r m c a
              (λ k.
                let same : (rev == irreversible) ≡ true = (eq_iff rev irreversible).1 (e ∙ k) in
                ground (arith, h, same))
              (ap (grounded_at texts i p value status) e))
      ]

  with_value-checked :
      (ps : List ParamType) (p : ParamType) (v : Resolved)
      → read_params texts rmap idempotent i backend token ≡ fetched ps
      → Memᴰ p ps
      → p.is_ctrl ≡ true
      → WhenValue texts (Allowed texts p (strip i.value)) v
      → WhenGrounded (with_value texts rmap idempotent i p v)
  with_value-checked ps p (unresolved x) r m c a = tt
  with_value-checked ps p (value_of value status) r m c a =
      with_class-checked ps p value status (classify i.point_type_no p.param_type_no rmap) r m c a
        refl

  with_param-checked :
      (ps : List ParamType) (o : Option ParamType)
      → read_params texts rmap idempotent i backend token ≡ fetched ps
      → ((p : ParamType) → o ≡ some p → Memᴰ p ps)
      → WhenGrounded (with_param texts rmap idempotent i o)
  with_param-checked ps none r m = tt
  with_param-checked ps (some p) r m = elim (Bool-cases p.is_ctrl) [
    | inl c ↦ simp c (
        with_value-checked ps p (resolve_value texts p i.value) r (m p refl) c
          (resolve_value-Allowed texts p i.value))
    | inr c ↦ simp c tt
  ]

  with_params-checked :
      (f : Fetched (List ParamType))
      → read_params texts rmap idempotent i backend token ≡ f
      → WhenGrounded (with_params texts rmap idempotent i f)
  with_params-checked (backend_error code text) r = tt
  with_params-checked (fetched ps) r =
      with_param-checked ps (match_param texts.repr texts.is_zero_float ps i.param) r
        (match_param-Mem texts.repr texts.is_zero_float ps i.param)

  ground_by-checked :
      (a : Option (String × String))
      → WhenAction a
      → WhenGrounded (ground_by texts rmap idempotent i backend token a)
  ground_by-checked none h =
      with_params-checked (read_params texts rmap idempotent i backend token) refl
  ground_by-checked (some a) h = elim (Bool-cases (is_door texts i.point_type_no i.system_no)) [
    | inl d ↦ rw d (door a d h refl)
    | inr d ↦ rw d (with_params-checked (read_params texts rmap idempotent i backend token) refl)
  ]

  ground_control-WhenGrounded : WhenGrounded (ground_control texts rmap idempotent i backend token)
  unfolding ground_control
  ground_control-WhenGrounded =
      elim (Bool-cases (not (nonempty i.point_type_id) && not (nonempty i.point_id))) [
        | inl e ↦ rw e tt
        | inr e ↦ elim (Bool-cases (bad_device texts rmap idempotent i)) [
          | inl b ↦ rw (e, b) tt
          | inr b ↦
              rw (e, b)
                (ground_by-checked (either_action texts (door_action i.value) (door_action i.param))
                  (either-WhenAction (door_action i.value) (door_action i.param)
                    (door_action-DoorAction i.value) (door_action-DoorAction i.param)))
        ]
      ]

  -- A grounded action is the opening or the closing of what counts as a door, which no dictionary
  -- and no reversibility map is asked about. Or it is a write to a parameter that the backend lists
  -- for the device and marks as controllable, of a value that is one of its able states or a number
  -- that does not compare as under its least or over its greatest, as nan does with none; and such
  -- a write that the reversibility map names is grounded only with an idempotent backend.
  pub ground_control-IsChecked :
      (g : Grounded)
      → ground_control texts rmap idempotent i backend token ≡ grounded g
      → IsChecked g
  ground_control-IsChecked g h = subst WhenGrounded h ground_control-WhenGrounded
