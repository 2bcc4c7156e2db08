-- ===== src/PlanView/Laws.antt =====
-- The log without its plan calls: no plan call is left, and every other result keeps its call. The
-- plan as text: for which plans there is none.
use park_smart_harness.Base.{
  ◌≡◌, inl, inr, refl, sym, ap, subst, String, Bool, true, false, Option, none, some, List, [], ◌∷◌,
  ◌++◌, any, All, arith, ◌==◌, ◌&&◌, ◌||◌, Bool-cases,
}
use park_smart_harness.Message.{Message, ToolCallReq, Role, system, user, assistant, tool, other}
use park_smart_harness.Plan.{is_assistant}
use park_smart_harness.Store.{is_tool}
use park_smart_harness.Loop.Turn.{is_empty}
use park_smart_harness.Repair.{is_known, ids_of, known_after, is_kept}
use park_smart_harness.Repair.Legal.{AllKept}
use park_smart_harness.PlanView.{
  is_plan_call, plan_calls, other_calls, among, plans, only_plans, without_plans, exclude_from,
  exclude_plan_calls,
}

abbrev pub has : String → List String → Bool
has i ids = any (λ k. k == i) ids

-- Every known id is known to the view too, or is that of a plan call.
abbrev Covered : List String → List String → List String → Type 0
Covered known ids wider = (i : String) → has i known ≡ true → has i ids ≡ false → has i wider ≡ true

has-append : (i : String) (xs ys : List String) → has i (xs ++ ys) ≡ (has i xs || has i ys)
has-append i [] ys = refl
has-append i (x ∷ xs) ys = ground (arith, has-append i xs ys)

call_sorted :
    (i : String) (cs : List ToolCallReq)
    → has i (ids_of cs) ≡ true
    → has i (ids_of (plan_calls cs)) ≡ false
    → has i (ids_of (other_calls cs)) ≡ true
call_sorted i [] h n = h
call_sorted i (c ∷ cs) h n = elim (Bool-cases (is_plan_call c)) [
  | inl e ↦ rw e (call_sorted i cs (ground (arith, e)) (ground (arith, e)))
  | inr e ↦ rw e (ground (arith, e, call_sorted i cs))
]

no_calls : (cs : List ToolCallReq) → is_empty cs ≡ true → ids_of cs ≡ []
no_calls [] h = refl
no_calls (c ∷ cs) h = cc

assistant_of : (r : Role) → is_assistant r ≡ true → r ≡ assistant
assistant_of assistant h = refl
assistant_of system h = cc
assistant_of user h = cc
assistant_of tool h = cc
assistant_of (other t) h = cc

-- A message that is no plan turn stays or goes; here the ids known after it.
Covered-after :
    (r : Role) (m : Message) (known ids wider : List String)
    → Covered known ids wider
    → Covered (known_after r m known) ids (known_after r m wider)
Covered-after assistant m known ids wider c i h n = h
Covered-after user m known ids wider c i h n = h
Covered-after tool m known ids wider c i h n = c i h n
Covered-after system m known ids wider c i h n = c i h n
Covered-after (other t) m known ids wider c i h n = c i h n

known-Covered :
    (known ids wider : List String) (o : Option String)
    → Covered known ids wider
    → among ids o ≡ false
    → is_known known o ≡ true
    → is_known wider o ≡ true
known-Covered known ids wider none c n h = cc
known-Covered known ids wider (some i) c n h = ground (arith, c i, h, n)

kept-Covered :
    (r : Role) (m : Message) (known ids wider : List String)
    → Covered known ids wider
    → (is_tool r && among ids m.tool_call_id) ≡ false
    → is_kept r m known ≡ true
    → is_kept r m wider ≡ true
kept-Covered tool m known ids wider c n h = known-Covered known ids wider m.tool_call_id c n h
kept-Covered system m known ids wider c n h = refl
kept-Covered user m known ids wider c n h = refl
kept-Covered assistant m known ids wider c n h = refl
kept-Covered (other t) m known ids wider c n h = refl

gone-Covered :
    (r : Role) (m : Message) (known ids wider : List String)
    → Covered known ids wider
    → (is_tool r && among ids m.tool_call_id) ≡ true
    → Covered (known_after r m known) ids wider
gone-Covered tool m known ids wider c n i h k = c i h k
gone-Covered system m known ids wider c n i h k = cc
gone-Covered user m known ids wider c n i h k = cc
gone-Covered assistant m known ids wider c n i h k = cc
gone-Covered (other t) m known ids wider c n i h k = cc

abbrev with_plans : Message → List String → List String
with_plans m ids = ids_of (plan_calls m.tool_calls) ++ ids

sorted-Covered :
    (m : Message) (ids : List String)
    → Covered (ids_of m.tool_calls) (with_plans m ids) (ids_of (other_calls m.tool_calls))
sorted-Covered m ids i h n =
    call_sorted i m.tool_calls h
      (ground (arith, has-append i (ids_of (plan_calls m.tool_calls)) ids, n))

alone-Covered :
    (m : Message) (ids wider : List String)
    → only_plans m ≡ true
    → Covered (ids_of m.tool_calls) (with_plans m ids) wider
alone-Covered m ids wider o i h n =
    let sorted = sorted-Covered m ids i h n in
    let no : has i [] ≡ true =
      rw (no_calls (other_calls m.tool_calls) (ground (arith, o))) at sorted in
    cc

kept_assistant :
    (m : Message) (known ks : List String) (ms : List Message)
    → m.role ≡ assistant
    → AllKept (ids_of m.tool_calls) ms
    → AllKept known (m ∷ ms)
kept_assistant m known ks ms e h = (
  subst (λ r. is_kept r m known ≡ true) (sym e) refl,
  subst (λ r. AllKept (known_after r m known) ms) (sym e) h,
)

later_assistant :
    (m : Message) (known : List String) (ms : List Message)
    → m.role ≡ assistant
    → AllKept known (m ∷ ms)
    → AllKept (ids_of m.tool_calls) ms
later_assistant m known ms e h = subst (λ r. AllKept (known_after r m known) ms) e h.1

exclude_from-AllKept :
    (known ids wider : List String) (ms : List Message)
    → Covered known ids wider
    → AllKept known ms
    → AllKept wider (exclude_from ids ms)
unfolding exclude_from
exclude_from-AllKept known ids wider [] c h = tt
exclude_from-AllKept known ids wider (m ∷ ms) c h = elim (Bool-cases (plans m)) [
  | inl e ↦
      let r = assistant_of m.role (ground (arith, e)) in
      let later = later_assistant m known ms r h in
      rw e (elim (Bool-cases (only_plans m)) [
        | inl o ↦ rw o (
            exclude_from-AllKept (ids_of m.tool_calls) (with_plans m ids) wider ms
              (alone-Covered m ids wider o) later)
        | inr o ↦ rw o (
            kept_assistant (without_plans m) wider [] _ r (
              exclude_from-AllKept (ids_of m.tool_calls) (with_plans m ids)
                (ids_of (other_calls m.tool_calls)) ms (sorted-Covered m ids) later))
      ])
  | inr e ↦ rw e (elim (Bool-cases (is_tool m.role && among ids m.tool_call_id)) [
    | inl g ↦ rw g (
        exclude_from-AllKept (known_after m.role m known) ids wider ms
          (gone-Covered m.role m known ids wider c g) h.1)
    | inr g ↦ rw g (
      kept-Covered m.role m known ids wider c g h.0,
      exclude_from-AllKept (known_after m.role m known) ids (known_after m.role m wider) ms
          (Covered-after m.role m known ids wider c) h.1,
    )
  ])
]

-- The log without its plan calls has no orphan if the log has none: a result whose call is left
-- keeps it, and the results of plan calls go with them.
pub exclude_plan_calls-AllKept :
    (known : List String) (ms : List Message)
    → AllKept known ms
    → AllKept known (exclude_plan_calls ms)
unfolding exclude_plan_calls
exclude_plan_calls-AllKept known ms h = exclude_from-AllKept known [] known ms (λ i e n. e) h

no_plan_left : (cs : List ToolCallReq) → is_empty (plan_calls (other_calls cs)) ≡ true
no_plan_left [] = refl
no_plan_left (c ∷ cs) = ground (arith, no_plan_left cs)

without_plans-plans : (m : Message) → plans (without_plans m) ≡ false
without_plans-plans m = ground (arith, no_plan_left m.tool_calls)

exclude_from-none :
    (ids : List String) (ms : List Message) → All (λ m. plans m ≡ false) (exclude_from ids ms)
unfolding exclude_from
exclude_from-none ids [] = tt
exclude_from-none ids (m ∷ ms) = elim (Bool-cases (plans m)) [
  | inl e ↦ rw e (elim (Bool-cases (only_plans m)) [
    | inl o ↦ rw o (exclude_from-none (with_plans m ids) ms)
    | inr o ↦ rw o (without_plans-plans m, exclude_from-none (with_plans m ids) ms)
  ])
  | inr e ↦ rw e (elim (Bool-cases (is_tool m.role && among ids m.tool_call_id)) [
    | inl g ↦ rw g (exclude_from-none ids ms)
    | inr g ↦ rw g (e, exclude_from-none ids ms)
  ])
]

unchanged :
    (ids : List String) (ms : List Message)
    → All (λ m. (plans m ≡ false) × (is_tool m.role && among ids m.tool_call_id ≡ false)) ms
    → exclude_from ids ms ≡ ms
unfolding exclude_from
unchanged ids [] h = refl
unchanged ids (m ∷ ms) h = rw (h.0.0, h.0.1) (ap (◌∷◌ m) (unchanged ids ms h.1))

nobody : (o : Option String) → among [] o ≡ false
nobody none = refl
nobody (some i) = refl

All-nobody :
    (ms : List Message)
    → All (λ m. plans m ≡ false) ms
    → All (λ m. (plans m ≡ false) × (is_tool m.role && among [] m.tool_call_id ≡ false)) ms
All-nobody [] h = tt
All-nobody (m ∷ ms) h = ((h.0, ground (arith, nobody m.tool_call_id)), All-nobody ms h.1)

-- The view without plan calls has none left, loses no call of a result that stays, and excluding
-- them again changes nothing.
pub exclude_plan_calls_lem :
    (ms : List Message)
    → All (λ m. plans m ≡ false) (exclude_plan_calls ms)
      × ((known : List String) → AllKept known ms → AllKept known (exclude_plan_calls ms))
      × (exclude_plan_calls (exclude_plan_calls ms) ≡ exclude_plan_calls ms)
unfolding exclude_plan_calls
exclude_plan_calls_lem ms = (
  exclude_from-none [] ms,
  λ known h. exclude_from-AllKept known [] known ms (λ i e n. e) h,
  unchanged [] (exclude_from [] ms) (All-nobody (exclude_from [] ms) (exclude_from-none [] ms)),
)
