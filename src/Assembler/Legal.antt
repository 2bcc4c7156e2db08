-- ===== src/Assembler/Legal.antt =====
-- The context is a legal sequence behind the system prompt, and the last repair drops nothing from a
-- log whose results have their calls.
use park_smart_harness.Base.{
  ℕ, ◌≡◌, refl, ap, ◌∙◌, subst, String, Bool, true, Option, none, some, List, [], ◌∷◌, ◌++◌, ◌||◌,
  not, any, map, nonempty, Bool-cases, inl, inr, ltb,
}
use park_smart_harness.Json.{Json, Dict}
use park_smart_harness.Message.{Message, plain, system}
use park_smart_harness.Plan.{derive_plan}
use park_smart_harness.Tools.{Conversation}
use park_smart_harness.Store.{is_tool}
use park_smart_harness.Repair.{
  is_user, known_after, drop_orphans, merge_from, merge_users, repair_messages,
}
use park_smart_harness.Repair.Legal.{IsLegal, AllKept}
use park_smart_harness.Repair.Laws.{
  repair_messages-passes, repair_messages-IsLegal, drop_orphans_of_AllKept,
}
use park_smart_harness.Repair.Words.{user_words, of_others, repair_messages_keeps_words}
use park_smart_harness.Repair.Alike.{Alike, AllKept-map}
use park_smart_harness.History.{trim_dialogue_turns, drop_answered_tool_results}
use park_smart_harness.History.Drop.{drop_answered-AllKept}
use park_smart_harness.PlanView.{render_plan}
use park_smart_harness.PlanView.Laws.{exclude_plan_calls-AllKept}
use park_smart_harness.Compaction.{Compaction, derive_compaction, estimate_tokens}
use park_smart_harness.SystemPrompt.{PromptConfig}
use park_smart_harness.Assembler.{
  AssemblerSettings, AssembleError, Assembled, raised, built, is_bare, wrap_tool, head_text,
  thinned, summarised, plan_tail, awareness_tail, laid_before, finished, with_plan_text, with_plan,
  with_history, with_compaction, from_log, assemble,
}

wrap_tool-Alike : (s : AssemblerSettings) (m : Message) → Alike m (wrap_tool s m)
unfolding wrap_tool
wrap_tool-Alike s m = elim (Bool-cases (not (is_tool m.role) || is_bare m.content)) [
  | inl e ↦ rw e (refl, refl, refl)
  | inr e ↦ rw e (refl, refl, refl)
]

system_first :
    (text : String) (ms : List Message)
    → (rest : List Message) × ((merge_from (plain system text) ms).0 ≡ plain system text ∷ rest)
unfolding merge_from
system_first text [] = ([], refl)
system_first text (m ∷ ms) = elim (Bool-cases (is_user m.role)) [
  | inl e ↦ ((merge_from m ms).0, rw e refl)
  | inr e ↦ ((merge_from m ms).0, rw e refl)
]

-- The repair leaves a system message at the head of a sequence as it is.
system_stays :
    (text : String) (ms : List Message)
    → (rest : List Message) × ((repair_messages (plain system text ∷ ms)).0
        ≡ plain system text ∷ rest)
unfolding drop_orphans merge_users
system_stays text ms =
    let (rest, e) = system_first text (drop_orphans [] ms).0 in
    (rest, ap (λ p. p.0) (repair_messages-passes (plain system text ∷ ms)) ∙ e)

AllKept-append :
    (ms ns : List Message)
    → ((known : List String) → AllKept known ns)
    → (known : List String) → AllKept known ms
    → AllKept known (ms ++ ns)
AllKept-append [] ns free known h = free known
AllKept-append (m ∷ ms) ns free known h =
    (h.0, AllKept-append ms ns free (known_after m.role m known) h.1)

plan_tail-free : (text : String) (known : List String) → AllKept known (plan_tail text)
plan_tail-free text known = elim (Bool-cases (nonempty text)) [
  | inl e ↦ rw e (refl, tt)
  | inr e ↦ rw e tt
]

awareness_tail-free :
    (repr_args : Dict → String) (s : AssemblerSettings) (out : List Message) (known : List String)
    → AllKept known (awareness_tail repr_args s out)
awareness_tail-free repr_args s out known =
    elim (Bool-cases (ltb s.soft_token_cap (estimate_tokens repr_args out))) [
      | inl e ↦ rw e (refl, tt)
      | inr e ↦ rw e tt
    ]

pub thinned-AllKept : (ms : List Message) → AllKept [] ms → AllKept [] (thinned ms)
thinned-AllKept ms h =
    exclude_plan_calls-AllKept [] (drop_answered_tool_results ms) (drop_answered-AllKept [] ms h)

-- What is laid out before the repair, with its tail.
abbrev pub unrepaired : (Dict → String) → AssemblerSettings → List Message → List Message
unrepaired repr_args s out = out ++ awareness_tail repr_args s out

pub unrepaired-AllKept :
    (repr_args : Dict → String) (s : AssemblerSettings) (head text : String)
    (history : List Message)
    → AllKept [] history
    → AllKept [] (unrepaired repr_args s (laid_before s (plain system head) history text))
unrepaired-AllKept repr_args s head text history h =
    let out = laid_before s (plain system head) history text in
    let wrapped = AllKept-map (wrap_tool s) (wrap_tool-Alike s) [] history h in
    let laid : AllKept [] out = (
      refl,
      AllKept-append (map (wrap_tool s) history) (plan_tail text) (plan_tail-free text) [] wrapped,
    ) in
    AllKept-append out (awareness_tail repr_args s out) (awareness_tail-free repr_args s out) []
      laid

pub repair_keeps_all :
    (ms : List Message)
    → AllKept [] ms
    → (of_others (repair_messages ms).0 ≡ of_others ms)
      × (user_words (repair_messages ms).0 ≡ user_words ms)
repair_keeps_all ms h =
    let kept = repair_messages_keeps_words ms in
    (
      kept.1 ∙ ap (λ (p : List Message × ℕ). of_others p.0) (drop_orphans_of_AllKept [] ms h),
      kept.0,
    )

-- A context: legal, and the system prompt first.
abbrev pub IsContext : String → List Message → Type 0
IsContext head out = IsLegal out × ((rest : List Message) × (out ≡ plain system head ∷ rest))

abbrev pub Contextual : String → Assembled → Type 0
Contextual head (raised e) = Unit {0}
Contextual head (built out) = IsContext head out

module _ (lower : String → String) (strip_fence : String → String) (repr : Json → String)
    (z : String → Bool) (repr_args : Dict → String) (s : AssemblerSettings) where
  finished-Contextual :
      (head text : String) (history : List Message)
      → Contextual head (finished repr_args s (laid_before s (plain system head) history text))
  finished-Contextual head text history = (repair_messages-IsLegal _, system_stays head _)

  with_compaction-Contextual :
      (head : String) (log : List Message) (c : Option Compaction)
      → Contextual head
          (with_compaction lower strip_fence repr z repr_args s (plain system head) log c)
  with_compaction-Contextual head log c =
      elim (trim_dialogue_turns s.keep_recent_turns s.keep_first (thinned (summarised log c)))
        as (λ o.
          Contextual head
            (with_history lower strip_fence repr z repr_args s (plain system head) log o)) [
              | none ↦ tt
              | some history ↦
                  elim (derive_plan log)
                    as (λ o. Contextual head (
                      with_plan lower strip_fence repr z repr_args s (plain system head) history
                        o)) [
                          | none ↦ tt
                          | some plan ↦
                              elim (render_plan repr z 12 60 plan)
                                as (λ o. Contextual head (
                                  with_plan_text lower strip_fence repr z repr_args s
                                    (plain system head) history o)) [
                                      | none ↦ tt
                                      | some text ↦ finished-Contextual head text history
                                    ]
                        ]
            ]

  from_log-Contextual :
      (head : String) (log : List Message) (c : Option (Option Compaction))
      → Contextual head (from_log lower strip_fence repr z repr_args s (plain system head) log c)
  from_log-Contextual head log none = with_compaction-Contextual head log none
  from_log-Contextual head log (some none) = tt
  from_log-Contextual head log (some (some c)) = with_compaction-Contextual head log (some c)

  -- Whatever the log holds, an assembled context is a legal sequence: every tool message answers an
  -- open call, and no two user messages stand in a row. Its first message is the system prompt as it
  -- was composed, and a log without a user message has no context.
  pub assemble-IsContext :
      (config : PromptConfig) (conv : Conversation) (out : List Message)
      → assemble lower strip_fence repr z repr_args s config conv ≡ built out
      → IsContext (head_text lower strip_fence repr z repr_args s config conv) out
        × (any (λ m. is_user m.role) conv.messages ≡ true)
  unfolding assemble
  assemble-IsContext config conv out h =
      elim (Bool-cases (any (λ m. is_user m.role) conv.messages)) [
        | inl e ↦ (
          subst (Contextual (head_text lower strip_fence repr z repr_args s config conv))
              (rw e at h) (from_log-Contextual _ conv.messages (derive_compaction conv.messages)),
          e,
        )
        | inr e ↦ let no : raised AssembleError.no_user ≡ built out = rw e at h in absurd (cc)
      ]
