-- ===== src/Assembler/Complete.antt =====
-- When a context is assembled, what it holds of the log, and which plan stops it.
use park_smart_harness.Base.{
  ◌<◌, ◌≡◌, refl, ap, ◌∙◌, String, Bool, true, Option, none, some, List, [], ◌∷◌, ◌++◌, any, map,
}
use park_smart_harness.Json.{Json, Dict}
use park_smart_harness.Message.{Message, plain, system}
use park_smart_harness.Plan.{PlanState, replace, derive_plan, last_snapshot}
use park_smart_harness.Plan.Laws.{derive_plan-append}
use park_smart_harness.Tools.{Conversation}
use park_smart_harness.Repair.{is_user, repair_messages}
use park_smart_harness.Repair.Legal.{IsLegal, IsPaired, IsPaired-AllKept}
use park_smart_harness.Repair.Laws.{repair_messages-IsLegal}
use park_smart_harness.Repair.Words.{user_words, of_others}
use park_smart_harness.History.Turns.{IsTrimmed, trim_dialogue_turns-IsTrimmed}
use park_smart_harness.PlanView.{render_plan, shown_items}
use park_smart_harness.PlanView.Render.{unreadable, render_plan_raises_iff}
use park_smart_harness.Compaction.{derive_compaction}
use park_smart_harness.SystemPrompt.{PromptConfig}
use park_smart_harness.Assembler.{
  AssemblerSettings, AssembleError, Assembled, raised, built, head_text, thinned, laid_before,
  assemble, wrap_tool, plan_tail, awareness_tail,
}
use park_smart_harness.Assembler.Wrapping.{WrapsAll, map-WrapsAll}
use park_smart_harness.Assembler.Legal.{
  thinned-AllKept, unrepaired, unrepaired-AllKept, repair_keeps_all,
}

module _ (lower : String → String) (strip_fence : String → String) (repr : Json → String)
    (z : String → Bool) (repr_args : Dict → String) (s : AssemblerSettings)
    (config : PromptConfig) where
  abbrev run : Conversation → Assembled
  run conv = assemble lower strip_fence repr z repr_args s config conv

  abbrev prompt : Conversation → String
  prompt conv = head_text lower strip_fence repr z repr_args s config conv

  -- What is laid out for the shown messages: the system prompt, they, the plan's text if it has
  -- one, and the note on the window if the whole is over the soft cap.
  abbrev pub layout : Conversation → String → List Message → List Message
  layout conv text shown =
      let out = plain system (prompt conv) ∷ (shown ++ plan_tail text) in
      out ++ awareness_tail repr_args s out

  -- The context of a log: of the trimmed view, each message as it is or with its tool result whole
  -- within a frame; laid out, and legal, with every message that is no user's and every word of a
  -- user's.
  pub record Holds (conv : Conversation) (text : String) (out : List Message) : Type 0 where
    pub history : List Message
    pub shown : List Message
    pub view : IsTrimmed s.keep_recent_turns s.keep_first (thinned conv.messages) history
    pub wrapped : WrapsAll history shown
    pub legal : IsLegal out
    pub others : of_others out ≡ of_others (layout conv text shown)
    pub words : user_words out ≡ user_words (layout conv text shown)

  Holds-intro :
      (conv : Conversation) (text : String) (history : List Message)
      → IsPaired [] conv.messages
      → IsTrimmed s.keep_recent_turns s.keep_first (thinned conv.messages) history
      → Holds conv text
          (repair_messages
            (unrepaired repr_args s (laid_before s (plain system (prompt conv)) history text))).0
  Holds-intro conv text history p t =
      let all = t.paired [] (thinned-AllKept conv.messages (IsPaired-AllKept [] conv.messages p)) in
      let kept =
        repair_keeps_all _ (unrepaired-AllKept repr_args s (prompt conv) text history all) in
      record {
        history = history;
        shown = map (wrap_tool s) history;
        view = t;
        wrapped = map-WrapsAll s history;
        legal = repair_messages-IsLegal _;
        others = kept.0;
        words = kept.1;
      }

  -- A log with a user message and no summary, in which every tool result answers a call before it,
  -- has a context, as long as at least one recent turn is kept and the plan has a text. The context
  -- is the layout of the trimmed view, with the content of each tool result whole within its frame,
  -- of the plan's text and of the note: the last repair takes no message of it away that is no
  -- user's and no word of a user's.
  pub assemble_loses_nothing :
      (conv : Conversation) (plan : PlanState) (text : String)
      → 0 < s.keep_recent_turns
      → any (λ m. is_user m.role) conv.messages ≡ true
      → derive_compaction conv.messages ≡ none
      → IsPaired [] conv.messages
      → derive_plan conv.messages ≡ some plan
      → render_plan repr z 12 60 plan ≡ some text
      → (out : List Message) × (run conv ≡ built out) × Holds conv text out
  unfolding assemble
  assemble_loses_nothing conv plan text pos u c p d r =
      let (history, e, t) =
        trim_dialogue_turns-IsTrimmed s.keep_recent_turns s.keep_first (thinned conv.messages)
          pos in
      (_, rw (u, c, e, d, r) refl, Holds-intro conv text history p t)

  -- If one of the items that the rendering shows is unreadable, the plan stops every assembly of
  -- its thread, until another plan call comes: whatever is appended without one, as long as the log
  -- has a user message and no summary and a recent turn is kept, the assembly raises. An item that is folded away, as the leading done ones of a long
  -- plan are, does no harm.
  pub assemble_stuck_on_plan :
      (conv : Conversation) (later : List Message) (plan : PlanState)
      → 0 < s.keep_recent_turns
      → any (λ m. is_user m.role) (conv.messages ++ later) ≡ true
      → derive_compaction (conv.messages ++ later) ≡ none
      → derive_plan conv.messages ≡ some plan
      → any (unreadable z 60) (shown_items repr z 12 plan) ≡ true
      → last_snapshot later ≡ none
      → run (record conv { messages = conv.messages ++ later }) ≡ raised AssembleError.bad_plan
  unfolding assemble
  assemble_stuck_on_plan conv later plan pos u c d bad l =
      let ms = conv.messages ++ later in
      let (history, e, t) =
        trim_dialogue_turns-IsTrimmed s.keep_recent_turns s.keep_first (thinned ms) pos in
      let same : derive_plan ms ≡ some plan =
        derive_plan-append conv.messages later
        ∙ ap
            (λ o. elim o as (λ _. Option PlanState) [
              | none ↦ derive_plan conv.messages
              | some v ↦ replace v
            ])
            l
        ∙ d in
      rw (u, c, e, same, (render_plan_raises_iff repr z 12 60 plan).1 bad) refl
