-- ===== src/Loop/Batch/Governed.antt =====
-- What the executor is called with: only registered tools that the gate allows.
use park_smart_harness.Base.{
  ℕ, suc, ◌≡◌, refl, ap, ◌∙◌, Option, none, some, List, [], ◌∷◌, All, All-append, length, replicate,
}
use park_smart_harness.Message.{ToolCallReq}
use park_smart_harness.Tools.{ToolContext, Host, LoopTool, get_tool}
use park_smart_harness.Gate.{Verdict, allow, ask, deny}
use park_smart_harness.Dispatch.{ToolExecOutcome}
use park_smart_harness.Loop.{Control, Call}
use park_smart_harness.Loop.Batch.{
  Batch, Items, on_ask, on_verdict, classify_found, classify_calls, verified, run_allow, run_items,
  run_batch, fill,
}

module _ {W : Type 0} (x : Call W) where
  -- The same call with another executor.
  abbrev pub with_executor :
      (ToolCallReq → LoopTool W → ToolContext → Host W → ToolExecOutcome × Host W) → Call W
  with_executor f = record x { seams = record x.seams { execute_one = f } }

module _ {W : Type 0} (x : Call W) (ctx : ToolContext) where
  -- The registry has the tool for the call, and the gate allows the call.
  abbrev pub IsAllowed : ToolCallReq → LoopTool W → Type 0
  IsAllowed call t = (get_tool x.registry call.name ≡ some t) × (x.classify call t ctx ≡ allow)

  abbrev pub AllAllowed : Items W → Type 0
  AllAllowed = All (λ item. IsAllowed item.1 item.2)

  on_ask-AllAllowed :
      (i : ℕ) (call : ToolCallReq) (c : Option (Control W)) (bh : Batch W × Host W)
      → AllAllowed bh.0.allow_items
      → AllAllowed (on_ask x i call c bh).0.allow_items
  unfolding on_ask
  on_ask-AllAllowed i call none (b, h) a = a
  on_ask-AllAllowed i call (some c) (b, h) a = a

  on_verdict-AllAllowed :
      (i : ℕ) (call : ToolCallReq) (t : LoopTool W) (v : Verdict) (bh : Batch W × Host W)
      → get_tool x.registry call.name ≡ some t
      → x.classify call t ctx ≡ v
      → AllAllowed bh.0.allow_items
      → AllAllowed (on_verdict x i call t v bh).0.allow_items
  unfolding on_verdict
  on_verdict-AllAllowed i call t deny (b, h) f e a = a
  on_verdict-AllAllowed i call t ask (b, h) f e a = on_ask-AllAllowed i call x.control (b, h) a
  on_verdict-AllAllowed i call t allow (b, h) f e a =
      All-append (λ item. IsAllowed item.1 item.2) b.allow_items ((i, call, t) ∷ []) a ((f, e), tt)

  classify_found-AllAllowed :
      (i : ℕ) (call : ToolCallReq) (t : Option (LoopTool W)) (bh : Batch W × Host W)
      → get_tool x.registry call.name ≡ t
      → AllAllowed bh.0.allow_items
      → AllAllowed (classify_found x ctx i call t bh).0.allow_items
  unfolding classify_found
  classify_found-AllAllowed i call none (b, h) f a = a
  classify_found-AllAllowed i call (some t) (b, h) f a =
      on_verdict-AllAllowed i call t (x.classify call t ctx) (b, h) f refl a

  pub classify_calls-AllAllowed :
      (i : ℕ) (calls : List ToolCallReq) (bh : Batch W × Host W)
      → AllAllowed bh.0.allow_items
      → AllAllowed (classify_calls x ctx i calls bh).0.allow_items
  unfolding classify_calls
  classify_calls-AllAllowed i [] bh a = a
  classify_calls-AllAllowed i (call ∷ calls) bh a =
      classify_calls-AllAllowed (suc i) calls _
        (classify_found-AllAllowed i call (get_tool x.registry call.name) bh refl a)

  module _ (f : ToolCallReq → LoopTool W → ToolContext → Host W → ToolExecOutcome × Host W) where
    on_verdict-with_executor :
        (i : ℕ) (call : ToolCallReq) (t : LoopTool W) (v : Verdict) (bh : Batch W × Host W)
        → on_verdict (with_executor x f) i call t v bh ≡ on_verdict x i call t v bh
    unfolding on_verdict on_ask
    on_verdict-with_executor i call t deny (b, h) = refl
    on_verdict-with_executor i call t allow (b, h) = refl
    on_verdict-with_executor i call t ask (b, h) = asked x.control
      where
        asked :
            (c : Option (Control W))
            → on_ask (with_executor x f) i call c (b, h) ≡ on_ask x i call c (b, h)
        asked none = refl
        asked (some c) = refl

    classify_found-with_executor :
        (i : ℕ) (call : ToolCallReq) (t : Option (LoopTool W)) (bh : Batch W × Host W)
        → classify_found (with_executor x f) ctx i call t bh ≡ classify_found x ctx i call t bh
    unfolding classify_found
    classify_found-with_executor i call none (b, h) = refl
    classify_found-with_executor i call (some t) (b, h) = on_verdict-with_executor i call t _ (b, h)

    classify_calls-with_executor :
        (i : ℕ) (calls : List ToolCallReq) (bh : Batch W × Host W)
        → classify_calls (with_executor x f) ctx i calls bh ≡ classify_calls x ctx i calls bh
    unfolding classify_calls
    classify_calls-with_executor i [] bh = refl
    classify_calls-with_executor i (call ∷ calls) bh =
        classify_calls-with_executor (suc i) calls _
        ∙ ap (classify_calls x ctx (suc i) calls)
            (classify_found-with_executor i call (get_tool x.registry call.name) bh)

    abbrev pub AgreeOnAllowed : Type 0
    AgreeOnAllowed =
        (call : ToolCallReq) (t : LoopTool W) (h : Host W)
        → IsAllowed call t
        → f call t ctx h ≡ x.execute_one call t ctx h

    run_allow-with_executor :
        AgreeOnAllowed
        → (call : ToolCallReq) (t : LoopTool W) (h : Host W) → IsAllowed call t
        → run_allow (with_executor x f) ctx call t h ≡ run_allow x ctx call t h
    unfolding run_allow verified
    run_allow-with_executor agree call t h a =
        ap (λ p. (verified x ctx call t p.0, p.1)) (agree call t h a)

    run_items-with_executor :
        AgreeOnAllowed
        → (items : Items W) (h : Host W) → AllAllowed items
        → run_items (with_executor x f) ctx items h ≡ run_items x ctx items h
    unfolding run_items
    run_items-with_executor agree [] h a = refl
    run_items-with_executor agree ((i, call, t) ∷ items) h a =
        let first = run_allow (with_executor x f) ctx call t h in
        ap (λ r. (first.0 ∷ r.0, r.1)) (run_items-with_executor agree items first.1 a.1)
        ∙ ap (λ p. (p.0 ∷ (run_items x ctx items p.1).0, (run_items x ctx items p.1).1))
            (run_allow-with_executor agree call t h a.0)

    -- The executor is used on nothing but registered tools whose call the gate allows: another
    -- executor that does the same on these gives the same batch, with the same effects, whatever
    -- it would do with an unknown tool, a denied call, or a call that waits for a confirmation.
    pub run_batch_is_governed :
        AgreeOnAllowed
        → (failures : ℕ) (calls : List ToolCallReq) (h : Host W)
        → run_batch (with_executor x f) ctx failures calls h ≡ run_batch x ctx failures calls h
    unfolding run_batch
    run_batch_is_governed agree failures calls h =
        let start : Batch W = record {
          results = replicate (length calls) none;
          pending_batch = [];
          allow_items = [];
          failures = failures;
        } in
        let (b, h') = classify_calls x ctx 0 calls (start, h) in
        rw (classify_calls-with_executor 0 calls (start, h)) (
          ap (λ r. (fill b.allow_items r.0 b, r.1))
            (run_items-with_executor agree b.allow_items h'
              (classify_calls-AllAllowed 0 calls (start, h) tt)))
