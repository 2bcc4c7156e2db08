-- ===== src/Loop/Ledger/Batch.antt =====
-- A batch of tool calls leaves the thread's part of the store alone.
use park_smart_harness.Base.{
  ℕ, suc, ◌≡◌, refl, ◌∙◌, Option, none, some, List, [], ◌∷◌, length, replicate,
}
use park_smart_harness.Message.{ToolCallReq}
use park_smart_harness.Tools.{ToolContext, Host, LoopTool, get_tool}
use park_smart_harness.Gate.{Verdict, allow, ask, deny}
use park_smart_harness.Loop.{Control, Call}
use park_smart_harness.Loop.Batch.{
  Batch, Items, on_ask, on_verdict, classify_found, classify_calls, run_allow, run_items, run_batch,
}
use park_smart_harness.Loop.Batch.Governed.{AllAllowed, classify_calls-AllAllowed}
use park_smart_harness.Loop.Ledger.{Observer, IsLedger, Quiet}

module _ {W : Type 0} (o : Observer W) where
  pub quiet : (w : W) → Quiet o w w
  quiet w = (refl, refl)

  pub then_quiet : (u v w : W) → Quiet o u v → Quiet o v w → Quiet o u w
  then_quiet u v w p q = (q.0 ∙ p.0, q.1 ∙ p.1)

  module _ (x : Call W) (law : IsLedger o x) where
    on_ask-Quiet :
        (i : ℕ) (call : ToolCallReq) (c : Option (Control W)) (bh : Batch W × Host W)
        → x.control ≡ c
        → Quiet o bh.1.world (on_ask x i call c bh).1.world
    unfolding on_ask
    on_ask-Quiet i call none (b, h) e = quiet h.world
    on_ask-Quiet i call (some c) (b, h) e = law.freezes c call h e

    on_verdict-Quiet :
        (i : ℕ) (call : ToolCallReq) (t : LoopTool W) (v : Verdict) (bh : Batch W × Host W)
        → Quiet o bh.1.world (on_verdict x i call t v bh).1.world
    unfolding on_verdict
    on_verdict-Quiet i call t deny (b, h) = quiet h.world
    on_verdict-Quiet i call t allow (b, h) = quiet h.world
    on_verdict-Quiet i call t ask (b, h) = on_ask-Quiet i call x.control (b, h) refl

    classify_found-Quiet :
        (ctx : ToolContext) (i : ℕ) (call : ToolCallReq) (t : Option (LoopTool W))
        (bh : Batch W × Host W)
        → Quiet o bh.1.world (classify_found x ctx i call t bh).1.world
    unfolding classify_found
    classify_found-Quiet ctx i call none (b, h) = quiet h.world
    classify_found-Quiet ctx i call (some t) (b, h) = on_verdict-Quiet i call t _ (b, h)

    classify_calls-Quiet :
        (ctx : ToolContext) (i : ℕ) (calls : List ToolCallReq) (bh : Batch W × Host W)
        → Quiet o bh.1.world (classify_calls x ctx i calls bh).1.world
    unfolding classify_calls
    classify_calls-Quiet ctx i [] bh = quiet bh.1.world
    classify_calls-Quiet ctx i (call ∷ calls) bh =
        then_quiet _ _ _ (classify_found-Quiet ctx i call (get_tool x.registry call.name) bh)
          (classify_calls-Quiet ctx (suc i) calls _)

    run_items-Quiet :
        (ctx : ToolContext) (items : Items W) (h : Host W)
        → AllAllowed x ctx items
        → Quiet o h.world (run_items x ctx items h).1.world
    unfolding run_items run_allow
    run_items-Quiet ctx [] h a = quiet h.world
    run_items-Quiet ctx ((i, call, t) ∷ items) h a =
        then_quiet _ _ _ (law.executes call t ctx h a.0) (run_items-Quiet ctx items _ a.1)

    pub run_batch-Quiet :
        (ctx : ToolContext) (failures : ℕ) (calls : List ToolCallReq) (h : Host W)
        → Quiet o h.world (run_batch x ctx failures calls h).1.world
    unfolding run_batch
    run_batch-Quiet ctx failures calls h =
        let start : Batch W = record {
          results = replicate (length calls) none;
          pending_batch = [];
          allow_items = [];
          failures = failures;
        } in
        let (b, h') = classify_calls x ctx 0 calls (start, h) in
        then_quiet _ _ _ (classify_calls-Quiet ctx 0 calls (start, h)) (
          run_items-Quiet ctx b.allow_items h'
            (classify_calls-AllAllowed x ctx 0 calls (start, h) tt))
