-- ===== src/Loop/Batch/Unattended.antt =====
-- A batch of calls without a control: no call waits for a confirmation.
use park_smart_harness.Base.{
  ℕ, suc, ◌≡◌, refl, ◌∙◌, Option, none, some, List, [], ◌∷◌, length, replicate,
}
use park_smart_harness.Message.{ToolCallReq}
use park_smart_harness.Gate.{Verdict, allow, ask, deny}
use park_smart_harness.Dispatch.{ToolExecOutcome}
use park_smart_harness.Tools.{ToolContext, LoopTool, Host, get_tool}
use park_smart_harness.Loop.{Call}
use park_smart_harness.Loop.Batch.{
  Batch, Items, on_ask, on_verdict, classify_found, classify_calls, run_batch, run_items, fill,
}

module _ {W : Type 0} (x : Call W) (ctx : ToolContext) (unattended : x.control ≡ none) where
  on_verdict-pending :
      (i : ℕ) (call : ToolCallReq) (t : LoopTool W) (v : Verdict) (bh : Batch W × Host W)
      → (on_verdict x i call t v bh).0.pending_batch ≡ bh.0.pending_batch
  unfolding on_verdict on_ask
  on_verdict-pending i call t deny (b, h) = refl
  on_verdict-pending i call t allow (b, h) = refl
  on_verdict-pending i call t ask (b, h) = rw (unattended) refl

  classify_found-pending :
      (i : ℕ) (call : ToolCallReq) (t : Option (LoopTool W)) (bh : Batch W × Host W)
      → (classify_found x ctx i call t bh).0.pending_batch ≡ bh.0.pending_batch
  unfolding classify_found
  classify_found-pending i call none (b, h) = refl
  classify_found-pending i call (some t) (b, h) = on_verdict-pending i call t _ (b, h)

  classify_calls-pending :
      (i : ℕ) (calls : List ToolCallReq) (bh : Batch W × Host W)
      → (classify_calls x ctx i calls bh).0.pending_batch ≡ bh.0.pending_batch
  unfolding classify_calls
  classify_calls-pending i [] bh = refl
  classify_calls-pending i (call ∷ calls) bh =
      classify_calls-pending (suc i) calls _
      ∙ classify_found-pending i call (get_tool x.registry call.name) bh

  fill-pending :
      (items : Items W) (os : List ToolExecOutcome) (b : Batch W)
      → (fill items os b).pending_batch ≡ b.pending_batch
  unfolding fill
  fill-pending [] os b = refl
  fill-pending (item ∷ items) [] b = refl
  fill-pending (item ∷ items) (o ∷ os) b = fill-pending items os _

  pub run_batch-pending :
      (failures : ℕ) (calls : List ToolCallReq) (h : Host W)
      → (run_batch x ctx failures calls h).0.pending_batch ≡ []
  unfolding run_batch
  run_batch-pending failures calls h =
      let start : Batch W = record {
        results = replicate (length calls) none;
        pending_batch = [];
        allow_items = [];
        failures = failures;
      } in
      let sorted = classify_calls x ctx 0 calls (start, h) in
      fill-pending sorted.0.allow_items (run_items x ctx sorted.0.allow_items sorted.1).0 sorted.0
      ∙ classify_calls-pending 0 calls (start, h)
