-- ===== src/Loop/Waiting.antt =====
-- `run_loop` on a thread whose last boundary waits for a confirmation.
use park_smart_harness.Base.{
  ℕ, ◌≡◌, refl, ap, ◌∙◌, sym, arith, true, false, Option, none, some, List, [], ◌∷◌,
}
use park_smart_harness.Base.Assoc.{lookup, insert, lookup-insert}
use park_smart_harness.Exec.{ok, ◌>>=◌, ◌>>◌, catch_as}
use park_smart_harness.Message.{PendingAction}
use park_smart_harness.Tools.{Boundary, Status}
use park_smart_harness.Loop.{Control, Call, on_host, reject, Machine, safely, on_world}
use park_smart_harness.Loop.Run.{
  Resolution, reject_all, decision_for, resolve_batch, confirm, confirm_pending, resume, restored,
  on_last, run_body, persist_exit, run_loop, is_awaiting, resolved_message,
}

-- Under this resolution every one of the actions is rejected.
abbrev pub Rejects : Resolution → List PendingAction → Type 0
Rejects r [] = Unit
Rejects r (p ∷ ps) = (decision_for r p ≡ reject) × Rejects r ps

-- Whether it has the key or not.
reject_all_decision :
    (ps : List PendingAction) (p : PendingAction) → decision_for (reject_all ps) p ≡ reject
unfolding decision_for lookup
reject_all_decision [] p = refl
reject_all_decision (q ∷ ps) p = ground (
  arith,
  reject_all_decision ps p,
  lookup-insert q.tool_call_id reject (reject_all ps) p.tool_call_id,
)

reject_all-Rejects : (qs ps : List PendingAction) → Rejects (reject_all qs) ps
reject_all-Rejects qs [] = tt
reject_all-Rejects qs (p ∷ ps) = (reject_all_decision qs p, reject_all-Rejects qs ps)

module _ {W : Type 0} (x : Call W) where
  resolve_batch_alike :
      (c : Control W) (r q : Resolution) (ps : List PendingAction)
      → Rejects r ps
      → Rejects q ps
      → resolve_batch x c r ps ≡ resolve_batch x c q ps
  unfolding resolve_batch
  resolve_batch_alike c r q [] e d = refl
  resolve_batch_alike c r q (p ∷ ps) e d = λ i done. do
    t ← on_host (c.resolve p ((e.0 ∙ sym d.0) i))
    resolve_batch_alike c r q ps e.1 d.1 i (insert p.tool_call_id (resolved_message p t) done)

  confirm_alike :
      (c : Option (Control W)) (r q : Resolution) (n : ℕ) (ps : List PendingAction)
      → Rejects r ps
      → Rejects q ps
      → confirm_pending x c (some ps) r n ≡ confirm_pending x c (some ps) q n
  unfolding confirm_pending confirm
  confirm_alike none r q n ps e d = refl
  confirm_alike (some c) r q n ps e d = rw (resolve_batch_alike c r q ps e d) refl

  resume_alike :
      (fuel : ℕ) (r : Option Resolution) (q : Resolution) (b : Boundary) (ps : List PendingAction)
      → b.pending_batch ≡ some ps
      → Rejects q ps
      → resume x fuel r true b ≡ resume x fuel (some q) false b
  unfolding resume
  resume_alike fuel r q b ps e d =
      rw (e, confirm_alike x.control (reject_all ps) q b.seq ps (reject_all-Rejects ps ps) d) refl

  on_last_alike :
      (fuel : ℕ) (r : Option Resolution) (q : Resolution) (b : Boundary) (ps : List PendingAction)
      → b.status ≡ Status.awaiting_confirmation
      → b.pending_batch ≡ some ps
      → Rejects q ps
      → on_last x fuel r true (some b) ≡ on_last x fuel (some q) false (some b)
  unfolding on_last
  on_last_alike fuel r q b ps w e d =
      rw (ap is_awaiting w)
        (ap (λ k. restored x b.budget_snapshot >> k) (resume_alike fuel r q b ps e d))

  -- On a thread that waits for a confirmation, cancelling is the same call as any resolution under
  -- which every pending action is rejected, as one that names none of them: it has the same result
  -- and the same effects, whatever resolution comes with the cancellation.
  pub cancel_is_refusal :
      (fuel : ℕ) (r : Option Resolution) (q : Resolution) (b : Boundary) (ps : List PendingAction)
      (s : Machine W)
      → (x.store.latest_boundary x.thread_id s.host.world).0 ≡ ok (some b)
      → b.status ≡ Status.awaiting_confirmation
      → b.pending_batch ≡ some ps
      → Rejects q ps
      → run_loop x fuel r true s ≡ run_loop x fuel (some q) false s
  unfolding run_loop run_body ◌>>=◌ safely on_world catch_as
  cancel_is_refusal fuel r q b ps s l w e d = rw (l) (
      ap (λ k. persist_exit x (k (safely (x.store.latest_boundary x.thread_id) s).1))
        (on_last_alike fuel r q b ps w e d))
