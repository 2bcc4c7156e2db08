-- ===== src/Audit/Laws.antt =====
-- agent_loop/audited_store.py: the audit keeps the store transactional.
use park_smart_harness.Base.{String, ◌∙◌, inl, inr, List, ◌++◌, Bool-cases}
use park_smart_harness.Exec.{Exc, ok, raised, Exec, ◌>>=◌, continue}
use park_smart_harness.Message.{Message}
use park_smart_harness.Tools.{Boundary}
use park_smart_harness.Loop.{Durable}
use park_smart_harness.Store.{Resolved, replace_placeholders}
use park_smart_harness.Loop.Ledger.{Observer, Atomic, Quiet}
use park_smart_harness.Audit.{waits, audit_safe, audited_commit, audited_resolve, audited}

module _ {W : Type 0} (o : Observer W) (inner : Durable W)
    (audit : String → Boundary → Exec W (Unit {0}))
    (quiet : (id : String) (b : Boundary) (w : W) → Quiet o w (audit id b w).1) where
  -- What follows a transaction and leaves the store alone keeps it a transaction.
  followed :
      (log : List Message) (b : Boundary) (w : W) (r : Exc (Unit {0}) × W)
      (next : Exec W (Unit {0}))
      → ((v : W) → Quiet o v (next v).1)
      → Atomic o log b w r
      → Atomic o log b w (continue r.0 (λ u. next) r.1)
  followed log b w (raised e, v) next q a = a
  followed log b w (ok u, v) next q (c, d) = after (next v) (q v)
    where
      after : (r : Exc (Unit {0}) × W) → Quiet o v r.1 → Atomic o log b w r
      after (ok u, x) (e, f) = (e ∙ c, f ∙ d)
      after (raised e', x) (e, f) = inr (e ∙ c, f ∙ d)

  -- If the inner store is transactional and the audit does not write to it, then the audited
  -- store is transactional: where a mandatory audit fails, the transaction is done all the same.
  pub audited_is_transactional :
      (id : String)
      → ((ms : List Message) (b : Boundary) (w : W)
          → Atomic o (o.log w ++ ms) b w (inner.commit id ms b w))
      → ((r : Resolved) (b : Boundary) (w : W)
          → Atomic o (replace_placeholders r (o.log w)) b w (inner.resolve_pending id r b w))
      → ((ms : List Message) (b : Boundary) (w : W)
          → Atomic o (o.log w ++ ms) b w ((audited inner audit).commit id ms b w))
        × ((r : Resolved) (b : Boundary) (w : W)
            → Atomic o
                (replace_placeholders r (o.log w))
                b
                w
                ((audited inner audit).resolve_pending id r b w))
  unfolding audited_commit audited_resolve ◌>>=◌ audit_safe
  audited_is_transactional id c r = (
    λ ms b w. elim (Bool-cases (waits b.pending_batch)) [
      | inl e ↦ rw e (followed _ b w (inner.commit id ms b w) (audit id b) (quiet id b) (c ms b w))
      | inr e ↦ rw e (
          followed _ b w (inner.commit id ms b w) (audit_safe inner audit id b) (quiet id b)
            (c ms b w))
    ],
    λ res b w.
        followed _ b w (inner.resolve_pending id res b w) (audit id b) (quiet id b) (r res b w),
  )
