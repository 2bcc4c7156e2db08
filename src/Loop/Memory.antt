-- ===== src/Loop/Memory.antt =====
-- The in-memory store of agent_loop/conversation.py as the store of a loop: it never raises, and
-- it is transactional.
use park_smart_harness.Base.{String, ◌≡◌, refl, last?, List, ◌++◌}
use park_smart_harness.Exec.{ok}
use park_smart_harness.Exec.Triple.{Post}
use park_smart_harness.Message.{Message}
use park_smart_harness.Tools.{Boundary}
use park_smart_harness.Store.{
  Threads, Resolved, latest_boundary, commit, resolve_pending, replace_placeholders,
}
use park_smart_harness.Store.Laws.{
  log, boundaries, commit_lem, resolve_pending_lem, latest_boundary_lem,
}
use park_smart_harness.Loop.{Durable}
use park_smart_harness.Loop.Ledger.{Observer, Atomic, Quiet}

abbrev pub memory : Durable Threads
memory = record {
  latest_boundary = λ id ts. (ok (latest_boundary ts id), ts);
  commit = λ id ms b ts. (ok tt, commit id ms b ts);
  resolve_pending = λ id r b ts. (ok tt, resolve_pending id r b ts);
}

-- One thread of the store, as it is read after a restart.
abbrev pub thread : String → Observer Threads
thread id = record { log = log id; boundaries = boundaries id }

module _ (id : String) where
  -- The in-memory store is transactional: `commit` and `resolve_pending` write messages and
  -- boundary of their thread together, and `latest_boundary` reads the last boundary and writes
  -- nothing.
  pub memory_is_transactional :
      ((ms : List Message) (b : Boundary) (ts : Threads)
        → Atomic (thread id) (log id ts ++ ms) b ts (memory.commit id ms b ts))
      × ((r : Resolved) (b : Boundary) (ts : Threads)
          → Atomic
              (thread id)
              (replace_placeholders r (log id ts))
              b
              ts
              (memory.resolve_pending id r b ts))
      × ((ts : Threads)
          → Post
              (λ b us. (b ≡ last? (boundaries id ts)) × Quiet (thread id) ts us)
              (λ e us. Quiet (thread id) ts us)
              (memory.latest_boundary id ts))
  memory_is_transactional = (
    λ ms b ts. let c = commit_lem id ms b ts in (c.0, c.1),
    λ r b ts. let c = resolve_pending_lem id r b ts in (c.0, c.1),
    λ ts. (latest_boundary_lem id ts, (refl, refl)),
  )
