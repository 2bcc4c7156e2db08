-- ===== src/Audit.antt =====
-- agent_loop/audited_store.py: a store that also audits every boundary that it writes.
pub mod Laws
use park_smart_harness.Base.{
  String, Bool, true, false, Option, none, some, List, [], ◌∷◌, if◌then◌else◌,
}
use park_smart_harness.Exec.{Exc, ok, raised, Exec, ◌>>=◌, ◌>>◌}
use park_smart_harness.Message.{Message, PendingAction}
use park_smart_harness.Tools.{Boundary}
use park_smart_harness.Loop.{Durable}
use park_smart_harness.Store.{Resolved}

-- `if boundary.pending_batch`
abbrev pub waits : Option (List PendingAction) → Bool
waits none = false
waits (some []) = false
waits (some (p ∷ ps)) = true

module _ {W : Type 0} (inner : Durable W)
    (audit_boundary : String → Boundary → Exec W (Unit {0})) where
  -- `_audit_safe`: a failure of the audit is logged and swallowed.
  unfoldable pub audit_safe : String → Boundary → Exec W (Unit {0})
  audit_safe id b w = let (r, w') = audit_boundary id b w in (ok tt, w')

  unfoldable pub audited_commit : String → List Message → Boundary → Exec W (Unit {0})
  unfolding audit_safe ◌>>=◌
  audited_commit id ms b = do
    inner.commit id ms b
    if waits b.pending_batch then audit_boundary id b else audit_safe id b

  unfoldable pub audited_resolve : String → Resolved → Boundary → Exec W (Unit {0})
  unfolding ◌>>=◌
  audited_resolve id r b = do inner.resolve_pending id r b; audit_boundary id b

  abbrev pub audited : Durable W
  audited = record {
    latest_boundary = inner.latest_boundary;
    commit = audited_commit;
    resolve_pending = audited_resolve;
  }
