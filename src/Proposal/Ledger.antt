-- ===== src/Proposal/Ledger.antt =====
-- The ledger of executed controls: what agent_tools/proposal_control.py expects of it, a ledger
-- that does that, and the one of agent_loop/pg_store.py (`PgIdempotencyLedger`).
use park_smart_harness.Base.{
  String, ◌==◌, Bool, true, false, Option, none, some, List, if◌then◌else◌,
}
use park_smart_harness.Base.Assoc.{lookup, insert}

-- The dict that `get` answers with; a key that is missing is `none`.
pub record Entry : Type 0 where
  pub status : Option String
  pub content : Option String

-- One row of the table: `status` and the `content` of its result.
pub record Row : Type 0 where
  pub status : String
  pub content : String

abbrev pub Rows : Type 0
Rows = List (String × Row)

-- The three operations; each is one statement of the database, so they are atomic.
pub record Ledger : Type 0 where
  pub read : Rows → String → Option Entry

abbrev with_status : Option Row → Option Entry
with_status none = none
with_status (some r) = some (record { status = some r.status; content = some r.content })

-- `get` as the capability reads it, with the status.
abbrev pub keeping_status : Ledger
keeping_status = record { read = λ rows idem. with_status (lookup idem rows) }

abbrev result_only : Option Row → Option Entry
result_only none = none
result_only (some r) = some (record { status = none; content = some r.content })

-- `PgIdempotencyLedger.get` selects `result_json` alone.
abbrev pub pg_ledger : Ledger
pg_ledger = record { read = λ rows idem. result_only (lookup idem rows) }

abbrev is_unset {ℓ} : {A : Type ℓ} → Option A → Bool
is_unset none = true
is_unset (some a) = false

-- `INSERT … ON CONFLICT DO NOTHING RETURNING`
unfoldable pub put_if_absent : String → Row → Rows → Bool × Rows
put_if_absent idem r rows =
    if is_unset (lookup idem rows) then (true, insert idem r rows) else (false, rows)

-- `UPDATE … WHERE idem_key`: a missing row stays missing.
unfoldable pub set_row : String → Row → Rows → Rows
set_row idem r rows = if is_unset (lookup idem rows) then rows else insert idem r rows

abbrev pub has_status : String → Option Row → Bool
has_status s none = false
has_status s (some r) = r.status == s

-- The update with `expected_status`
unfoldable pub compare_and_set : String → String → Row → Rows → Bool × Rows
compare_and_set idem expected r rows =
    if has_status expected (lookup idem rows) then (true, insert idem r rows) else (false, rows)
