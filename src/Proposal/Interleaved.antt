-- ===== src/Proposal/Interleaved.antt =====
-- agent_tools/proposal_control.py, `resolve`: approvals of one pending action that overlap. Each
-- statement of the ledger and the command are a step of their own, and an approval may end at any.
pub mod Claim
pub mod Held
use park_smart_harness.Base.{
  ℕ, zero, suc, ◌+◌, ◌≤◌, String, ◌≡◌, refl, sym, ap, ◌∙◌, ◌⊎◌, inl, inr, ◌==◌, Bool, true, false,
  Option, none, some, List, [], ◌∷◌, ◌++◌, arith, eq_iff, eq_refl, Bool-cases, Option-cases,
  if◌then◌else◌, count, filter-append, length-append, filter,
}
use park_smart_harness.Base.Assoc.{lookup, insert, lookup-insert}
use park_smart_harness.Message.{PendingAction}
use park_smart_harness.Proposal.Ledger.{
  Row, Rows, keeping_status, put_if_absent, set_row, compare_and_set, has_status,
}
use park_smart_harness.Proposal.Capability.{Wiring, status_of, claim}

-- Where an approval stands: before it reads the ledger; with the status that it read, past the
-- guards; at the command; after the command, before the entry is written; at its end.
pub data Phase : Type 0 where
  asked : Phase
  told : Option String → Phase
  sending broken over : Phase
  succeeded : String → Phase

-- What the read status makes of an approval.
abbrev pub after_read : Option String → Phase
after_read none = told none
after_read (some s) = if s == "done" then over else if s == "in_flight" then over else told (some s)

-- The approvals, the ledger's rows, and how many commands have succeeded.
pub record Scene : Type 0 where
  pub phases : List Phase
  pub rows : Rows
  pub successes : ℕ

abbrev pub at : List Phase → Phase → List Phase → Rows → ℕ → Scene
at before p after rows n = record { phases = before ++ p ∷ after; rows = rows; successes = n }

module _ {B : Type 0} (w : Wiring B) (a : PendingAction) where
  -- The next statement of an approval that is no command.
  unfoldable pub advance : Phase → Rows → Phase × Rows
  advance asked rows = (after_read (status_of (keeping_status.read rows a.idem_key)), rows)
  advance (told s) rows =
      let (won, left) = claim w a s rows in (if won then sending else over, left)
  advance sending rows = (sending, rows)
  advance (succeeded c) rows =
      (over, set_row a.idem_key (record { status = "done"; content = c }) rows)
  advance broken rows = (over, set_row a.idem_key (record { status = "failed"; content = "" }) rows)
  advance over rows = (over, rows)

  -- One step of one approval: it begins, takes its next statement, has its command answered or
  -- refused, or ends early.
  pub data Step : Scene → Scene → Type 0 where
    begins : (s : Scene) → Step s (record s { phases = asked ∷ s.phases })
    takes :
        (before : List Phase) (p : Phase) (after : List Phase) (rows : Rows) (n : ℕ)
        → Step (at before p after rows n) (at before (advance p rows).0 after (advance p rows).1 n)
    answers :
        (before after : List Phase) (c : String) (rows : Rows) (n : ℕ)
        → Step (at before sending after rows n) (at before (succeeded c) after rows (suc n))
    breaks :
        (before after : List Phase) (rows : Rows) (n : ℕ)
        → Step (at before sending after rows n) (at before broken after rows n)
    ends :
        (before : List Phase) (p : Phase) (after : List Phase) (rows : Rows) (n : ℕ)
        → Step (at before p after rows n) (at before over after rows n)

  pub data Steps : Scene → Scene → Type 0 where
    stay : (s : Scene) → Steps s s
    go : {s t u : Scene} → Step s t → Steps t u → Steps s u
