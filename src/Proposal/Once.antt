-- ===== src/Proposal/Once.antt =====
-- A pending action is executed at most once, however often it is resolved.
use park_smart_harness.Base.{
  suc, ◌≤◌, String, ◌≡◌, refl, ap, ◌∙◌, ◌⊎◌, inl, inr, ◌==◌, ◌<>◌, true, false, Option, none, some,
  List, [], ◌∷◌, arith, eq_refl, Bool-cases, if◌then◌else◌,
}
use park_smart_harness.Base.Assoc.{lookup, insert, lookup-insert}
use park_smart_harness.Message.{PendingAction}
use park_smart_harness.Tools.{ToolResult}
use park_smart_harness.Loop.{Decision, approve, reject}
use park_smart_harness.Proposal.{ControlProposal, find}
use park_smart_harness.Proposal.Backend.{Answer, got, broke}
use park_smart_harness.Proposal.Ledger.{
  Row, Rows, Entry, keeping_status, put_if_absent, set_row, compare_and_set, has_status,
}
use park_smart_harness.Proposal.Capability.{
  Wiring, Desk, invalid, accepted, reversible, status_of, popped, conclude, dispatch, lost, claim,
  claimed, guarded, approve_with, approved, handle_of, resolve, resolve_in_flight, content_of,
}

-- The wiring with a write-ahead ledger that answers with the status of an entry.
abbrev pub journaled : {B : Type 0} → Wiring B → Wiring B
journaled w = record w { ledger = some keeping_status }

-- The decisions of a pending action, one after the other.
unfoldable pub resolve_all :
    {B : Type 0} → Wiring B → PendingAction → List Decision → Desk B → Desk B
resolve_all w a [] d = d
resolve_all w a (c ∷ cs) d = resolve_all w a cs (resolve w a c d).1

abbrev Present : String → Rows → Type 0
Present idem rows = (r : Row) × (lookup idem rows ≡ some r)

set_row-lookup :
    (idem : String) (r : Row) (rows : Rows)
    → Present idem rows
    → lookup idem (set_row idem r rows) ≡ some r
unfolding set_row
set_row-lookup idem r rows (q, e) =
    rw e (ground (arith, lookup-insert idem r rows idem, eq_refl idem))

module _ {B : Type 0} (w : Wiring B) (a : PendingAction) where
  -- The entry of the action is done.
  abbrev pub IsDone : Desk B → Type 0
  IsDone d =
      (c : String) × (lookup a.idem_key d.rows ≡ some (record { status = "done"; content = c }))

  -- Nothing was sent, nothing counted.
  abbrev pub Idle : Desk B → Desk B → Type 0
  Idle d e = (e.world ≡ d.world) × (e.executed ≡ d.executed) × (e.rows ≡ d.rows)

  -- At most one success, and then the entry is done.
  abbrev Once : Desk B → Desk B → Type 0
  Once d e = (e.executed ≡ d.executed) ⊎ ((e.executed ≡ suc d.executed) × IsDone e)

  conclude-Once :
      (r : Answer String × B) (d : Desk B)
      → Present a.idem_key d.rows
      → Once d (conclude (journaled w) a r d).1
  unfolding conclude
  conclude-Once (broke code text, v) d p = inl refl
  conclude-Once (got readback, v) d p = inr (refl, (_, set_row-lookup a.idem_key _ d.rows p))

  lost-Once :
      (p : ControlProposal) (e : Option Entry) (d : Desk B) → Once d (lost (journaled w) a p e d).1
  unfolding lost
  lost-Once p e d = by_status (status_of e)
    where
      by_status :
          (o : Option String)
          → Once d
              (elim o as (λ _. ToolResult × Desk B) [
                | none ↦ (resolve_in_flight (some p), d)
                | some s ↦
                    if s == "done"
                    then (accepted (content_of e), popped (journaled w) a d)
                    else (resolve_in_flight (some p), d)
              ]).1
      by_status none = inl refl
      by_status (some s) = elim (Bool-cases (s == "done")) [
        | inl b ↦ rw b (inl refl)
        | inr b ↦ rw b (inl refl)
      ]

  abbrev under_way : Row
  under_way = record { status = "in_flight"; content = "" }

  here : (rows : Rows) → lookup a.idem_key (insert a.idem_key under_way rows) ≡ some under_way
  here rows = ground (arith, lookup-insert a.idem_key under_way rows a.idem_key, eq_refl a.idem_key)

  absent_or :
      (o : Option Row) (rows : Rows)
      → lookup a.idem_key rows ≡ o
      → (claim (journaled w) a none rows).0 ≡ true
      → Present a.idem_key (claim (journaled w) a none rows).1
  unfolding put_if_absent
  absent_or none rows e h = rw e (under_way, here rows)
  absent_or (some r) rows e h = let no : false ≡ true = rw e at h in cc

  claim-Present :
      (status : Option String) (rows : Rows)
      → (claim (journaled w) a status rows).0 ≡ true
      → Present a.idem_key (claim (journaled w) a status rows).1
  unfolding compare_and_set
  claim-Present none rows h = absent_or _ rows refl h
  claim-Present (some s) rows h = elim (Bool-cases (has_status "failed" (lookup a.idem_key rows))) [
    | inl b ↦ rw b (under_way, here rows)
    | inr b ↦ let no : false ≡ true = rw b at h in cc
  ]

  claimed-Once :
      (p : ControlProposal) (status : Option String) (d : Desk B)
      → Once d (claimed (journaled w) a keeping_status p status d).1
  unfolding claimed dispatch
  claimed-Once p status d =
      let after = record d { rows = (claim (journaled w) a status d.rows).1 } in
      elim (Bool-cases (claim (journaled w) a status d.rows).0) [
        | inl b ↦ rw b (conclude-Once _ after (claim-Present status d.rows b))
        | inr b ↦ rw b (lost-Once p (keeping_status.read after.rows a.idem_key) after)
      ]

  guarded-Once :
      (go : ControlProposal → Desk B → ToolResult × Desk B) (p : Option ControlProposal)
      (d : Desk B)
      → ((q : ControlProposal) → Once d (go q d).1)
      → Once d (guarded (journaled w) a go p d).1
  unfolding guarded
  guarded-Once go none d k = inl refl
  guarded-Once go (some p) d k = elim (Bool-cases (p.reversibility == reversible)) [
    | inl b ↦ rw b (k p)
    | inr b ↦ rw b (inl refl)
  ]

  approve_with-Once :
      (p : Option ControlProposal) (e : Option Entry) (d : Desk B)
      → Once d (approve_with (journaled w) a keeping_status p e d).1
  unfolding approve_with
  approve_with-Once p e d = by_status (status_of e)
    where
      by_status :
          (o : Option String)
          → Once d
              (elim o as (λ _. ToolResult × Desk B) [
                | none ↦
                    guarded (journaled w) a (λ q. claimed (journaled w) a keeping_status q none) p d
                | some s ↦
                    if s == "done"
                    then (accepted (content_of e), popped (journaled w) a d)
                    else if s == "in_flight"
                    then (resolve_in_flight p, d)
                    else guarded
                        (journaled w)
                        a
                        (λ q. claimed (journaled w) a keeping_status q (some s))
                        p
                        d
              ]).1
      by_status none = guarded-Once _ p d (λ q. claimed-Once q none d)
      by_status (some s) = elim (Bool-cases (s == "done")) [
        | inl b ↦ rw b (inl refl)
        | inr b ↦ elim (Bool-cases (s == "in_flight")) [
          | inl c ↦ rw (b, c) (inl refl)
          | inr c ↦ rw (b, c) (guarded-Once _ p d (λ q. claimed-Once q (some s) d))
        ]
      ]

  resolve-Once : (c : Decision) (d : Desk B) → Once d (resolve (journaled w) a c d).1
  unfolding resolve approved
  resolve-Once c d = elim (Bool-cases (a.action_name == invalid)) [
    | inl b ↦ rw b (inl refl)
    | inr b ↦ rw b (by_decision c)
  ]
    where
      by_decision :
          (c : Decision)
          → Once d
              (elim c as (λ _. ToolResult × Desk B) [
                | reject ↦ (
                  accepted ("[rejected] " <> a.action_name <> " not executed"),
                  popped (journaled w) a d,
                )
                | approve ↦ approved (journaled w) a (some keeping_status) d
              ]).1
      by_decision reject = inl refl
      by_decision approve =
          approve_with-Once (find d.proposals (handle_of a)) (keeping_status.read d.rows a.idem_key)
            d

  resolve-Idle : (c : Decision) (d : Desk B) → IsDone d → Idle d (resolve (journaled w) a c d).1
  unfolding resolve approved approve_with
  resolve-Idle c d (content, e) = elim (Bool-cases (a.action_name == invalid)) [
    | inl b ↦ rw b (refl, refl, refl)
    | inr b ↦ rw b (by_decision c)
  ]
    where
      by_decision :
          (c : Decision)
          → Idle d
              (elim c as (λ _. ToolResult × Desk B) [
                | reject ↦ (
                  accepted ("[rejected] " <> a.action_name <> " not executed"),
                  popped (journaled w) a d,
                )
                | approve ↦ approved (journaled w) a (some keeping_status) d
              ]).1
      by_decision reject = (refl, refl, refl)
      by_decision approve = rw e (refl, refl, refl)

  resolve_all-Idle :
      (cs : List Decision) (d : Desk B) → IsDone d → Idle d (resolve_all (journaled w) a cs d)
  unfolding resolve_all
  resolve_all-Idle [] d i = (refl, refl, refl)
  resolve_all-Idle (c ∷ cs) d i =
      let (p, q, r) = resolve-Idle c d i in
      let (p', q', r') =
        resolve_all-Idle cs (resolve (journaled w) a c d).1 (i.0, ap (lookup a.idem_key) r ∙ i.1) in
      (p' ∙ p, q' ∙ q, r' ∙ r)

  resolve_all-executed :
      (cs : List Decision) (d : Desk B)
      → (resolve_all (journaled w) a cs d).executed ≤ suc d.executed
  unfolding resolve_all
  resolve_all-executed [] d = omega arith
  resolve_all-executed (c ∷ cs) d = elim (resolve-Once c d) [
    | inl e ↦ omega (arith, resolve_all-executed cs (resolve (journaled w) a c d).1, e)
    | inr (e, i) ↦ omega (arith, (resolve_all-Idle cs (resolve (journaled w) a c d).1 i).1, e)
  ]

  -- With a write-ahead ledger that answers with the status of its entries, a pending action is
  -- executed successfully at most once over any sequence of decisions, and once its entry is done
  -- no decision sends a command or changes the ledger again.
  pub executes_at_most_once :
      (cs : List Decision) (d : Desk B)
      → ((resolve_all (journaled w) a cs d).executed ≤ suc d.executed)
        × (IsDone d → Idle d (resolve_all (journaled w) a cs d))
  executes_at_most_once cs d = (resolve_all-executed cs d, resolve_all-Idle cs d)
