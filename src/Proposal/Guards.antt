-- ===== src/Proposal/Guards.antt =====
-- What is never sent to a device, and what the ledger of the database forgets.
use park_smart_harness.Base.{
  String, ◌≡◌, ◌≢◌, refl, ◌==◌, Bool, true, false, Option, none, some, arith, eq_iff, Bool-cases,
  inl, inr, if◌then◌else◌,
}
use park_smart_harness.Base.Assoc.{lookup}
use park_smart_harness.Json.{Dict}
use park_smart_harness.Message.{PendingAction}
use park_smart_harness.Tools.{ToolResult}
use park_smart_harness.Loop.{approve, reject}
use park_smart_harness.Proposal.{ControlProposal, find}
use park_smart_harness.Proposal.Backend.{Answer, Backend, Printer, execute, simulate}
use park_smart_harness.Proposal.Ledger.{Ledger, Row, Entry, pg_ledger, put_if_absent}
use park_smart_harness.Proposal.Capability.{
  Wiring, Desk, invalid, accepted, reversible, status_of, content_of, popped, guarded, claimed,
  lost, approve_with, approve_in_memory, approved, handle_of, resolve, resolve_in_flight,
}

-- Unless the mode is `real`, no command of the backend is used: replacing both changes nothing.
pub simulated_sends_nothing :
    {B : Type 0} (p : Printer) (b : Backend B) (mode name : String) (args : Dict) (token : String)
    (w : B) (device_ctrl door_control : Dict → Option String → B → Answer Bool × B)
    → mode ≢ "real"
    → execute p
        (some (record b { device_ctrl = device_ctrl; door_control = door_control }))
        mode
        name
        args
        token
        w
      ≡ execute p (some b) mode name args token w
unfolding execute simulate
simulated_sends_nothing p b mode name args token w f g n =
    let off : (mode == "real") ≡ false = ground (arith, eq_iff mode "real") in rw off refl

module _ {B : Type 0} (w : Wiring B) (a : PendingAction) (d : Desk B) where
  -- The devices, the table, the ledger in memory and the count are as they were.
  abbrev pub Untouched : ToolResult × Desk B → Type 0
  Untouched r =
      (r.1.world ≡ d.world)
      × (r.1.rows ≡ d.rows)
      × (r.1.memory ≡ d.memory)
      × (r.1.executed ≡ d.executed)

  guarded-Untouched :
      (go : ControlProposal → Desk B → ToolResult × Desk B) (p : Option ControlProposal)
      → ((q : ControlProposal) → p ≡ some q → q.reversibility ≢ reversible)
      → Untouched (guarded w a go p d)
  unfolding guarded
  guarded-Untouched go none n = (refl, refl, refl, refl)
  guarded-Untouched go (some p) n =
      let off : (p.reversibility == reversible) ≡ false =
        ground (arith, eq_iff p.reversibility reversible, n p refl) in
      rw off (refl, refl, refl, refl)

  approved-Untouched :
      (l : Option Ledger)
      → ((q : ControlProposal)
          → find d.proposals (handle_of a) ≡ some q
          → q.reversibility ≢ reversible)
      → Untouched (approved w a l d)
  unfolding approved approve_with approve_in_memory
  approved-Untouched none n = in_memory (lookup a.idem_key d.memory)
    where
      in_memory :
          (o : Option ToolResult)
          → Untouched (approve_in_memory w a (find d.proposals (handle_of a)) o d)
      in_memory (some r) = (refl, refl, refl, refl)
      in_memory none = guarded-Untouched _ (find d.proposals (handle_of a)) n
  approved-Untouched (some l) n = by_entry (l.read d.rows a.idem_key) l
    where
      by_entry :
          (e : Option Entry) (l : Ledger)
          → Untouched (approve_with w a l (find d.proposals (handle_of a)) e d)
      by_entry e l = by_status (status_of e)
        where
          by_status :
              (o : Option String)
              → Untouched (elim o as (λ _. ToolResult × Desk B) [
                | none ↦ guarded w a (λ q. claimed w a l q none) (find d.proposals (handle_of a)) d
                | some s ↦
                    if s == "done"
                    then (accepted (content_of e), popped w a d)
                    else if s == "in_flight"
                    then (resolve_in_flight (find d.proposals (handle_of a)), d)
                    else guarded w a
                        (λ q. claimed w a l q (some s))
                        (find d.proposals (handle_of a))
                        d
              ])
          by_status none = guarded-Untouched _ (find d.proposals (handle_of a)) n
          by_status (some s) = elim (Bool-cases (s == "done")) [
            | inl b ↦ rw b (refl, refl, refl, refl)
            | inr b ↦ elim (Bool-cases (s == "in_flight")) [
              | inl c ↦ rw (b, c) (refl, refl, refl, refl)
              | inr c ↦ rw (b, c) (guarded-Untouched _ (find d.proposals (handle_of a)) n)
            ]
          ]

  -- If the proposal of the action is gone or cannot be undone, an approval sends nothing and
  -- writes nothing to the table nor to the ledger in memory, whichever ledger is in use; neither
  -- does a rejection.
  pub only_reversible_is_sent :
      ((q : ControlProposal)
        → find d.proposals (handle_of a) ≡ some q
        → q.reversibility ≢ reversible)
      → Untouched (resolve w a approve d) × Untouched (resolve w a reject d)
  unfolding resolve
  only_reversible_is_sent n = elim (Bool-cases (a.action_name == invalid)) [
    | inl b ↦ rw b ((refl, refl, refl, refl), (refl, refl, refl, refl))
    | inr b ↦ rw b (approved-Untouched w.ledger n, (refl, refl, refl, refl))
  ]

  lost_claim :
      (r : Row) (q : ControlProposal)
      → lookup a.idem_key d.rows ≡ some r
      → claimed (record w { ledger = some pg_ledger }) a pg_ledger q none d
        ≡ (resolve_in_flight (some q), d)
  unfolding claimed put_if_absent lost
  lost_claim r q e = rw e (rw e refl)

  -- The ledger of the database answers without the status. So an approval of an action that is not the
  -- sentinel and has an entry, of any status and any content, gives nothing of it back and runs nothing. If the
  -- proposal is gone, it is refused and nothing changes; if the proposal cannot be undone, it is
  -- refused and the proposal dropped; and if it is still there and can be undone, the action is
  -- reported as in flight and nothing changes, be it done or failed.
  pub pg_ledger_forgets_status :
      (r : Row)
      → lookup a.idem_key d.rows ≡ some r
      → (a.action_name == invalid) ≡ false
      → let w' = record w { ledger = some pg_ledger } in
        (find d.proposals (handle_of a) ≡ none
          → ((resolve w' a approve d).0.ok ≡ false) × ((resolve w' a approve d).1 ≡ d))
        × ((q : ControlProposal)
            → find d.proposals (handle_of a) ≡ some q
            → (q.reversibility ≢ reversible
                → ((resolve w' a approve d).0.ok ≡ false)
                  × ((resolve w' a approve d).1 ≡ popped w' a d))
              × (q.reversibility ≡ reversible
                  → resolve w' a approve d ≡ (resolve_in_flight (some q), d)))
  unfolding resolve approved approve_with guarded claimed put_if_absent lost
  pg_ledger_forgets_status r e n = (
    λ f. rw (n, f, e) (refl, refl),
    λ q f. (
      λ k.
          let not_ : (q.reversibility == reversible) ≡ false =
            ground (arith, eq_iff q.reversibility reversible, k) in
          rw (n, f, e, not_) (refl, refl),
      λ k.
          let can : (q.reversibility == reversible) ≡ true =
            (eq_iff q.reversibility reversible).1 k in
          rw (n, f, e, can) (lost_claim r q e),
    ),
  )
