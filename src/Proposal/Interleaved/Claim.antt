-- ===== src/Proposal/Interleaved/Claim.antt =====
-- What a claim of the ledger's entry, and the outcome written later, make of its status.
use park_smart_harness.Base.{
  String, ◌≡◌, refl, ap, inl, inr, ◌==◌, Bool, true, false, Option, none, some, arith, eq_iff,
  eq_refl, Bool-cases, Option-cases,
}
use park_smart_harness.Base.Assoc.{lookup, insert, lookup-insert}
use park_smart_harness.Message.{PendingAction}
use park_smart_harness.Proposal.Ledger.{
  Row, Rows, put_if_absent, set_row, compare_and_set, has_status,
}
use park_smart_harness.Proposal.Capability.{Wiring, claim}

abbrev pub stands_at : PendingAction → String → Rows → Bool
stands_at a s rows = has_status s (lookup a.idem_key rows)

one_status : (s t : String) (o : Option Row) → has_status s o ≡ true → has_status t o ≡ (s == t)
one_status s t none h = cc
one_status s t (some r) h = ap (λ x. x == t) ((eq_iff r.status s).0 h)

module _ {B : Type 0} (w : Wiring B) (a : PendingAction) where
  abbrev under_way : Row
  under_way = record { status = "in_flight"; content = "" }

  won_entry : (rows : Rows) → stands_at a "in_flight" (insert a.idem_key under_way rows) ≡ true
  won_entry rows =
      ground (arith, lookup-insert a.idem_key under_way rows a.idem_key, eq_refl a.idem_key)

  pub claim_won :
      (s : Option String) (rows : Rows)
      → (claim w a s rows).0 ≡ true
      → (stands_at a "in_flight" rows ≡ false)
        × (stands_at a "done" rows ≡ false)
        × (stands_at a "in_flight" (claim w a s rows).1 ≡ true)
  unfolding put_if_absent compare_and_set
  claim_won none rows h = elim (Option-cases (lookup a.idem_key rows)) [
    | inl e ↦ rw e (refl, refl, won_entry rows)
    | inr (r, e) ↦ let no : false ≡ true = rw e at h in cc
  ]
  claim_won (some s) rows h = elim (Bool-cases (stands_at a "failed" rows)) [
    | inl b ↦ rw b (
      one_status "failed" "in_flight" (lookup a.idem_key rows) b,
      one_status "failed" "done" (lookup a.idem_key rows) b,
      won_entry rows,
    )
    | inr b ↦ let no : false ≡ true = rw b at h in cc
  ]

  pub claim_lost :
      (s : Option String) (rows : Rows) → (claim w a s rows).0 ≡ false → (claim w a s rows).1 ≡ rows
  unfolding put_if_absent compare_and_set
  claim_lost none rows h = elim (Option-cases (lookup a.idem_key rows)) [
    | inl e ↦ let no : true ≡ false = rw e at h in cc
    | inr (r, e) ↦ rw e refl
  ]
  claim_lost (some s) rows h = elim (Bool-cases (stands_at a "failed" rows)) [
    | inl b ↦ let no : true ≡ false = rw b at h in cc
    | inr b ↦ rw b refl
  ]

  pub written :
      (s c : String) (rows : Rows)
      → stands_at a "in_flight" rows ≡ true
      → stands_at a s (set_row a.idem_key (record { status = s; content = c }) rows) ≡ true
  unfolding set_row
  written s c rows h = elim (Option-cases (lookup a.idem_key rows)) [
    | inl e ↦ let no : false ≡ true = rw e at h in cc
    | inr (r, e) ↦ rw e (
        ground (
          arith,
          lookup-insert a.idem_key (record { status = s; content = c }) rows a.idem_key,
          eq_refl a.idem_key,
          eq_refl s,
        ))
  ]
