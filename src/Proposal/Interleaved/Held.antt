-- ===== src/Proposal/Interleaved/Held.antt =====
-- Overlapping approvals: one of them at most holds the ledger's entry.
use park_smart_harness.Base.{
  ℕ, suc, ◌+◌, ◌≤◌, String, ◌≡◌, refl, sym, ◌∙◌, ◌⊎◌, inl, inr, ◌==◌, Bool, true, false, Option,
  none, some, List, [], ◌∷◌, ◌++◌, arith, Bool-cases, if◌then◌else◌, count,
}
use park_smart_harness.Message.{PendingAction}
use park_smart_harness.Proposal.Ledger.{Rows}
use park_smart_harness.Proposal.Ledger.{keeping_status}
use park_smart_harness.Proposal.Capability.{Wiring, status_of, claim}
use park_smart_harness.Proposal.Interleaved.{
  Phase, asked, told, sending, succeeded, broken, over, after_read, Scene, at, advance, Step,
  begins, takes, answers, breaks, ends, Steps, stay, go,
}
use park_smart_harness.Proposal.Interleaved.Claim.{stands_at, claim_won, claim_lost, written}

-- The approvals that are at the command or after a failed one, and those after a success.
abbrev pub is_busy : Phase → Bool
is_busy sending = true
is_busy broken = true
is_busy _ = false

abbrev pub is_fresh : Phase → Bool
is_fresh (succeeded c) = true
is_fresh _ = false

abbrev weight : (Phase → Bool) → Phase → ℕ
weight t p = if t p then 1 else 0

count-at :
    (t : Phase → Bool) (before : List Phase) (p : Phase) (after : List Phase)
    → count t (before ++ p ∷ after) ≡ count t before + count t after + weight t p
count-at t [] p after = ground arith
count-at t (q ∷ before) p after = ground (arith, count-at t before p after)

others : (Phase → Bool) → List Phase → List Phase → ℕ
others t before after = count t before + count t after

module _ {B : Type 0} (w : Wiring B) (a : PendingAction) where
  -- Nobody holds the entry and no command succeeded; or one approval holds it, and it is in
  -- flight; or nobody holds it, one command succeeded, and the entry cannot be claimed again.
  abbrev IsHeld : ℕ → ℕ → Rows → ℕ → Type 0
  IsHeld b f rows n =
      (((b ≡ 0) × (f ≡ 0) × (n ≡ 0))
        ⊎ ((b + f ≡ 1) × (f ≡ n) × (stands_at a "in_flight" rows ≡ true)))
      ⊎ ((b ≡ 0)
          × (f ≡ 0)
          × (n ≡ 1)
          × ((stands_at a "in_flight" rows ≡ true) ⊎ (stands_at a "done" rows ≡ true)))

  -- The same for the approvals but one, `b` and `f` being the numbers of the others.
  abbrev With : Phase → ℕ → ℕ → Rows → ℕ → Type 0
  With p b f rows n = IsHeld (b + weight is_busy p) (f + weight is_fresh p) rows n

  -- Only a holder that has its weight finds the entry in flight.
  busy_holds :
      (b f n : ℕ) (rows : Rows)
      → IsHeld (b + 1) f rows n
      → (b ≡ 0) × (f ≡ 0) × (n ≡ 0) × (stands_at a "in_flight" rows ≡ true)
  busy_holds b f n rows (inl (inl (x, y, z))) = absurd (omega (arith, x))
  busy_holds b f n rows (inl (inr (x, y, h))) =
      (omega (arith, x), omega (arith, x), omega (arith, x, y), h)
  busy_holds b f n rows (inr (x, y, z, h)) = absurd (omega (arith, x))

  fresh_holds :
      (b f n : ℕ) (rows : Rows)
      → IsHeld b (f + 1) rows n
      → (b ≡ 0) × (f ≡ 0) × (n ≡ 1) × (stands_at a "in_flight" rows ≡ true)
  fresh_holds b f n rows (inl (inl (x, y, z))) = absurd (omega (arith, y))
  fresh_holds b f n rows (inl (inr (x, y, h))) =
      (omega (arith, x), omega (arith, x), omega (arith, x, y), h)
  fresh_holds b f n rows (inr (x, y, z, h)) = absurd (omega (arith, y))

  nobody_holds :
      (b f n : ℕ) (rows : Rows)
      → stands_at a "in_flight" rows ≡ false
      → stands_at a "done" rows ≡ false
      → IsHeld b f rows n
      → (b ≡ 0) × (f ≡ 0) × (n ≡ 0)
  nobody_holds b f n rows i d (inl (inl h)) = h
  nobody_holds b f n rows i d (inl (inr (x, y, h))) = let no : false ≡ true = sym i ∙ h in cc
  nobody_holds b f n rows i d (inr (x, y, z, inl h)) = let no : false ≡ true = sym i ∙ h in cc
  nobody_holds b f n rows i d (inr (x, y, z, inr h)) = let no : false ≡ true = sym d ∙ h in cc

  ends_held : (p : Phase) (b f n : ℕ) (rows : Rows) → With p b f rows n → With over b f rows n
  ends_held asked b f n rows h = h
  ends_held (told s) b f n rows h = h
  ends_held over b f n rows h = h
  ends_held sending b f n rows h =
      let (x, y, z, i) = busy_holds b _ n rows h in inl (inl (omega arith, omega arith, z))
  ends_held broken b f n rows h =
      let (x, y, z, i) = busy_holds b _ n rows h in inl (inl (omega arith, omega arith, z))
  ends_held (succeeded c) b f n rows h =
      let (x, y, z, i) = fresh_holds _ f n rows h in inr (omega arith, omega arith, z, inl i)

  read_held :
      (o : Option String) (b f n : ℕ) (rows : Rows)
      → With asked b f rows n
      → With (after_read o) b f rows n
  read_held none b f n rows h = h
  read_held (some s) b f n rows h = elim (Bool-cases (s == "done")) [
    | inl d ↦ rw d h
    | inr d ↦ elim (Bool-cases (s == "in_flight")) [ inl i ↦ rw (d, i) h | inr i ↦ rw (d, i) h ]
  ]

  takes_held :
      (p : Phase) (b f n : ℕ) (rows : Rows)
      → With p b f rows n
      → With (advance w a p rows).0 b f (advance w a p rows).1 n
  unfolding advance
  takes_held asked b f n rows h =
      read_held (status_of (keeping_status.read rows a.idem_key)) b f n rows h
  takes_held (told s) b f n rows h = elim (Bool-cases (claim w a s rows).0) [
    | inl e ↦
        let (i, d, k) = claim_won w a s rows e in
        let (x, y, z) = nobody_holds _ _ n rows i d h in
        rw e (inl (inr (omega arith, omega arith, k)))
    | inr e ↦ rw (e, claim_lost w a s rows e) h
  ]
  takes_held over b f n rows h = h
  takes_held sending b f n rows h = h
  takes_held broken b f n rows h =
      let (x, y, z, i) = busy_holds b _ n rows h in inl (inl (omega arith, omega arith, z))
  takes_held (succeeded c) b f n rows h =
      let (x, y, z, i) = fresh_holds _ f n rows h in
      inr (omega arith, omega arith, z, inr (written w a "done" c rows i))

  answers_held :
      (c : String) (b f n : ℕ) (rows : Rows)
      → With sending b f rows n
      → With (succeeded c) b f rows (suc n)
  answers_held c b f n rows h =
      let (x, y, z, i) = busy_holds b _ n rows h in inl (inr (omega arith, omega arith, i))

  -- The entry is held by one approval at most.
  abbrev pub IsExclusive : Scene → Type 0
  IsExclusive s = IsHeld (count is_busy s.phases) (count is_fresh s.phases) s.rows s.successes

  into :
      (before : List Phase) (p : Phase) (after : List Phase) (rows : Rows) (n : ℕ)
      → IsExclusive (at before p after rows n)
      → With p (others is_busy before after) (others is_fresh before after) rows n
  unfolding others
  into before p after rows n h =
      rw (sym (count-at is_busy before p after), sym (count-at is_fresh before p after)) h

  back :
      (before : List Phase) (p : Phase) (after : List Phase) (rows : Rows) (n : ℕ)
      → With p (others is_busy before after) (others is_fresh before after) rows n
      → IsExclusive (at before p after rows n)
  unfolding others
  back before p after rows n h =
      rw (count-at is_busy before p after, count-at is_fresh before p after) h

  step-IsExclusive : {s t : Scene} → Step w a s t → IsExclusive s → IsExclusive t
  step-IsExclusive (begins s) h = h
  step-IsExclusive (takes before p after rows n) h =
      back before _ after _ n (takes_held p _ _ n rows (into before p after rows n h))
  step-IsExclusive (answers before after c rows n) h =
      back before _ after rows _ (answers_held c _ _ n rows (into before sending after rows n h))
  step-IsExclusive (breaks before after rows n) h =
      back before broken after rows n (into before sending after rows n h)
  step-IsExclusive (ends before p after rows n) h =
      back before over after rows n (ends_held p _ _ n rows (into before p after rows n h))

  steps-IsExclusive : {s t : Scene} → Steps w a s t → IsExclusive s → IsExclusive t
  steps-IsExclusive (stay s) h = h
  steps-IsExclusive (go x xs) h = steps-IsExclusive xs (step-IsExclusive x h)

  -- At the command, after it, or past a success.
  at_most_one :
      (s : Scene)
      → IsExclusive s
      → (s.successes ≤ 1)
        × (count is_busy s.phases + count is_fresh s.phases ≤ 1)
        × (s.successes ≡ 1 → count is_busy s.phases ≡ 0)
  at_most_one s (inl (inl (x, y, z))) = (omega (arith, z), omega (arith, x, y), λ e. x)
  at_most_one s (inl (inr (x, y, h))) =
      (omega (arith, x, y), omega (arith, x), λ e. omega (arith, x, y, e))
  at_most_one s (inr (x, y, z, h)) = (omega (arith, z), omega (arith, x, y), λ e. x)

  -- However the statements of any number of approvals of one pending action are interleaved, and
  -- whichever approvals end early, starting from any rows with no approval begun: at most one
  -- command succeeds, at most one approval is at its command or about to write its outcome, and
  -- once a command has succeeded none is at a command again.
  pub approvals_exclude_each_other :
      (rows : Rows) (t : Scene)
      → Steps w a (record { phases = []; rows = rows; successes = 0 }) t
      → (t.successes ≤ 1)
        × (count is_busy t.phases + count is_fresh t.phases ≤ 1)
        × (t.successes ≡ 1 → count is_busy t.phases ≡ 0)
  approvals_exclude_each_other rows t x =
      at_most_one t (steps-IsExclusive x (inl (inl (refl, refl, refl))))
