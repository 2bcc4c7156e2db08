-- ===== src/Loop/Ledger/Commit.antt =====
-- The ends of an iteration: a commit writes one numbered boundary with the messages of the
-- iteration, a roll-back takes them from the conversation.
use park_smart_harness.Base.{
  ℕ, suc, ◌+◌, ◌≡◌, refl, sym, ap, subst, ◌∙◌, inl, inr, Option, some, List, [], ◌∷◌, ◌++◌, length,
  length-append, last?, take, take-append, arith,
}
use park_smart_harness.Exec.{Exc, ok, raised, Error, persist_error, ◌>>=◌, recast, catch_as}
use park_smart_harness.Exec.Triple.{Triple, Post, Triple-bind}
use park_smart_harness.Message.{Message, PendingAction}
use park_smart_harness.Repair.{repair_messages}
use park_smart_harness.Repair.Append.{repair_messages-append}
use park_smart_harness.Budget.{snapshot, BudgetTracker}
use park_smart_harness.Tools.{Boundary, Status}
use park_smart_harness.Loop.{
  Call, Machine, Locals, Progress, again, done, LoopResult, on_world, safely, modify,
}
use park_smart_harness.Loop.Prompt.{turn_id, set_messages, commit_now}
use park_smart_harness.Loop.Turn.{roll_back, finish}
use park_smart_harness.Loop.Ledger.{
  Observer, NumberedFrom, NumberedTo, IsLedger, IsSynced, IsNumbered, LastIs, Ends, Atomic,
}

last?-append : (bs : List Boundary) (b : Boundary) → last? (bs ++ b ∷ []) ≡ some b
last?-append [] b = refl
last?-append (c ∷ []) b = refl
last?-append (c ∷ d ∷ bs) b = last?-append (d ∷ bs) b

numbered_next :
    (n : ℕ) (bs : List Boundary) (b : Boundary)
    → NumberedFrom n bs
    → b.seq ≡ suc (n + length bs)
    → b.turn_id ≡ turn_id (suc (n + length bs))
    → NumberedFrom n (bs ++ b ∷ [])
numbered_next n [] b h s t =
    (s ∙ ap suc (omega arith), t ∙ ap (λ k. turn_id (suc k)) (omega arith), tt)
numbered_next n (c ∷ bs) b h s t = (
  h.0,
  h.1,
  numbered_next (suc n) bs b h.2 (s ∙ ap suc (omega arith))
      (t ∙ ap (λ k. turn_id (suc k)) (omega arith)),
)

-- One more boundary, with the next number.
NumberedTo-next :
    (n : ℕ) (bs : List Boundary) (b : Boundary)
    → NumberedTo n bs
    → b.seq ≡ suc n
    → b.turn_id ≡ turn_id (suc n)
    → NumberedTo (suc n) (bs ++ b ∷ [])
NumberedTo-next n bs b h s t = (
  omega (arith, length-append bs (b ∷ []), h.0),
  numbered_next 0 bs b h.1 (s ∙ ap suc (omega (arith, h.0)))
      (t ∙ ap (λ k. turn_id (suc k)) (omega (arith, h.0))),
)

-- What both lists repair to stays the same when both grow by the same messages.
pub repaired_append :
    (a b c : List Message)
    → (repair_messages a).0 ≡ (repair_messages b).0
    → (repair_messages (a ++ c)).0 ≡ (repair_messages (b ++ c)).0
repaired_append a b c e =
    sym (repair_messages-append a c)
    ∙ ap (λ l. (repair_messages (l ++ c)).0) e
    ∙ repair_messages-append b c

module _ {W : Type 0} (o : Observer W) where
  -- Within an iteration the conversation has the messages of `buffer` beyond the committed ones,
  -- of which there are `base`.
  pub record IsBusy (n base : ℕ) (buffer : List Message) (s : Machine W) : Type 0 where
    pub old : List Message
    pub old_length : length old ≡ base
    pub messages : s.messages ≡ old ++ buffer
    pub idle : IsSynced o n (set_messages old s)

  -- The boundary that a commit writes.
  abbrev pub IsCommitted : Status → Option (List PendingAction) → ℕ → Machine W → Type 0
  IsCommitted st pending n s =
      IsSynced o n s
      × LastIs o
          (λ b.
            (b.status ≡ st)
            × (b.pending_batch ≡ pending)
            × (b.budget_snapshot ≡ some (snapshot s.host.budget)))
          s

  -- What an iteration guarantees.
  abbrev pub Good : Progress → Machine W → Type 0
  Good (again l) s = IsSynced o l.seq s
  Good (done r) s = (n : ℕ) × IsSynced o n s × Ends o r s

  pub record IsSound (e : Error) (s : Machine W) : Type 0 where
    pub numbered : IsNumbered o s

  abbrev in_world : Machine W → W → Machine W
  in_world s w = record s { host = record s.host { world = w } }

  -- A transaction that ends at a log which repairs to the conversation.
  pub settle :
      (P : Boundary → BudgetTracker → Type 0) (n : ℕ) (s : Machine W) (log : List Message)
      (b : Boundary) (r : Exc (Unit {0}) × W)
      → NumberedTo n (o.boundaries s.host.world)
      → (repair_messages s.messages).0 ≡ (repair_messages log).0
      → b.seq ≡ suc n
      → b.turn_id ≡ turn_id (suc n)
      → P b s.host.budget
      → Atomic o log b s.host.world r
      → Post
          (λ u t. IsSynced o (suc n) t × LastIs o (λ c. P c t.host.budget) t)
          IsSound
          (recast persist_error r.0, in_world s r.1)
  settle P n s log b (ok u, w) num syn q t p (e, f) = (
    record {
      numbered = subst (NumberedTo (suc n)) (sym f) (NumberedTo-next n _ b num q t);
      synced = syn ∙ ap (λ l. (repair_messages l).0) (sym e);
    },
    (b, ap last? f ∙ last?-append (o.boundaries s.host.world) b, p),
  )
  settle P n s log b (raised e, w) num syn q t p (inl (f, g)) = record {
    numbered = (n, subst (NumberedTo n) (sym g) num);
  }
  settle P n s log b (raised e, w) num syn q t p (inr (f, g)) = record {
    numbered = (suc n, subst (NumberedTo (suc n)) (sym g) (NumberedTo-next n _ b num q t));
  }

  module _ (x : Call W) (law : IsLedger o x) where
    pub commit_now-IsCommitted :
        (n base : ℕ) (st : Status) (pending : Option (List PendingAction)) (buffer : List Message)
        → Triple
            (IsBusy n base buffer)
            (commit_now x st (suc n) pending buffer)
            (λ u. IsCommitted st pending (suc n))
            IsSound
    unfolding commit_now ◌>>=◌ safely on_world catch_as
    commit_now-IsCommitted n base st pending buffer = record {
      at = λ s h.
          settle
            (λ b t.
              (b.status ≡ st)
              × (b.pending_batch ≡ pending)
              × (b.budget_snapshot ≡ some (snapshot t)))
            n s _ _ _ h.idle.numbered
            (ap (λ l. (repair_messages l).0) h.messages
              ∙ repaired_append h.old _ buffer h.idle.synced)
            refl refl (refl, refl, refl) (law.commits buffer _ s.host.world);
    }

    -- A commit, and then on to the next iteration, or out.
    pub finish-again :
        (n base : ℕ) (st : Status) (pending : Option (List PendingAction)) (buffer : List Message)
        (l : Locals)
        → l.seq ≡ suc n
        → Triple (IsBusy n base buffer) (finish x st (suc n) pending buffer (again l)) Good IsSound
    unfolding finish
    finish-again n base st pending buffer l e =
        Triple-bind (commit_now-IsCommitted n base st pending buffer)
          λ u. record { at = λ s h. rw e h.0 }

    pub finish-done :
        (n base : ℕ) (st : Status) (pending : Option (List PendingAction)) (buffer : List Message)
        (r : LoopResult)
        → ((s : Machine W) → IsCommitted st pending (suc n) s → Ends o r s)
        → Triple (IsBusy n base buffer) (finish x st (suc n) pending buffer (done r)) Good IsSound
    unfolding finish
    finish-done n base st pending buffer r e =
        Triple-bind (commit_now-IsCommitted n base st pending buffer)
          λ u. record { at = λ s h. (suc n, h.0, e s h) }

    rolled_back :
        (n base : ℕ) (buffer : List Message) (s : Machine W)
        → IsBusy n base buffer s
        → IsSynced o n (set_messages (take base s.messages) s)
    rolled_back n base buffer s h = record {
      numbered = h.idle.numbered;
      synced =
          ap (λ l. (repair_messages l).0)
            (rw (h.messages, ← h.old_length) (take-append h.old buffer))
          ∙ h.idle.synced;
    }

    -- A roll-back, and then a new try, or out.
    pub roll_back-again :
        (n base : ℕ) (buffer : List Message) (l : Locals)
        → l.seq ≡ n
        → Triple (IsBusy n base buffer) (roll_back x base (again l)) Good IsSound
    unfolding roll_back ◌>>=◌ modify
    roll_back-again n base buffer l e = record { at = λ s h. rw e (rolled_back n base buffer s h) }

    pub roll_back-done :
        (n base : ℕ) (buffer : List Message) (r : LoopResult)
        → ((s : Machine W) → Ends o r s)
        → Triple (IsBusy n base buffer) (roll_back x base (done r)) Good IsSound
    unfolding roll_back ◌>>=◌ modify
    roll_back-done n base buffer r e = record {
      at = λ s h. (n, rolled_back n base buffer s h, e _);
    }
