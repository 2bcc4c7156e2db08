-- ===== src/Loop/Ledger/Resume.antt =====
-- The whole of `run_loop`: its boundaries stay numbered, and every result agrees with the store.
use park_smart_harness.Base.{
  ℕ, suc, ◌+◌, ◌≡◌, ◌≢◌, refl, sym, ap, ◌∙◌, subst, arith, Bool, true, false, Option, none, some,
  List, [], ◌∷◌, length, eq_iff, last?, Bool-cases, inl, inr,
}
use park_smart_harness.Base.Assoc.{lookup, insert, lookup-insert}
use park_smart_harness.Exec.{Exc, ok, raised, persist_error, exception, ◌>>◌, recast, catch_as}
use park_smart_harness.Exec.Triple.{Triple, Triple-bind, Triple-weaken, Post}
use park_smart_harness.Message.{PendingAction}
use park_smart_harness.Repair.{repair_messages}
use park_smart_harness.Repair.Words.{of_others}
use park_smart_harness.Repair.Replace.{IsKeyed, repair_messages-replace}
use park_smart_harness.Tools.{Boundary, Status, ToolResult}
use park_smart_harness.Budget.{Snapshot, BudgetTracker, snapshot}
use park_smart_harness.Store.{Resolved, replace_placeholders}
use park_smart_harness.Loop.{
  Control, Call, Machine, LoopResult, persist_failed, on_world, safely, modify,
}
use park_smart_harness.Loop.Prompt.{set_messages, turn_id}
use park_smart_harness.Loop.Run.{
  main_loop, restored, resume, on_last, run_body, persist_exit, run_loop, resolve_batch, confirm,
  Resolution, fresh_locals, is_awaiting, confirm_pending, resolved_message, decision_for,
}
use park_smart_harness.Loop.Ledger.{
  Observer, NumberedFrom, NumberedTo, IsLedger, IsSynced, IsNumbered, Ends, Quiet,
}
use park_smart_harness.Loop.Ledger.Commit.{IsSound, settle}
use park_smart_harness.Loop.Ledger.Turn.{quiet-IsSynced}
use park_smart_harness.Loop.Ledger.Prompt.{on_host-IsSynced}
use park_smart_harness.Loop.Ledger.Run.{Returns, main_loop-Returns}

insert-IsKeyed :
    (r : Resolved) (p : PendingAction) (t : ToolResult)
    → IsKeyed r
    → IsKeyed (insert p.tool_call_id (resolved_message p t) r)
insert-IsKeyed r p t k i m e =
    ground (
      arith,
      k i m,
      lookup-insert p.tool_call_id (resolved_message p t) r i,
      eq_iff i p.tool_call_id,
    )

empty-IsKeyed : IsKeyed []
unfolding lookup
empty-IsKeyed i m q = ground arith

last_numbered :
    (k : ℕ) (bs : List Boundary) (b : Boundary)
    → NumberedFrom k bs
    → last? bs ≡ some b
    → b.seq ≡ k + length bs
last_numbered k [] b h e = cc
last_numbered k (c ∷ []) b h e = ground arith
last_numbered k (c ∷ d ∷ bs) b h e = last_numbered (suc k) (d ∷ bs) b h.2 e ∙ omega arith

no_last : (bs : List Boundary) → last? bs ≡ none → length bs ≡ 0
no_last [] e = refl
no_last (c ∷ []) e = cc
no_last (c ∷ d ∷ bs) e = absurd (some_last c (d ∷ bs) e)
  where
    some_last : (c : Boundary) (bs : List Boundary) → last? (c ∷ bs) ≡ none → ⊥
    some_last c [] e = cc
    some_last c (d ∷ bs) e = some_last d bs e

module _ {W : Type 0} (o : Observer W) (x : Call W) (law : IsLedger o x) where
  resolve_batch-IsKeyed :
      (c : Control W)
      → x.control ≡ some c
      → (r : Resolution) (n : ℕ) (ps : List PendingAction) (resolved : Resolved) → IsKeyed resolved
      → Triple
          (IsSynced o n)
          (resolve_batch x c r ps resolved)
          (λ res s. IsKeyed res × IsSynced o n s)
          (IsSound o)
  unfolding resolve_batch
  resolve_batch-IsKeyed c e r n [] resolved k = record { at = λ s i. (k, i) }
  resolve_batch-IsKeyed c e r n (p ∷ ps) resolved k =
      Triple-bind
        (on_host-IsSynced o n (c.resolve p (decision_for r p)) (λ h. law.decides c p _ h e))
        λ t. resolve_batch-IsKeyed c e r n ps _ (insert-IsKeyed resolved p t k)

  -- The conversation has its placeholders replaced, the log not yet.
  abbrev HalfResolved : ℕ → Resolved → Machine W → Type 0
  HalfResolved n res s =
      NumberedTo n (o.boundaries s.host.world)
      × ((repair_messages s.messages).0
          ≡ (repair_messages (replace_placeholders res (o.log s.host.world))).0)

  halves :
      (n : ℕ) (res : Resolved)
      → Triple
          (λ s. IsKeyed res × IsSynced o n s)
          (modify (λ s. set_messages (replace_placeholders res s.messages) s))
          (λ u. HalfResolved n res)
          (IsSound o)
  unfolding modify
  halves n res = record {
    at = λ s i. (
      i.1.numbered,
      repair_messages-replace res i.0 s.messages
          ∙ ap (replace_placeholders res) i.1.synced
          ∙ sym (repair_messages-replace res i.0 (o.log s.host.world)),
    );
  }

  abbrev resolved_boundary : ℕ → BudgetTracker → Boundary
  resolved_boundary n b = record {
    status = Status.iteration;
    turn_id = turn_id (suc n);
    seq = suc n;
    pending_batch = none;
    budget_snapshot = some (snapshot b);
  }

  resolves-IsSynced :
      (n : ℕ) (res : Resolved) (b : BudgetTracker)
      → Triple
          (HalfResolved n res)
          (safely (x.store.resolve_pending x.thread_id res (resolved_boundary n b)))
          (λ u. IsSynced o (suc n))
          (IsSound o)
  unfolding safely on_world catch_as
  resolves-IsSynced n res b =
      Triple-weaken
        (record {
          at = λ s i.
              settle o (λ c t. Unit {0}) n s _ (resolved_boundary n b) _ i.0 i.1 refl refl tt
                (law.resolves res (resolved_boundary n b) s.host.world);
        })
        (λ s i. i) (λ u s i. i.0) (λ e s i. i)

  confirm-IsSynced :
      (c : Control W)
      → x.control ≡ some c
      → (r : Resolution) (n : ℕ) (ps : List PendingAction)
      → Triple (IsSynced o n) (confirm x c r n ps) (λ u. IsSynced o (suc n)) (IsSound o)
  unfolding confirm
  confirm-IsSynced c e r n ps =
      Triple-bind (resolve_batch-IsKeyed c e r n ps [] empty-IsKeyed) λ res.
        Triple-bind (halves n res) λ u.
          Triple-bind {R = λ b. HalfResolved n res} (record { at = λ s i. i })
            λ b. resolves-IsSynced n res b

  confirm_pending-IsSynced :
      (c : Option (Control W))
      → x.control ≡ c
      → (pending : Option (List PendingAction)) (r : Resolution) (n : ℕ)
      → Triple
          (IsSynced o n)
          (confirm_pending x c pending r n)
          (λ u. IsSynced o (suc n))
          (IsSound o)
  unfolding confirm_pending
  confirm_pending-IsSynced none e pending r n = record {
    at = λ s i. record { numbered = (n, i.numbered) };
  }
  confirm_pending-IsSynced (some c) e none r n = record {
    at = λ s i. record { numbered = (n, i.numbered) };
  }
  confirm_pending-IsSynced (some c) e (some ps) r n = confirm-IsSynced c e r n ps

  -- The last boundary as it was read.
  abbrev IsRead : ℕ → Option Boundary → Machine W → Type 0
  IsRead n b s = IsSynced o n s × (b ≡ last? (o.boundaries s.host.world))

  at_last : (n : ℕ) (b : Boundary) (s : Machine W) → IsRead n (some b) s → b.seq ≡ n
  at_last n b s i = last_numbered 0 _ b i.0.numbered.1 (sym i.1) ∙ omega (arith, i.0.numbered.0)

  resolved-Returns :
      (fuel : ℕ) (b : Boundary) (r : Resolution) (n : ℕ)
      → Triple
          (IsRead n (some b))
          (confirm_pending x x.control b.pending_batch r b.seq
            >> main_loop x fuel (fresh_locals (suc b.seq)))
          (Returns o)
          (IsSound o)
  resolved-Returns fuel b r n = record {
    at = λ s i.
        (Triple-bind {P = IsSynced o b.seq}
            (confirm_pending-IsSynced x.control refl b.pending_batch r b.seq)
            λ u. main_loop-Returns o x law fuel (fresh_locals (suc b.seq))).at
          s (subst (λ k. IsSynced o k s) (sym (at_last n b s i)) i.0);
  }

  is_awaiting-eq : (st : Status) → is_awaiting st ≡ true → st ≡ Status.awaiting_confirmation
  is_awaiting-eq Status.awaiting_confirmation h = refl
  is_awaiting-eq _ h = cc

  resume-Returns :
      (fuel : ℕ) (r : Option Resolution) (c : Bool) (b : Boundary) (n : ℕ)
      → is_awaiting b.status ≡ true
      → Triple (IsRead n (some b)) (resume x fuel r c b) (Returns o) (IsSound o)
  unfolding resume
  resume-Returns fuel r true b n e = resolved-Returns fuel b _ n
  resume-Returns fuel none false b n e = record {
    at = λ s i. (n, i.0, (b, sym i.1, (is_awaiting-eq b.status e, refl)));
  }
  resume-Returns fuel (some r) false b n e = resolved-Returns fuel b r n

  restored-IsRead :
      (n : ℕ) (b : Option Boundary) (snap : Option Snapshot)
      → Triple (IsRead n b) (restored x snap) (λ u. IsRead n b) (IsSound o)
  unfolding restored modify
  restored-IsRead n b none = record { at = λ s i. i }
  restored-IsRead n b (some snap) = record {
    at = λ s i. (quiet-IsSynced o n s _ i.0 (refl, refl), i.1);
  }

  on_last-Returns :
      (fuel : ℕ) (r : Option Resolution) (c : Bool) (n : ℕ) (b : Option Boundary)
      → Triple (IsRead n b) (on_last x fuel r c b) (Returns o) (IsSound o)
  unfolding on_last
  on_last-Returns fuel r c n none = record {
    at = λ s i.
        (main_loop-Returns o x law fuel (fresh_locals 0)).at s
          (subst (λ k. IsSynced o k s) (sym i.0.numbered.0 ∙ no_last _ (sym i.1)) i.0);
  }
  on_last-Returns fuel r c n (some b) =
      Triple-bind (restored-IsRead n (some b) b.budget_snapshot) λ u.
        elim (Bool-cases (is_awaiting b.status)) [
          | inl e ↦ rw e (resume-Returns fuel r c b n e)
          | inr e ↦ rw e (record {
            at = λ s i.
                (main_loop-Returns o x law fuel (fresh_locals b.seq)).at s
                  (subst (λ k. IsSynced o k s) (sym (at_last n b s i)) i.0);
          })
        ]

  Post-IsRead :
      (n : ℕ) (s : Machine W) (r : Exc (Option Boundary) × W)
      → IsSynced o n s
      → Post
          (λ b w. (b ≡ last? (o.boundaries s.host.world)) × Quiet o s.host.world w)
          (λ e w. Quiet o s.host.world w)
          r
      → Post
          (IsRead n)
          (IsSound o)
          (recast persist_error r.0, record s { host = record s.host { world = r.1 } })
  Post-IsRead n s (ok b, w) i (e, q) = (quiet-IsSynced o n s _ i q, e ∙ ap last? (sym q.1))
  Post-IsRead n s (raised e, w) i q = record {
    numbered = (n, (quiet-IsSynced o n s (record s.host { world = w }) i q).numbered);
  }

  reads-IsRead :
      (n : ℕ)
      → Triple (IsSynced o n) (safely (x.store.latest_boundary x.thread_id)) (IsRead n) (IsSound o)
  unfolding safely on_world catch_as
  reads-IsRead n = record { at = λ s i. Post-IsRead n s _ i (law.reads s.host.world) }

  run_body-Returns :
      (fuel : ℕ) (r : Option Resolution) (c : Bool) (n : ℕ)
      → Triple (IsSynced o n) (run_body x fuel r c) (Returns o) (IsSound o)
  unfolding run_body
  run_body-Returns fuel r c n = Triple-bind (reads-IsRead n) λ b. on_last-Returns fuel r c n b

  -- What holds of a result and the store: the boundaries are numbered, the last one is what the
  -- result says, and unless the store failed conversation and log, once repaired, agree in the
  -- messages that are no user's. The merge of users' messages writes to objects that the log may
  -- share, so nothing is said of their contents.
  abbrev pub Outcome : Option LoopResult → Machine W → Type 0
  Outcome none s = Unit {0}
  Outcome (some r) s =
      IsNumbered o s
      × Ends o r s
      × (r.reason ≢ some persist_failed
          → of_others (repair_messages s.messages).0
            ≡ of_others (repair_messages (o.log s.host.world)).0)

  persist_exit-Outcome :
      (r : Exc (Option LoopResult) × Machine W)
      → Post (Returns o) (IsSound o) r
      → Post Outcome (λ e s. IsNumbered o s) (persist_exit x r)
  unfolding persist_exit
  persist_exit-Outcome (ok none, s) h = tt
  persist_exit-Outcome (ok (some r), s) (n, i, e) = ((n, i.numbered), e, λ p. ap of_others i.synced)
  persist_exit-Outcome (raised persist_error, s) h = (h.numbered, tt, λ p. absurd (p refl))
  persist_exit-Outcome (raised (exception t), s) h = h.numbered

  -- If the store is transactional and no other seam writes it, then a call of `run_loop` that
  -- starts with numbered boundaries, and a conversation that repairs to what the log repairs to,
  -- leaves numbered boundaries, even where it raises. A completed or suspended run and one that
  -- the breaker stopped have the last boundary that they claim, and unless the store failed the
  -- repaired conversation and the repaired log have the same messages of the model and the tools,
  -- in the same order: what was not committed is gone.
  pub run_loop_keeps_ledger :
      (fuel : ℕ) (r : Option Resolution) (cancel : Bool) (n : ℕ) (s : Machine W)
      → IsSynced o n s
      → Post Outcome (λ e s. IsNumbered o s) (run_loop x fuel r cancel s)
  unfolding run_loop
  run_loop_keeps_ledger fuel r cancel n s i =
      persist_exit-Outcome _ ((run_body-Returns fuel r cancel n).at s i)
