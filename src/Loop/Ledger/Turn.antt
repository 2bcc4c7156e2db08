-- ===== src/Loop/Ledger/Turn.antt =====
-- The second half of an iteration keeps the numbering, and conversation and log in step.
use park_smart_harness.Base.{
  ℕ, suc, ◌≡◌, refl, sym, ap, ◌∙◌, subst, Bool, Option, none, some, List, [], ◌∷◌, ◌++◌,
}
use mathlib.Core.List.{append_assoc}
use park_smart_harness.Exec.Triple.{Triple, Triple-bind, Triple-if}
use park_smart_harness.Message.{Message, ToolCallReq, PendingAction}
use park_smart_harness.Tools.{Status, Host}
use park_smart_harness.Loop.{ModelTurn, Call, Machine, Locals, modify}
use park_smart_harness.Loop.Prompt.{set_messages, extend}
use park_smart_harness.Loop.Turn.{
  assistant_message, keep_going, conclude, after_batch, act, check_stall, check_progress, answered,
  after_model, context,
}
use park_smart_harness.Repair.{repair_messages}
use park_smart_harness.Loop.Ledger.{NumberedTo, Closes, LastIs, Observer, IsLedger, IsSynced, Quiet}
use park_smart_harness.Loop.Ledger.Batch.{run_batch-Quiet}
use park_smart_harness.Loop.Ledger.Commit.{
  IsBusy, IsCommitted, Good, IsSound, finish-again, finish-done, roll_back-again, roll_back-done,
}

module _ {W : Type 0} (o : Observer W) where
  -- The messages that are appended are the buffer's.
  pub extend-IsBusy :
      (n base : ℕ) (buffer ms : List Message) (s : Machine W)
      → IsBusy o n base buffer s
      → IsBusy o n base (buffer ++ ms) (extend ms s)
  extend-IsBusy n base buffer ms s h = record {
    old = h.old;
    old_length = h.old_length;
    messages = ap (λ l. l ++ ms) h.messages ∙ append_assoc h.old buffer ms;
    idle = record { numbered = h.idle.numbered; synced = h.idle.synced };
  }

  -- A quiet step of the host.
  pub quiet-IsSynced :
      (n : ℕ) (s : Machine W) (h : Host W)
      → IsSynced o n s
      → Quiet o s.host.world h.world
      → IsSynced o n (record s { host = h })
  quiet-IsSynced n s h i q = record {
    numbered = subst (NumberedTo n) (sym q.1) i.numbered;
    synced = i.synced ∙ ap (λ l. (repair_messages l).0) (sym q.0);
  }

  pub quiet-IsBusy :
      (n base : ℕ) (buffer : List Message) (s : Machine W) (h : Host W)
      → IsBusy o n base buffer s
      → Quiet o s.host.world h.world
      → IsBusy o n base buffer (record s { host = h })
  quiet-IsBusy n base buffer s h b q = record {
    old = b.old;
    old_length = b.old_length;
    messages = b.messages;
    idle = quiet-IsSynced n (set_messages b.old s) h b.idle q;
  }

  closes : (st : Status) (n : ℕ) (s : Machine W) → IsCommitted o st none n s → Closes o st s
  closes st n s h = h.1

  hands_out :
      (st : Status) (pending : Option (List PendingAction)) (n : ℕ) (s : Machine W)
      → IsCommitted o st pending n s
      → LastIs o (λ b. (b.status ≡ st) × (b.pending_batch ≡ pending)) s
  hands_out st pending n s (i, (b, e, (p, q, r))) = (b, e, (p, q))

  module _ (x : Call W) (law : IsLedger o x) where
    keep_going-Good :
        (l : Locals) (base : ℕ) (buffer results : List Message)
        → Triple
            (IsBusy o l.seq base buffer)
            (keep_going x l base buffer results)
            (Good o)
            (IsSound o)
    unfolding keep_going
    keep_going-Good l base buffer results =
        search (Triple-if, finish-again o x law l.seq, roll_back-done o x law l.seq, refl, tt)

    conclude-Good :
        (l : Locals) (base : ℕ) (buffer results : List Message) (pending : List PendingAction)
        → Triple
            (IsBusy o l.seq base buffer)
            (conclude x l base buffer results pending)
            (Good o)
            (IsSound o)
    unfolding conclude
    conclude-Good l base buffer results pending =
        Triple-bind {R = λ stopped. IsBusy o l.seq base buffer} (record { at = λ s h. h })
          λ stopped.
            search
              (
                Triple-if,
                roll_back-done o x law l.seq,
                finish-done o x law l.seq,
                closes,
                hands_out,
                keep_going-Good,
                tt,
              )
              depth 8

    after_batch-Good :
        (l : Locals) (base : ℕ) (said : Message) (pending : List PendingAction)
        (results : Option (List Message))
        → Triple
            (IsBusy o l.seq base (said ∷ []))
            (after_batch x l base said pending results)
            (Good o)
            (IsSound o)
    unfolding after_batch modify
    after_batch-Good l base said pending none = record {
      at = λ s h. record { numbered = (l.seq, h.idle.numbered) };
    }
    after_batch-Good l base said pending (some ms) =
        Triple-bind {R = λ u. IsBusy o l.seq base (said ∷ ms)}
          (record { at = λ s h. extend-IsBusy l.seq base (said ∷ []) ms s h })
          λ u. conclude-Good l base (said ∷ ms) ms pending

    act-Good :
        (n : ℕ) (l : Locals) (base : ℕ) (said : Message) (calls : List ToolCallReq)
        → l.seq ≡ n
        → Triple (IsBusy o n base (said ∷ [])) (act x l base said calls) (Good o) (IsSound o)
    unfolding act
    act-Good n l base said calls e = record {
      at = λ s h.
          let h' = subst (λ k. IsBusy o k base (said ∷ []) s) (sym e) h in
          (after_batch-Good _ base said _ _).at _ (
            quiet-IsBusy l.seq base (said ∷ []) s _ h'
              (run_batch-Quiet o x law (context x) l.failures calls s.host));
    }

    check_stall-Good :
        (n : ℕ) (l : Locals) (base : ℕ) (said : Message) (calls : List ToolCallReq)
        → l.seq ≡ n
        → Triple
            (IsBusy o n base (said ∷ []))
            (check_stall x l base said calls)
            (Good o)
            (IsSound o)
    unfolding check_stall
    check_stall-Good n l base said calls e =
        search (Triple-if, roll_back-done o x law n, act-Good n, tt)

    check_progress-Good :
        (n : ℕ) (l : Locals) (base : ℕ) (said : Message) (calls : List ToolCallReq)
        → l.seq ≡ n
        → Triple
            (IsBusy o n base (said ∷ []))
            (check_progress x l base said calls)
            (Good o)
            (IsSound o)
    unfolding check_progress
    check_progress-Good n l base said calls e =
        search (Triple-if, roll_back-done o x law n, check_stall-Good n, tt)

    answered-Good :
        (l : Locals) (base : ℕ) (t : ModelTurn)
        → Triple
            (IsBusy o l.seq base (assistant_message t ∷ []))
            (answered x l base t)
            (Good o)
            (IsSound o)
    unfolding answered
    answered-Good l base t = search (
      Triple-if,
      roll_back-done o x law l.seq,
      roll_back-again o x law l.seq,
      finish-done o x law l.seq,
      closes,
      refl,
      tt,
    )

    pub after_model-Good :
        (grace : Bool) (l : Locals) (base : ℕ) (t : ModelTurn)
        → Triple (IsBusy o l.seq base []) (after_model x grace l base t) (Good o) (IsSound o)
    unfolding after_model modify
    after_model-Good grace l base t =
        Triple-bind {R = λ u. IsBusy o l.seq base []}
          (record { at = λ s h. quiet-IsBusy l.seq base [] s _ h (refl, refl) })
          λ u.
            Triple-bind {R = λ u. IsBusy o l.seq base (assistant_message t ∷ [])}
              (record { at = λ s h. extend-IsBusy l.seq base [] (assistant_message t ∷ []) s h })
              λ u. search (
                Triple-if,
                finish-done o x law l.seq,
                answered-Good (record l { local_iters = suc l.local_iters }),
                check_progress-Good l.seq,
                refl,
                tt,
              )
