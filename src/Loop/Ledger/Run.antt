-- ===== src/Loop/Ledger/Run.antt =====
-- The main loop keeps the numbering, and conversation and log in step.
use park_smart_harness.Base.{ℕ, zero, suc, ap, ◌∙◌, Bool, Option, none, some, List, []}
use mathlib.Core.List.{append-nil}
use park_smart_harness.Exec.{Exec}
use park_smart_harness.Exec.Triple.{Triple, Triple-bind}
use park_smart_harness.Message.{Message}
use park_smart_harness.Repair.{repair_messages}
use park_smart_harness.Loop.{ModelTurn, Call, Machine, Locals, Progress, again, done, LoopResult}
use park_smart_harness.Loop.Prompt.{Entry, stop, go, Assembly, thrashed, ready, nudged}
use park_smart_harness.Loop.Run.{
  on_turn, ask_model, on_assembly, on_entry, iterate, on_progress, main_loop,
}
use park_smart_harness.Loop.Ledger.{Observer, IsLedger, IsSynced, Ends}
use park_smart_harness.Loop.Ledger.Commit.{IsBusy, IsSound, Good}
use park_smart_harness.Loop.Ledger.Turn.{after_model-Good}
use park_smart_harness.Loop.Ledger.Prompt.{
  fresh, EntryIn, AssemblyIn, repaired-IsSynced, check_entry-EntryIn, assemble_prompt-AssemblyIn,
  call_model_with_retry-IsBusy,
}

module _ {W : Type 0} (o : Observer W) where
  -- What a returned result guarantees.
  abbrev pub Returns : Option LoopResult → Machine W → Type 0
  Returns none s = Unit {0}
  Returns (some r) s = (n : ℕ) × IsSynced o n s × Ends o r s

  module _ (x : Call W) (law : IsLedger o x) where
    on_turn-Good :
        (g : Bool) (l : Locals) (base : ℕ) (t : Option ModelTurn)
        → Triple (IsBusy o l.seq base []) (on_turn x g l base t) (Good o) (IsSound o)
    unfolding on_turn
    on_turn-Good g l base none = record { at = λ s b. (l.seq, idle s b, tt) }
      where
        idle : (s : Machine W) → IsBusy o l.seq base [] s → IsSynced o l.seq s
        idle s b = record {
          numbered = b.idle.numbered;
          synced = ap (λ l. (repair_messages l).0) (b.messages ∙ append-nil b.old) ∙ b.idle.synced;
        }
    on_turn-Good g l base (some t) = after_model-Good o x law g l base t

    ask_model-Good :
        (g : Bool) (l : Locals) (prompt : List Message)
        → Triple (IsSynced o l.seq) (ask_model x g l prompt) (Good o) (IsSound o)
    unfolding ask_model
    ask_model-Good g l prompt =
        Triple-bind {R = λ base. IsBusy o l.seq base []} (record { at = λ s i. fresh o l.seq s i })
          λ base.
            Triple-bind
              (call_model_with_retry-IsBusy o x law 2 l.seq base [] (nudged l.pending_nudge prompt))
              λ t. on_turn-Good g l base t

    on_assembly-Good :
        (g : Bool) (l : Locals) (a : Assembly)
        → Triple (AssemblyIn o a) (on_assembly x g l a) (Good o) (IsSound o)
    unfolding on_assembly
    on_assembly-Good g l thrashed = record { at = λ s i. (i.0, i.1, tt) }
    on_assembly-Good g l (ready n prompt) = ask_model-Good g (record l { seq = n }) prompt

    on_entry-Good :
        (l : Locals) (e : Entry) → Triple (EntryIn o l.seq e) (on_entry x l e) (Good o) (IsSound o)
    unfolding on_entry
    on_entry-Good l (stop r) = record { at = λ s i. (l.seq, i.0, i.1) }
    on_entry-Good l (go g) =
        Triple-bind (assemble_prompt-AssemblyIn o x law l.seq) λ a. on_assembly-Good g l a

    iterate-Good : (l : Locals) → Triple (IsSynced o l.seq) (iterate x l) (Good o) (IsSound o)
    unfolding iterate
    iterate-Good l =
        Triple-bind (repaired-IsSynced o x law l.seq)
          λ u. Triple-bind (check_entry-EntryIn o x law l.seq l.local_iters) λ e. on_entry-Good l e

    on_progress-Returns :
        (rest : Locals → Exec (Machine W) (Option LoopResult)) (p : Progress)
        → ((l : Locals) → Triple (IsSynced o l.seq) (rest l) Returns (IsSound o))
        → Triple (Good o p) (on_progress rest p) Returns (IsSound o)
    on_progress-Returns rest (again l) k = k l
    on_progress-Returns rest (done r) k = record { at = λ s i. i }

    pub main_loop-Returns :
        (fuel : ℕ) (l : Locals) → Triple (IsSynced o l.seq) (main_loop x fuel l) Returns (IsSound o)
    unfolding main_loop
    main_loop-Returns zero l = record { at = λ s i. tt }
    main_loop-Returns (suc fuel) l =
        Triple-bind (iterate-Good l)
          λ p. on_progress-Returns (main_loop x fuel) p (main_loop-Returns fuel)
