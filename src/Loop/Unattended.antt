-- ===== src/Loop/Unattended.antt =====
-- `run_loop` without a control: nothing is ever suspended.
use park_smart_harness.Base.{
  ℕ, zero, suc, ◌≡◌, ◌≢◌, refl, subst, Bool, Option, none, some, List, [], leb,
}
use park_smart_harness.Exec.{Exec, Exc, ok, raised, persist_error, exception, ◌>>=◌, catch_as}
use park_smart_harness.Exec.Triple.{Triple, Triple-bind, Triple-if, Post}
use park_smart_harness.Message.{Message, ToolCallReq, PendingAction}
use park_smart_harness.Tools.{Boundary, Status}
use park_smart_harness.Loop.{
  ModelTurn, Call, Machine, Locals, Progress, again, done, LoopResult, ResultStatus, failure,
  persist_failed, safely, on_world,
}
use park_smart_harness.Loop.Prompt.{Entry, stop, go, Assembly, thrashed, ready, check_entry}
use park_smart_harness.Loop.Turn.{
  after_batch, roll_back, finish, keep_going, conclude, act, check_stall, check_progress, answered,
  after_model, context,
}
use park_smart_harness.Loop.Run.{
  on_turn, on_progress, ask_model, on_assembly, on_entry, on_last, persist_exit, iterate, main_loop,
  run_body, run_loop, Resolution,
}
use park_smart_harness.Loop.Termination.{Yields, yields, and_then}
use park_smart_harness.Loop.Batch.Unattended.{run_batch-pending}

-- The result is no suspension.
abbrev SettledStatus : ResultStatus → Type 0
SettledStatus ResultStatus.awaiting_confirmation = ⊥
SettledStatus _ = Unit {0}

abbrev IsSettled : LoopResult → Type 0
IsSettled r = SettledStatus r.status

abbrev SettledProgress : Progress → Type 0
SettledProgress (again l) = Unit {0}
SettledProgress (done r) = IsSettled r

abbrev SettledEntry : Entry → Type 0
SettledEntry (stop r) = IsSettled r
SettledEntry (go g) = Unit {0}

abbrev SettledEnd : Option LoopResult → Type 0
SettledEnd none = Unit {0}
SettledEnd (some r) = IsSettled r

module _ {W : Type 0} (x : Call W) where
  roll_back-IsSettled :
      (base : ℕ) (p : Progress) → SettledProgress p → Yields SettledProgress (roll_back x base p)
  unfolding roll_back
  roll_back-IsSettled base p h = and_then _ _ λ a. yields p h

  finish-IsSettled :
      (st : Status) (seq : ℕ) (pending : Option (List PendingAction)) (buffer : List Message)
      (p : Progress)
      → SettledProgress p
      → Yields SettledProgress (finish x st seq pending buffer p)
  unfolding finish
  finish-IsSettled st seq pending buffer p h = and_then _ _ λ a. yields p h

  keep_going-IsSettled :
      (l : Locals) (base : ℕ) (buffer results : List Message)
      → Yields SettledProgress (keep_going x l base buffer results)
  unfolding keep_going
  keep_going-IsSettled l base buffer results =
      search (Triple-if, and_then, roll_back-IsSettled, finish-IsSettled, tt) depth 9

  conclude-IsSettled :
      (l : Locals) (base : ℕ) (buffer results : List Message)
      → Yields SettledProgress (conclude x l base buffer results [])
  unfolding conclude
  conclude-IsSettled l base buffer results = and_then _ _ λ stopped.
      Triple-if stopped _ _ (λ e. roll_back-IsSettled base _ tt)
        λ e.
          Triple-if (leb x.config.budget.max_tool_failures l.failures) _ _
            (λ e. finish-IsSettled _ _ _ _ _ tt) λ e. keep_going-IsSettled l base buffer results

  after_batch-IsSettled :
      (l : Locals) (base : ℕ) (said : Message) (o : Option (List Message))
      → Yields SettledProgress (after_batch x l base said [] o)
  unfolding after_batch
  after_batch-IsSettled l base said none = record { at = λ s h. tt }
  after_batch-IsSettled l base said (some ms) = and_then _ _ λ a. conclude-IsSettled l base _ ms

  module _ (unattended : x.control ≡ none) where
    act-IsSettled :
        (l : Locals) (base : ℕ) (said : Message) (calls : List ToolCallReq)
        → Yields SettledProgress (act x l base said calls)
    unfolding act
    act-IsSettled l base said calls = record {
      at = λ s h.
          rw (run_batch-pending x (context x) unattended l.failures calls s.host)
            ((after_batch-IsSettled _ base said _).at _ tt);
    }

    check_stall-IsSettled :
        (l : Locals) (base : ℕ) (said : Message) (calls : List ToolCallReq)
        → Yields SettledProgress (check_stall x l base said calls)
    unfolding check_stall
    check_stall-IsSettled l base said calls =
        search (Triple-if, and_then, roll_back-IsSettled, finish-IsSettled, tt, act-IsSettled) depth
          9

    check_progress-IsSettled :
        (l : Locals) (base : ℕ) (said : Message) (calls : List ToolCallReq)
        → Yields SettledProgress (check_progress x l base said calls)
    unfolding check_progress
    check_progress-IsSettled l base said calls =
        search
          (Triple-if, and_then, roll_back-IsSettled, finish-IsSettled, tt, check_stall-IsSettled)
          depth 9

    answered-IsSettled :
        (l : Locals) (base : ℕ) (t : ModelTurn) → Yields SettledProgress (answered x l base t)
    unfolding answered
    answered-IsSettled l base t =
        search (Triple-if, and_then, roll_back-IsSettled, finish-IsSettled, tt) depth 9

    after_model-IsSettled :
        (grace : Bool) (l : Locals) (base : ℕ) (t : ModelTurn)
        → Yields SettledProgress (after_model x grace l base t)
    unfolding after_model
    after_model-IsSettled grace l base t =
        search
          (
            Triple-if, and_then, roll_back-IsSettled, finish-IsSettled, tt, answered-IsSettled,
            check_progress-IsSettled,
          )
          depth 9

    check_entry-IsSettled : (n : ℕ) → Yields SettledEntry (check_entry x n)
    unfolding check_entry
    check_entry-IsSettled n = search (Triple-if, and_then, yields, tt) depth 9

    on_turn-IsSettled :
        (g : Bool) (l : Locals) (base : ℕ) (turn : Option ModelTurn)
        → Yields SettledProgress (on_turn x g l base turn)
    unfolding on_turn
    on_turn-IsSettled g l base none = yields _ tt
    on_turn-IsSettled g l base (some t) = after_model-IsSettled g l base t

    ask_model-IsSettled :
        (g : Bool) (l : Locals) (prompt : List Message)
        → Yields SettledProgress (ask_model x g l prompt)
    unfolding ask_model
    ask_model-IsSettled g l prompt =
        and_then _ _ λ base. and_then _ _ λ turn. on_turn-IsSettled g l base turn

    on_assembly-IsSettled :
        (g : Bool) (l : Locals) (a : Assembly) → Yields SettledProgress (on_assembly x g l a)
    unfolding on_assembly
    on_assembly-IsSettled g l thrashed = yields _ tt
    on_assembly-IsSettled g l (ready seq prompt) = ask_model-IsSettled g _ prompt

    on_entry-IsSettled :
        (l : Locals) (e : Entry) → SettledEntry e → Yields SettledProgress (on_entry x l e)
    unfolding on_entry
    on_entry-IsSettled l (stop r) h = yields _ h
    on_entry-IsSettled l (go g) h = and_then _ _ λ a. on_assembly-IsSettled g l a

    iterate-IsSettled : (l : Locals) → Yields SettledProgress (iterate x l)
    unfolding iterate
    iterate-IsSettled l = and_then _ _ λ _.
        Triple-bind (check_entry-IsSettled l.local_iters)
          (λ e. record { at = λ s a. (on_entry-IsSettled l e a).at s tt })

    on_progress-IsSettled :
        (rest : Locals → Exec (Machine W) (Option LoopResult)) (p : Progress)
        → ((l : Locals) → Yields SettledEnd (rest l))
        → Triple
            (λ s. SettledProgress p)
            (on_progress rest p)
            (λ o s. SettledEnd o)
            (λ e s. Unit {0})
    on_progress-IsSettled rest (again l) k = record { at = λ s h. (k l).at s tt }
    on_progress-IsSettled rest (done r) k = record { at = λ s h. h }

    main_loop-IsSettled : (fuel : ℕ) (l : Locals) → Yields SettledEnd (main_loop x fuel l)
    unfolding main_loop
    main_loop-IsSettled zero l = yields _ tt
    main_loop-IsSettled (suc fuel) l =
        Triple-bind (iterate-IsSettled l)
          λ p. on_progress-IsSettled (main_loop x fuel) p (main_loop-IsSettled fuel)

    on_last-IsSettled :
        (fuel : ℕ) (r : Option Resolution) (c : Bool) (last : Option Boundary)
        → last ≡ none
        → Yields SettledEnd (on_last x fuel r c last)
    unfolding on_last
    on_last-IsSettled fuel r c none h = main_loop-IsSettled fuel _
    on_last-IsSettled fuel r c (some b) h = cc

    persist_exit-IsSettled :
        (e : Exc (Option LoopResult) × Machine W) (r : LoopResult)
        → Post (λ o s. SettledEnd o) (λ e s. Unit {0}) e
        → (persist_exit x e).0 ≡ ok (some r)
        → IsSettled r
    unfolding persist_exit
    persist_exit-IsSettled (ok none, s) r h e = absurd (let no : ⊥ = cc in no)
    persist_exit-IsSettled (ok (some q), s) r h e = let same : q ≡ r = cc in subst IsSettled same h
    persist_exit-IsSettled (raised persist_error, s) r h e =
        let same : failure "(持久化失败)" persist_failed ≡ r = cc in subst IsSettled same tt
    persist_exit-IsSettled (raised (exception t), s) r h e = absurd (let no : ⊥ = cc in no)

    -- Without a control, and on a thread that has no boundary yet, a call of `run_loop` never
    -- returns as suspended, whatever the gate says of the calls.
    pub unattended_never_waits :
        (fuel : ℕ) (resolution : Option Resolution) (cancel : Bool) (s : Machine W) (r : LoopResult)
        → (x.store.latest_boundary x.thread_id s.host.world).0 ≡ ok none
        → (run_loop x fuel resolution cancel s).0 ≡ ok (some r)
        → r.status ≢ ResultStatus.awaiting_confirmation
    unfolding run_loop run_body ◌>>=◌ safely on_world catch_as
    unattended_never_waits fuel resolution cancel s r l e w =
        let st = (safely (x.store.latest_boundary x.thread_id) s).1 in
        let ended = (on_last-IsSettled fuel resolution cancel none refl).at st tt in
        let settled =
          persist_exit-IsSettled (on_last x fuel resolution cancel none st) r ended (rw l at e) in
        subst SettledStatus w settled
