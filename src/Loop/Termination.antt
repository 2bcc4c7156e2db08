-- ===== src/Loop/Termination.antt =====
-- `run_loop` ends: an iteration that goes on has taken one of the loop's own steps.
use park_smart_harness.Base.{
  ℕ, zero, suc, ◌+◌, ◌≤◌, ◌<◌, ◌≡◌, ◌≢◌, refl, Bool, true, false, Option, none, some, List, arith,
  leb→lt,
}
use park_smart_harness.Exec.{Exec, Exc, ok, raised, persist_error, exception, ◌>>=◌, pure}
use park_smart_harness.Exec.Triple.{
  Triple, Triple-pure, Triple-bind, Triple-if, Triple-weaken, Post,
}
use park_smart_harness.Message.{Message, ToolCallReq, PendingAction}
use park_smart_harness.Tools.{Status, Boundary}
use park_smart_harness.Loop.{ModelTurn, Call, Machine, Locals, Progress, again, done, LoopResult}
use park_smart_harness.Loop.Prompt.{Entry, stop, go, Assembly, thrashed, ready, check_entry}
use park_smart_harness.Loop.Turn.{
  after_batch, roll_back, finish, keep_going, conclude, act, check_stall, check_progress, answered,
  after_model,
}
use park_smart_harness.Loop.Run.{
  on_turn, on_progress, ask_model, on_assembly, on_entry, on_last, persist_exit, iterate, main_loop,
  resume, run_body, run_loop, Resolution, fresh_locals,
}

-- If the loop goes on, it has taken `n` steps.
abbrev Steps : ℕ → Progress → Type 0
Steps n (again l) = l.local_iters ≡ n
Steps n (done r) = Unit {0}

module _ {S A : Type 0} where
  abbrev pub Yields : (A → Type 0) → Exec S A → Type 0
  Yields P m = Triple (λ s. Unit {0}) m (λ a s. P a) (λ e s. Unit {0})

module _ {S A : Type 0} where
  no_claim : (r : Exc A × S) → Post (λ a s. Unit {0}) (λ e s. Unit {0}) r
  no_claim (ok a, s) = tt
  no_claim (raised e, s) = tt

  pub any_end : (m : Exec S A) → Yields (λ a. Unit {0}) m
  any_end m = record { at = λ s h. no_claim (m s) }

  pub yields : {P : A → Type 0} (a : A) → P a → Yields {S = S} P (pure a)
  yields a p = Triple-pure a (λ s h. p)

module _ {S A B : Type 0} where
  -- Only the last action of a sequence decides what it yields.
  pub and_then :
      {P : B → Type 0} (m : Exec S A) (f : A → Exec S B)
      → ((a : A) → Yields P (f a))
      → Yields P (m >>= f)
  and_then m f k = Triple-bind {R = λ a s. Unit {0}} (any_end m) k

module _ {W : Type 0} (x : Call W) where
  roll_back-Steps : (n base : ℕ) (p : Progress) → Steps n p → Yields (Steps n) (roll_back x base p)
  unfolding roll_back
  roll_back-Steps n base p h = and_then _ _ (λ a. yields p h)

  finish-Steps :
      (n : ℕ) (st : Status) (seq : ℕ) (pending : Option (List PendingAction))
      (buffer : List Message) (p : Progress)
      → Steps n p
      → Yields (Steps n) (finish x st seq pending buffer p)
  unfolding finish
  finish-Steps n st seq pending buffer p h = and_then _ _ (λ a. yields p h)

  finish-ends :
      (st : Status) (seq : ℕ) (pending : Option (List PendingAction)) (buffer : List Message)
      {P : Progress → Type 0} (p : Progress)
      → P p
      → Yields P (finish x st seq pending buffer p)
  unfolding finish
  finish-ends st seq pending buffer p h = and_then _ _ (λ a. yields p h)

  keep_going-Steps :
      (l : Locals) (base : ℕ) (buffer results : List Message)
      → Yields (Steps l.local_iters) (keep_going x l base buffer results)
  unfolding keep_going
  keep_going-Steps l base buffer results =
      search (Triple-if, and_then, roll_back-Steps, finish-Steps, refl, tt)

  conclude-Steps :
      (l : Locals) (base : ℕ) (buffer results : List Message) (pending : List PendingAction)
      → Yields (Steps l.local_iters) (conclude x l base buffer results pending)
  unfolding conclude
  conclude-Steps l base buffer results pending =
      search (Triple-if, and_then, roll_back-Steps, finish-Steps, tt, keep_going-Steps) depth 8

  after_batch-Steps :
      (l : Locals) (base : ℕ) (said : Message) (pending : List PendingAction)
      (o : Option (List Message))
      → Yields (Steps l.local_iters) (after_batch x l base said pending o)
  unfolding after_batch
  after_batch-Steps l base said pending none = record { at = λ s h. tt }
  after_batch-Steps l base said pending (some ms) =
      and_then _ _ λ _. conclude-Steps l base _ ms pending

  act-Steps :
      (l : Locals) (base : ℕ) (said : Message) (calls : List ToolCallReq)
      → Yields (Steps l.local_iters) (act x l base said calls)
  unfolding act
  act-Steps l base said calls = record { at = λ s h. (after_batch-Steps _ base said _ _).at _ tt }

  check_stall-Steps :
      (l : Locals) (base : ℕ) (said : Message) (calls : List ToolCallReq)
      → Yields (Steps l.local_iters) (check_stall x l base said calls)
  unfolding check_stall
  check_stall-Steps l base said calls =
      search (Triple-if, and_then, roll_back-Steps, finish-Steps, refl, tt, act-Steps)

  check_progress-Steps :
      (l : Locals) (base : ℕ) (said : Message) (calls : List ToolCallReq)
      → Yields (Steps l.local_iters) (check_progress x l base said calls)
  unfolding check_progress
  check_progress-Steps l base said calls =
      search (Triple-if, and_then, roll_back-Steps, finish-Steps, refl, tt, check_stall-Steps)

  answered-Steps :
      (l : Locals) (base : ℕ) (t : ModelTurn) → Yields (Steps l.local_iters) (answered x l base t)
  unfolding answered
  answered-Steps l base t = search (Triple-if, and_then, roll_back-Steps, finish-Steps, refl, tt)

  after_model-Steps :
      (grace : Bool) (l : Locals) (base : ℕ) (t : ModelTurn)
      → Yields (Steps (suc l.local_iters)) (after_model x grace l base t)
  unfolding after_model
  after_model-Steps grace l base t =
      search (Triple-if, and_then, finish-Steps, answered-Steps, check_progress-Steps, tt) depth 8

  -- Past the entry the loop has steps left, or this is the grace turn, after which it stops.
  abbrev Admits : ℕ → Entry → Type 0
  Admits n (stop r) = Unit {0}
  Admits n (go true) = Unit {0}
  Admits n (go false) = n < x.config.budget.max_iterations

  check_entry-Admits : (n : ℕ) → Yields (Admits n) (check_entry x n)
  unfolding check_entry
  check_entry-Admits n = search (Triple-if, and_then, yields, tt, leb→lt) depth 9

  -- An iteration that goes on had a step left, and takes one; the grace turn does not go on.
  abbrev Advances : Bool → ℕ → Progress → Type 0
  Advances true n (again l) = ⊥
  Advances false n (again l) = l.local_iters ≡ suc n
  Advances g n (done r) = Unit {0}

  Steps-Advances : (n : ℕ) (p : Progress) → Steps (suc n) p → Advances false n p
  Steps-Advances n (again l) h = h
  Steps-Advances n (done r) h = tt

  after_model-Advances :
      (g : Bool) (l : Locals) (base : ℕ) (t : ModelTurn)
      → Yields (Advances g l.local_iters) (after_model x g l base t)
  unfolding after_model
  after_model-Advances true l base t = and_then _ _ λ _. and_then _ _ λ _. finish-ends _ _ _ _ _ tt
  after_model-Advances false l base t =
      Triple-weaken (after_model-Steps false l base t) (λ s h. tt)
        (λ p s h. Steps-Advances l.local_iters p h) (λ e s h. tt)

  on_turn-Advances :
      (g : Bool) (l : Locals) (base : ℕ) (turn : Option ModelTurn)
      → Yields (Advances g l.local_iters) (on_turn x g l base turn)
  unfolding on_turn
  on_turn-Advances true l base none = yields _ tt
  on_turn-Advances false l base none = yields _ tt
  on_turn-Advances g l base (some t) = after_model-Advances g l base t

  ask_model-Advances :
      (g : Bool) (l : Locals) (prompt : List Message)
      → Yields (Advances g l.local_iters) (ask_model x g l prompt)
  unfolding ask_model
  ask_model-Advances g l prompt =
      and_then _ _ λ base. and_then _ _ λ turn. on_turn-Advances g l base turn

  on_assembly-Advances :
      (g : Bool) (l : Locals) (a : Assembly)
      → Yields (Advances g l.local_iters) (on_assembly x g l a)
  unfolding on_assembly
  on_assembly-Advances true l thrashed = yields _ tt
  on_assembly-Advances false l thrashed = yields _ tt
  on_assembly-Advances g l (ready seq prompt) = ask_model-Advances g _ prompt

  abbrev Proceeds : ℕ → Progress → Type 0
  Proceeds n (again l) = (l.local_iters ≡ suc n) × (n < x.config.budget.max_iterations)
  Proceeds n (done r) = Unit {0}

  Advances-Proceeds :
      (g : Bool) (n : ℕ) (p : Progress) → Admits n (go g) → Advances g n p → Proceeds n p
  Advances-Proceeds true n (again l) a h = absurd h
  Advances-Proceeds false n (again l) a h = (h, a)
  Advances-Proceeds g n (done r) a h = tt

  on_entry-Proceeds :
      (l : Locals) (e : Entry)
      → Admits l.local_iters e
      → Yields (Proceeds l.local_iters) (on_entry x l e)
  unfolding on_entry
  on_entry-Proceeds l (stop r) a = yields _ tt
  on_entry-Proceeds l (go g) a = and_then _ _ λ assembly.
      Triple-weaken (on_assembly-Advances g l assembly) (λ s h. tt)
        (λ p s h. Advances-Proceeds g l.local_iters p a h) (λ e s h. tt)

  iterate-Proceeds : (l : Locals) → Yields (Proceeds l.local_iters) (iterate x l)
  unfolding iterate
  iterate-Proceeds l = and_then _ _ λ _.
      Triple-bind (check_entry-Admits l.local_iters)
        (λ e. record { at = λ s a. (on_entry-Proceeds l e a).at s tt })

  abbrev Returned : Option LoopResult → Type 0
  Returned none = ⊥
  Returned (some r) = Unit {0}

  on_progress-Returned :
      (n : ℕ) (rest : Locals → Exec (Machine W) (Option LoopResult)) (p : Progress)
      → ((l : Locals)
          → l.local_iters ≡ suc n
          → n < x.config.budget.max_iterations
          → Yields Returned (rest l))
      → Triple (λ s. Proceeds n p) (on_progress rest p) (λ o s. Returned o) (λ e s. Unit {0})
  on_progress-Returned n rest (again l) k = record { at = λ s h. (k l h.0 h.1).at s tt }
  on_progress-Returned n rest (done r) k = record { at = λ s h. tt }

  main_loop-Returned :
      (fuel : ℕ) (l : Locals)
      → l.local_iters ≤ x.config.budget.max_iterations
      → x.config.budget.max_iterations < l.local_iters + fuel
      → Yields Returned (main_loop x fuel l)
  unfolding main_loop
  main_loop-Returned zero l low high = absurd (omega arith)
  main_loop-Returned (suc fuel) l low high = Triple-bind (iterate-Proceeds l) λ p.
      on_progress-Returned l.local_iters (main_loop x fuel) p
        λ l' e more. main_loop-Returned fuel l' (omega arith) (omega arith)

  resume-Returned :
      (fuel : ℕ) (r : Option Resolution) (c : Bool) (b : Boundary)
      → x.config.budget.max_iterations < fuel
      → Yields Returned (resume x fuel r c b)
  unfolding resume
  resume-Returned fuel none false b h = yields _ tt
  resume-Returned fuel (some r) false b h =
      and_then _ _ λ _. main_loop-Returned fuel _ (omega arith) (omega arith)
  resume-Returned fuel r true b h =
      and_then _ _ λ _. main_loop-Returned fuel _ (omega arith) (omega arith)

  on_last-Returned :
      (fuel : ℕ) (r : Option Resolution) (c : Bool) (last : Option Boundary)
      → x.config.budget.max_iterations < fuel
      → Yields Returned (on_last x fuel r c last)
  unfolding on_last
  on_last-Returned fuel r c none h = main_loop-Returned fuel _ (omega arith) (omega arith)
  on_last-Returned fuel r c (some b) h = and_then _ _ λ _. search (
    Triple-if,
    resume-Returned fuel r c b h,
    main_loop-Returned fuel (fresh_locals b.seq) (omega arith) (omega arith),
  )

  run_body-Returned :
      (fuel : ℕ) (r : Option Resolution) (c : Bool)
      → x.config.budget.max_iterations < fuel
      → Yields Returned (run_body x fuel r c)
  unfolding run_body
  run_body-Returned fuel r c h = and_then _ _ λ last. on_last-Returned fuel r c last h

  persist_exit-Returned :
      (r : Exc (Option LoopResult) × Machine W)
      → Post (λ o s. Returned o) (λ e s. Unit {0}) r
      → (persist_exit x r).0 ≢ ok none
  unfolding persist_exit
  persist_exit-Returned (ok none, s) h = absurd h
  persist_exit-Returned (ok (some r), s) h = λ e. cc
  persist_exit-Returned (raised persist_error, s) h = λ e. cc
  persist_exit-Returned (raised (exception t), s) h = λ e. cc

  -- With more fuel than `max_iterations` a call of `run_loop` never runs out of it, whatever the
  -- tools do to the shared budget: it returns a result or raises.
  pub run_loop_ends :
      (fuel : ℕ) (resolution : Option Resolution) (cancel : Bool) (s : Machine W)
      → x.config.budget.max_iterations < fuel
      → (run_loop x fuel resolution cancel s).0 ≢ ok none
  unfolding run_loop
  run_loop_ends fuel resolution cancel s h =
      persist_exit-Returned _ ((run_body-Returned fuel resolution cancel h).at s tt)
