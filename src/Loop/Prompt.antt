-- ===== src/Loop/Prompt.antt =====
-- agent_loop/loop.py, the first half of an iteration: the repair, the exits on interrupt and
-- budget, the assembly with compaction, and the model call.
use park_smart_harness.Base.{
  ℕ, zero, suc, String, ◌<>◌, Bool, true, false, Option, none, some, List, [], ◌∷◌, ◌++◌, leb, show,
  nonempty, if◌then◌else◌,
}
use park_smart_harness.Exec.{ok, raised, Exec, pure, gets, ◌>>=◌, ◌>>◌}
use park_smart_harness.Message.{Message, PendingAction, plain, user}
use park_smart_harness.Repair.{repair_messages}
use park_smart_harness.Budget.{consume, exhausted, grace_available, use_grace, snapshot}
use park_smart_harness.Tools.{Status, iteration, Conversation, schemas}
use park_smart_harness.Loop.{
  ModelTurn, Compactor, Call, Machine, LoopResult, result, budget_exhausted, on_host, safely,
  modify, Reason, ResultStatus,
}

abbrev pub turn_id : ℕ → String
turn_id seq = "turn-" <> show seq

pub data Entry : Type 0 where
  stop : LoopResult → Entry
  go : Bool → Entry

-- The prompt of this turn, with the boundary index after the compactions.
pub data Assembly : Type 0 where
  thrashed : Assembly
  ready : ℕ → List Message → Assembly

abbrev pub compact_thrash_limit : ℕ
compact_thrash_limit = 2

module _ {W : Type 0} where
  abbrev pub set_messages : List Message → Machine W → Machine W
  set_messages ms s = record s { messages = ms }

  abbrev pub extend : List Message → Machine W → Machine W
  extend ms s = record s { messages = s.messages ++ ms }

  abbrev pub spend : ℕ → ℕ → Machine W → Machine W
  spend i t s = record s { host = record s.host { budget = consume i t s.host.budget } }

-- The nudge of the turn before, in this prompt as a value. The source merges it into the last
-- user message of the prompt, whose object the conversation may share; no theorem on the loop
-- says what a user's message holds after that.
unfoldable pub nudged : Option String → List Message → List Message
nudged none prompt = prompt
nudged (some n) prompt =
    if nonempty n then (repair_messages (prompt ++ plain user n ∷ [])).0 else prompt

module _ {W : Type 0} (x : Call W) where
  -- The repaired conversation as a value. The source writes merged contents to the message objects,
  -- which a store in memory shares.
  unfoldable pub repaired : Exec (Machine W) (Unit {0})
  repaired = modify (λ s. set_messages (repair_messages s.messages).0 s)

  -- The interrupt check, the budget with its one grace turn, and the loop's own limit of steps.
  unfoldable pub check_entry : ℕ → Exec (Machine W) Entry
  check_entry local_iters = do
    h ← gets (λ s. s.host)
    if x.interrupted h.world
        then pure (
            stop (record (result "(中断)" ResultStatus.interrupted) {
              reason = some Reason.interrupted;
            }))
        else if exhausted h.budget
        then (if grace_available h.budget
            then (do
              modify (λ s. record s { host = record h { budget = use_grace h.budget } })
              pure (go true))
            else pure (stop (result "(预算耗尽,已尽力收尾)" budget_exhausted)))
        else if leb x.config.budget.max_iterations local_iters
        then pure (stop (result "(本轮步数用尽,已尽力收尾)" budget_exhausted))
        else pure (go false)

  unfoldable pub conversation : Machine W → Conversation
  conversation s = record {
    thread_id = x.thread_id;
    messages = s.messages;
    plan = s.host.plan;
    principal = x.principal;
  }

  unfoldable pub assembled : Exec (Machine W) (List Message)
  assembled = do c ← gets conversation; on_host (x.assemble x.config c)

  -- A boundary with the budget as it stands, committed with its messages.
  unfoldable pub commit_now :
      Status → ℕ → Option (List PendingAction) → List Message → Exec (Machine W) (Unit {0})
  commit_now status seq pending buffer = do
    b ← gets (λ s. s.host.budget)
    safely (
        x.store.commit x.thread_id buffer (record {
          status = status;
          turn_id = turn_id seq;
          seq = seq;
          pending_batch = pending;
          budget_snapshot = some (snapshot b);
        }))

  -- One compaction: its messages are appended, paid for, and committed with a boundary.
  unfoldable pub absorb_compaction : ℕ → List Message → Exec (Machine W) (Unit {0})
  absorb_compaction seq pair = do
    modify (extend pair)
    modify (spend 1 0)
    commit_now iteration seq none pair

  -- The compaction loop; the first argument is how often it may still compact.
  unfoldable pub compact_loop : Compactor W → ℕ → ℕ → List Message → Exec (Machine W) Assembly
  compact_loop c zero seq prompt =
      if c.should_compact prompt then pure thrashed else pure (ready seq prompt)
  compact_loop c (suc left) seq prompt =
      if c.should_compact prompt
      then (do
        conv ← gets conversation
        pair ← on_host (c.compact conv seq x.config)
        elim pair [
          | none ↦ pure (ready seq prompt)
          | some ms ↦ do
            absorb_compaction (suc seq) ms
            prompt' ← assembled
            compact_loop c left (suc seq) prompt'
        ])
      else pure (ready seq prompt)

  unfoldable pub assemble_prompt : ℕ → Exec (Machine W) Assembly
  assemble_prompt seq = do
    prompt ← assembled
    elim x.compaction [
      | none ↦ pure (ready seq prompt)
      | some c ↦ compact_loop c (suc compact_thrash_limit) seq prompt
    ]

  -- The attempts that are left after this one; the pause between two is not modelled.
  unfoldable pub call_model_with_retry : ℕ → List Message → Exec (Machine W) (Option ModelTurn)
  call_model_with_retry zero prompt s =
      let (r, s') =
        on_host (x.model_caller x.config prompt (schemas x.registry x.config.toolset)) s in
      elim r [ ok t ↦ (ok (some t), s') | raised e ↦ (ok none, s') ]
  call_model_with_retry (suc left) prompt s =
      let (r, s') =
        on_host (x.model_caller x.config prompt (schemas x.registry x.config.toolset)) s in
      elim r [ ok t ↦ (ok (some t), s') | raised e ↦ call_model_with_retry left prompt s' ]
