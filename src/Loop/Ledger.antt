-- ===== src/Loop/Ledger.antt =====
-- What a run of agent_loop/loop.py promises to whoever reads the store: an abstract view of the
-- store as a log of messages and a list of boundaries, and what the seams must respect of it.
pub mod Commit
pub mod Batch
pub mod Turn
pub mod Prompt
pub mod Run
pub mod Resume
use park_smart_harness.Base.{
  ℕ, suc, String, ◌≡◌, ◌⊎◌, Option, none, some, List, [], ◌∷◌, ◌++◌, length, last?,
}
use park_smart_harness.Exec.{Exc, Error, Exec}
use park_smart_harness.Exec.Triple.{Post}
use park_smart_harness.Message.{Message, ToolCallReq, PendingAction}
use park_smart_harness.Repair.{repair_messages}
use park_smart_harness.Budget.{Snapshot, snapshot, LoopConfig}
use park_smart_harness.Tools.{
  ToolResult, ToolContext, Host, LoopTool, Schema, Boundary, Conversation, Status,
}
use park_smart_harness.Store.{Resolved, replace_placeholders}
use park_smart_harness.Loop.{
  ModelTurn, Control, Compactor, Decision, Call, Machine, Progress, again, done, LoopResult,
  ResultStatus, Reason, tool_failures,
}
use park_smart_harness.Loop.Prompt.{turn_id}
use park_smart_harness.Loop.Batch.Governed.{IsAllowed}

-- The committed messages and boundaries of the thread, as they are read off the world.
pub record Observer (W : Type 0) : Type 0 where
  pub log : W → List Message
  pub boundaries : W → List Boundary

-- The boundaries are numbered one by one, after the first `n`.
abbrev pub NumberedFrom : ℕ → List Boundary → Type 0
NumberedFrom n [] = Unit {0}
NumberedFrom n (b ∷ bs) = (b.seq ≡ suc n) × (b.turn_id ≡ turn_id (suc n)) × NumberedFrom (suc n) bs

-- There are `n` boundaries, numbered from 1 to `n`.
abbrev pub NumberedTo : ℕ → List Boundary → Type 0
NumberedTo n bs = (length bs ≡ n) × NumberedFrom 0 bs

module _ {W : Type 0} (o : Observer W) where
  abbrev pub Quiet : W → W → Type 0
  Quiet w w' = (o.log w' ≡ o.log w) × (o.boundaries w' ≡ o.boundaries w)

  -- One transaction: the log goes from that of `w` to `ms`, and `b` is the next boundary.
  abbrev pub Wrote : List Message → Boundary → W → W → Type 0
  Wrote ms b w w' = (o.log w' ≡ ms) × (o.boundaries w' ≡ o.boundaries w ++ b ∷ [])

  -- A transaction is done if it returns; if it raises, it is done as a whole or not at all.
  abbrev pub Atomic : List Message → Boundary → W → Exc (Unit {0}) × W → Type 0
  Atomic ms b w = Post (λ u w'. Wrote ms b w w') (λ e w'. Quiet w w' ⊎ Wrote ms b w w')

  -- The store is transactional, and no other seam writes the thread's part of it.
  pub record IsLedger (x : Call W) : Type 0 where
    pub commits :
        (ms : List Message) (b : Boundary) (w : W)
        → Atomic (o.log w ++ ms) b w (x.store.commit x.thread_id ms b w)
    pub resolves :
        (r : Resolved) (b : Boundary) (w : W)
        → Atomic (replace_placeholders r (o.log w)) b w (x.store.resolve_pending x.thread_id r b w)
    pub reads :
        (w : W)
        → Post
            (λ r w'. (r ≡ last? (o.boundaries w)) × Quiet w w')
            (λ e w'. Quiet w w')
            (x.store.latest_boundary x.thread_id w)
    pub asks :
        (prompt : List Message) (schemas : List Schema) (h : Host W)
        → Quiet h.world (x.model_caller x.config prompt schemas h).1.world
    pub assembles :
        (c : Conversation) (h : Host W) → Quiet h.world (x.assemble x.config c h).1.world
    pub executes :
        (call : ToolCallReq) (t : LoopTool W) (ctx : ToolContext) (h : Host W)
        → IsAllowed x ctx call t
        → Quiet h.world (x.execute_one call t ctx h).1.world
    pub freezes :
        (c : Control W) (call : ToolCallReq) (h : Host W)
        → x.control ≡ some c
        → Quiet h.world (c.freeze call x.thread_id h).1.world
    pub decides :
        (c : Control W) (p : PendingAction) (d : Decision) (h : Host W)
        → x.control ≡ some c
        → Quiet h.world (c.resolve p d h).1.world
    pub compacts :
        (c : Compactor W) (conv : Conversation) (seq : ℕ) (h : Host W)
        → x.compaction ≡ some c
        → Quiet h.world (c.compact conv seq x.config h).1.world

  -- The boundaries are numbered up to `n`, and the conversation and the log are the same once both
  -- are repaired: the loop repairs the conversation, and never the log.
  pub record IsSynced (n : ℕ) (s : Machine W) : Type 0 where
    pub numbered : NumberedTo n (o.boundaries s.host.world)
    pub synced : (repair_messages s.messages).0 ≡ (repair_messages (o.log s.host.world)).0

  -- The last boundary is one with `P`.
  abbrev pub LastIs : (Boundary → Type 0) → Machine W → Type 0
  LastIs P s = (b : Boundary) × (last? (o.boundaries s.host.world) ≡ some b) × P b

  -- The boundary has the status, waits for no confirmation, and holds the budget as it stands.
  abbrev pub Closes : Status → Machine W → Type 0
  Closes st s =
      LastIs
        (λ b.
          (b.status ≡ st)
          × (b.pending_batch ≡ none)
          × (b.budget_snapshot ≡ some (snapshot s.host.budget)))
        s

  -- What a result says of the last boundary: a completed run has committed its answer as
  -- completed, a suspended one has committed the batch that it hands out, and the breaker on tool
  -- failures has committed the failure.
  abbrev pub Agrees :
      ResultStatus → Option Reason → Option (List PendingAction) → Machine W → Type 0
  Agrees ResultStatus.completed reason pending s = Closes Status.completed s
  Agrees ResultStatus.awaiting_confirmation reason pending s =
      LastIs (λ b. (b.status ≡ Status.awaiting_confirmation) × (b.pending_batch ≡ pending)) s
  Agrees ResultStatus.failed (some tool_failures) pending s = Closes Status.failed s
  Agrees _ reason pending s = Unit {0}

  abbrev pub Ends : LoopResult → Machine W → Type 0
  Ends r s = Agrees r.status r.reason r.pending s

  abbrev pub IsNumbered : Machine W → Type 0
  IsNumbered s = (n : ℕ) × NumberedTo n (o.boundaries s.host.world)
