-- ===== src/Proposal.antt =====
-- agent_tools/proposal.py: a control proposal, and the store of the proposals that are open.
pub mod Backend
pub mod Ledger
pub mod Capability
pub mod Freeze
pub mod Interleaved
pub mod Once
pub mod Guards
use park_smart_harness.Base.{
  String, ◌==◌, Bool, Option, none, some, List, [], ◌∷◌, nonempty, if◌then◌else◌,
}
use park_smart_harness.Base.Assoc.{lookup, insert, remove}
use park_smart_harness.Json.{Dict}

pub record ControlProposal : Type 0 where
  pub target : String
  pub action : String
  pub params : Dict
  pub risk : String
  pub human : String
  pub requires_confirmation : Bool
  pub handle : String
  pub reversibility : String
  pub token : String
  pub thread_id : String

-- `self._store`: a dict by handle, in the order of registration.
abbrev pub Proposals : Type 0
Proposals = List (String × ControlProposal)

abbrev pub handle_or : String → String → String
handle_or fresh handle = if nonempty handle then handle else fresh

-- `put`; `fresh` is the uuid that is drawn if the proposal has no handle.
unfoldable pub put : String → ControlProposal → Proposals → String × Proposals
put fresh p s =
    let handle = handle_or fresh p.handle in
    (handle, insert handle (record p { handle = handle }) s)

unfoldable pub find : Proposals → String → Option ControlProposal
find s handle = lookup handle s

-- `pop`
unfoldable pub discard : String → Proposals → Proposals
discard handle s = remove handle s

abbrev pub latest_of :
    String
    → String × ControlProposal
    → Option (String × ControlProposal)
    → Option (String × ControlProposal)
latest_of thread_id entry (some later) = some later
latest_of thread_id entry none = if entry.1.thread_id == thread_id then some entry else none

-- The last proposal of the session, and never one of another session.
unfoldable pub latest_for : String → Proposals → Option (String × ControlProposal)
latest_for thread_id [] = none
latest_for thread_id (entry ∷ s) = latest_of thread_id entry (latest_for thread_id s)
