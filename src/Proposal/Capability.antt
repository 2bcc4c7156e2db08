-- ===== src/Proposal/Capability.antt =====
-- agent_tools/proposal_control.py, `ProposalControlCapability`: a proposal is frozen into a pending
-- action, and executed at most once after the confirmation.
use park_smart_harness.Base.{
  ℕ, suc, String, ◌<>◌, ◌==◌, ◌&&◌, not, Bool, true, false, Option, none, some, List, nonempty,
  if◌then◌else◌,
}
use park_smart_harness.Base.Assoc.{lookup, insert}
use park_smart_harness.Json.{Json, Dict, str, end, entry, get}
use park_smart_harness.Message.{ToolCallReq, PendingAction}
use park_smart_harness.Tools.{ToolResult}
use park_smart_harness.Loop.{Decision, approve, reject}
use park_smart_harness.Proposal.{ControlProposal, Proposals, find, discard, latest_for}
use park_smart_harness.Proposal.Backend.{Answer, got, broke, Backend, Printer, arg_text, execute}
use park_smart_harness.Proposal.Ledger.{
  Ledger, Entry, Row, Rows, put_if_absent, set_row, compare_and_set,
}

abbrev pub invalid : String
invalid = "__invalid_proposal__"

-- What the constructor is given. `idem_key` is the digest of handle, action and parameters.
pub record Wiring (B : Type 0) : Type 0 where
  pub printer : Printer
  pub backend : Option (Backend B)
  pub mode : String
  pub ledger : Option Ledger
  pub idem_key : String → String → Dict → String

-- The proposals, the table of the ledger, the ledger in memory, the count, and the devices.
pub record Desk (B : Type 0) : Type 0 where
  pub proposals : Proposals
  pub rows : Rows
  pub memory : List (String × ToolResult)
  pub executed : ℕ
  pub world : B

-- The proposal that a handle names, unless it belongs to another session.
abbrev pub own : String → Option ControlProposal → Option ControlProposal
own thread_id none = none
own thread_id (some p) =
    if nonempty p.thread_id && not (p.thread_id == thread_id) then none else some p

abbrev pub named : String → String → Proposals → Option ControlProposal
named thread_id handle s = own thread_id (if nonempty handle then find s handle else none)

abbrev pub with_handle : String → Option ControlProposal → Option (String × ControlProposal)
with_handle handle none = none
with_handle handle (some p) = some (handle, p)

abbrev pub or_latest :
    Option (String × ControlProposal)
    → Option (String × ControlProposal)
    → Option (String × ControlProposal)
or_latest none latest = latest
or_latest (some e) latest = some e

-- The proposal that `freeze` takes: the one named, or the latest of the session.
unfoldable pub chosen : String → String → Proposals → Option (String × ControlProposal)
chosen thread_id handle s =
    or_latest (with_handle handle (named thread_id handle s)) (latest_for thread_id s)

module _ {B : Type 0} (w : Wiring B) where
  abbrev pub frozen :
      String → ToolCallReq → String → Option (String × ControlProposal) → PendingAction
  frozen fresh call handle none = record {
    tool_call_id = call.id;
    idem_key = fresh;
    action_name = invalid;
    action_arguments = entry "handle" (str handle) end;
    handle = some handle;
  }
  frozen fresh call handle (some (h, p)) = record {
    tool_call_id = call.id;
    idem_key = w.idem_key h p.action p.params;
    action_name = p.action;
    action_arguments = p.params;
    handle = some h;
  }

  -- `freeze`; `fresh` is the uuid of the sentinel.
  unfoldable pub freeze : String → ToolCallReq → String → Proposals → PendingAction
  freeze fresh call thread_id s =
      let handle = arg_text w.printer "handle" call.arguments in
      frozen fresh call handle (chosen thread_id handle s)

abbrev pub refused : String → ToolResult
refused text = record { ok = false; content = ""; error = some text }

abbrev pub accepted : String → ToolResult
accepted text = record { ok = true; content = text; error = none }

abbrev pub reversible : String
reversible = "可逆"

-- `_resolve_in_flight`
unfoldable pub resolve_in_flight : Option ControlProposal → ToolResult
resolve_in_flight none = refused "控制状态未知(上次下发中断,无法确认是否已生效)——**不可逆控制绝不自动重发**,请人工核对设备/操作日志后再决定。"
resolve_in_flight (some p) =
    if p.reversibility == reversible
    then accepted "控制状态未知(上次下发中断);该控制可逆,可重新发起一次确认幂等重试。"
    else refused "控制状态未知(上次下发中断,无法确认是否已生效)——**不可逆控制绝不自动重发**,请人工核对设备/操作日志后再决定。"

abbrev pub handle_of : PendingAction → String
handle_of a = elim a.handle [ none ↦ "" | some h ↦ h ]

abbrev content_or_empty : Option String → String
content_or_empty none = ""
content_or_empty (some c) = c

abbrev pub status_of : Option Entry → Option String
status_of none = none
status_of (some e) = e.status

abbrev pub content_of : Option Entry → String
content_of none = ""
content_of (some e) = content_or_empty e.content

abbrev row : String → String → Row
row s c = record { status = s; content = c }

abbrev code_or_unknown : String → String
code_or_unknown c = if nonempty c then c else "unknown"

-- `f"{args.get('handle')}"`
abbrev bad_handle : Printer → Option Json → String
bad_handle p none = "None"
bad_handle p (some j) = p.text j

module _ {B : Type 0} (w : Wiring B) (a : PendingAction) where
  abbrev pub popped : Desk B → Desk B
  popped d = record d { proposals = discard (handle_of a) d.proposals }

  abbrev record_done : Option Ledger → ToolResult → Desk B → Desk B
  record_done none r d = record d { memory = insert a.idem_key r d.memory }
  record_done (some l) r d = record d { rows = set_row a.idem_key (row "done" r.content) d.rows }

  abbrev record_failed : Option Ledger → Desk B → Desk B
  record_failed none d = d
  record_failed (some l) d = record d { rows = set_row a.idem_key (row "failed" "") d.rows }

  -- The result of the command, written to the ledger.
  unfoldable pub conclude : Answer String × B → Desk B → ToolResult × Desk B
  conclude (broke code text, v) d = (
    refused (
        "控制下发失败(后端报错 code="
        <> code_or_unknown code
        <> "):"
        <> text
        <> "。**把这个真实后端报错原样转告用户**——别臆断成 token 失效(读接口此刻可能正常,失败更可能是控制权限/参数/接口连通问题)。"),
    popped (record_failed w.ledger (record d { world = v })),
  )
  conclude (got readback, v) d =
      let r = accepted (
        "[executed] "
        <> a.action_name
        <> " args="
        <> w.printer.repr a.action_arguments
        <> " (idem="
        <> a.idem_key
        <> ") readback="
        <> readback) in
      let d' = record_done w.ledger r (record d { world = v }) in
      (r, popped (record d' { executed = suc d'.executed }))

  unfoldable pub dispatch : ControlProposal → Desk B → ToolResult × Desk B
  unfolding conclude
  dispatch p d =
      conclude (execute w.printer w.backend w.mode a.action_name a.action_arguments p.token d.world)
        d

  -- Another run holds the entry: what it left, and never a second command.
  unfoldable pub lost : ControlProposal → Option Entry → Desk B → ToolResult × Desk B
  lost p e d = elim (status_of e) [
    | none ↦ (resolve_in_flight (some p), d)
    | some s ↦
        if s == "done" then (accepted (content_of e), popped d) else (resolve_in_flight (some p), d)
  ]

  -- The claim of the entry, before the command.
  abbrev pub claim : Option String → Rows → Bool × Rows
  claim none rows = put_if_absent a.idem_key (row "in_flight" "") rows
  claim (some s) rows = compare_and_set a.idem_key "failed" (row "in_flight" "") rows

  unfoldable pub claimed : Ledger → ControlProposal → Option String → Desk B → ToolResult × Desk B
  unfolding dispatch lost
  claimed l p status d =
      let (won, rows) = claim status d.rows in
      if won
      then dispatch p (record d { rows = rows })
      else lost p (l.read rows a.idem_key) (record d { rows = rows })

  -- The guards before a first command: the proposal is there, and it can be undone.
  unfoldable pub guarded :
      (ControlProposal → Desk B → ToolResult × Desk B)
      → Option ControlProposal
      → Desk B
      → ToolResult × Desk B
  guarded go none d = (refused ("提案已过期或已消解(handle=" <> handle_of a <> "),请重新发起控制"), d)
  guarded go (some p) d =
      if p.reversibility == reversible
      then go p d
      else (refused ("拒绝执行不可逆控制(F3 门栓): " <> a.action_name), popped d)

  -- `approve`, with the ledger's entry.
  unfoldable pub approve_with :
      Ledger → Option ControlProposal → Option Entry → Desk B → ToolResult × Desk B
  unfolding guarded claimed
  approve_with l p e d = elim (status_of e) [
    | none ↦ guarded (λ q. claimed l q none) p d
    | some s ↦
        if s == "done"
        then (accepted (content_of e), popped d)
        else if s == "in_flight"
        then (resolve_in_flight p, d)
        else guarded (λ q. claimed l q (some s)) p d
  ]

  -- `approve`, with the ledger in memory.
  unfoldable pub approve_in_memory :
      Option ControlProposal → Option ToolResult → Desk B → ToolResult × Desk B
  unfolding guarded dispatch
  approve_in_memory p (some r) d = (r, popped d)
  approve_in_memory p none d = guarded dispatch p d

  unfoldable pub approved : Option Ledger → Desk B → ToolResult × Desk B
  unfolding approve_with approve_in_memory
  approved none d =
      approve_in_memory (find d.proposals (handle_of a)) (lookup a.idem_key d.memory) d
  approved (some l) d = approve_with l (find d.proposals (handle_of a)) (l.read d.rows a.idem_key) d

  -- `resolve`
  unfoldable pub resolve : Decision → Desk B → ToolResult × Desk B
  unfolding approved
  resolve decision d =
      if a.action_name == invalid
      then (
        refused
            ("unknown proposal handle: " <> bad_handle w.printer (get "handle" a.action_arguments)),
        d,
      )
      else elim decision [
        | reject ↦ (accepted ("[rejected] " <> a.action_name <> " not executed"), popped d)
        | approve ↦ approved w.ledger d
      ]
