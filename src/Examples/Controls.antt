-- ===== src/Examples/Controls.antt =====
-- The theorems on proposals, the audit and the codec at concrete inputs: a lamp and a door.
use mathlib.Core.Option.{some-injective}
use park_smart_harness.Base.{
  ℕ, suc, ◌≤◌, String, ◌≡◌, ◌≢◌, refl, ap, ◌∙◌, eq_iff, true, false, none, some, List, [], ◌∷◌,
  ◌++◌, ◌+◌, arith, count,
}
use park_smart_harness.Base.Assoc.{lookup, insert}
use park_smart_harness.Json.{Json, Dict, str}
use park_smart_harness.Exec.{raised, exception, Exec}
use park_smart_harness.Message.{Message, PendingAction}
use park_smart_harness.Tools.{Boundary, Status}
use park_smart_harness.Store.{Threads, Resolved, replace_placeholders}
use park_smart_harness.Store.Laws.{log}
use park_smart_harness.Loop.{approve, reject}
use park_smart_harness.Loop.Ledger.{Atomic}
use park_smart_harness.Loop.Memory.{memory, thread, memory_is_transactional}
use park_smart_harness.Proposal.{ControlProposal, find}
use park_smart_harness.Proposal.Backend.{got, broke, Backend, Printer}
use park_smart_harness.Proposal.Ledger.{Rows, pg_ledger, put_if_absent}
use park_smart_harness.Proposal.Capability.{
  Wiring, Desk, freeze, resolve, resolve_in_flight, reversible, handle_of, popped,
}
use park_smart_harness.Proposal.Freeze.{IsOwn, freeze-IsOwn}
use park_smart_harness.Proposal.Once.{journaled, resolve_all, IsDone, Idle, executes_at_most_once}
use park_smart_harness.Proposal.Interleaved.{
  Scene, Steps, stay, go, begins, takes, answers, asked, told, sending, over, succeeded, advance,
}
use park_smart_harness.Proposal.Interleaved.Held.{is_busy, is_fresh, approvals_exclude_each_other}
use park_smart_harness.Proposal.Guards.{
  Untouched, only_reversible_is_sent, pg_ledger_forgets_status,
}
use park_smart_harness.Audit.{audited}
use park_smart_harness.Audit.Laws.{audited_is_transactional}
use park_smart_harness.Codec.{encode_boundary, decode_boundary, role_of}
use park_smart_harness.Codec.Laws.{decode_boundary-encode}
use park_smart_harness.Examples.{switch_call, asks}

abbrev print : Json → String
print (str s) = s
print j = ""

abbrev printer : Printer
printer = record { text = print; repr = λ d. "{}" }

-- The world counts the commands.
abbrev backend : Backend ℕ
backend = record {
  device_status = λ token n. (got [], n);
  device_ctrl = λ args token n. (got true, suc n);
  door_control = λ args token n. (broke "500" "down", n);
}

abbrev wiring : Wiring ℕ
wiring = record {
  printer = printer;
  backend = some backend;
  mode = "real";
  ledger = none;
  idem_key = λ h a d. h;
}

abbrev lamp_off : String → ControlProposal
lamp_off r = record {
  target = "lamp";
  action = "deviceCtrl";
  params = Dict.end;
  risk = "execute";
  human = "";
  requires_confirmation = true;
  handle = "h1";
  reversibility = r;
  token = "";
  thread_id = "t";
}

abbrev desk : String → Desk ℕ
desk r = record {
  proposals = ("h1", lamp_off r) ∷ [];
  rows = [];
  memory = [];
  executed = 0;
  world = 0;
}

abbrev pending : PendingAction
pending = record {
  tool_call_id = "c2";
  idem_key = "h1";
  action_name = "deviceCtrl";
  action_arguments = Dict.end;
  handle = some "h1";
}

abbrev closed : Boundary
closed = record {
  status = Status.awaiting_confirmation;
  turn_id = "turn-1";
  seq = 1;
  pending_batch = some (pending ∷ []);
  budget_snapshot = some (record { iters = some 1; tokens = none; grace_used = some false });
}

abbrev after_a_run : Desk ℕ
after_a_run = record (desk reversible) {
  rows = ("h1", record { status = "done"; content = "[executed]" }) ∷ [];
}

irreversible :
    (q : ControlProposal)
    → find (desk "不可逆").proposals (handle_of pending) ≡ some q
    → q.reversibility ≢ reversible
unfolding find lookup
irreversible q e = λ r.
    let same : "不可逆" ≡ q.reversibility = ap (λ p. p.reversibility) (some-injective _ _ e) in
    ground (arith, eq_iff "不可逆" reversible, same ∙ r)

abbrev simulated : String
simulated = "simulated"

not_real : simulated ≢ "real"
not_real = λ e. ground (arith, eq_iff simulated "real", e)

has_row :
    lookup pending.idem_key after_a_run.rows
    ≡ some (record { status = "done"; content = "[executed]" })
unfolding lookup
has_row = refl

known : role_of "assistant" ≡ asks.role
unfolding role_of
known = refl

freeze-IsOwn_example :
    IsOwn wiring "u" switch_call "t"
      (desk reversible).proposals
      (freeze wiring "u" switch_call "t" (desk reversible).proposals)
freeze-IsOwn_example = freeze-IsOwn wiring "u" switch_call "t" (desk reversible).proposals

executes_at_most_once_example :
    ((resolve_all (journaled wiring) pending (approve ∷ approve ∷ []) (desk reversible)).executed
      ≤ 1)
    × (IsDone wiring pending (desk reversible)
        → Idle wiring pending
            (desk reversible)
            (resolve_all (journaled wiring) pending (approve ∷ approve ∷ []) (desk reversible)))
executes_at_most_once_example =
    executes_at_most_once wiring pending (approve ∷ approve ∷ []) (desk reversible)

-- Two approvals read the same empty ledger, one claims the entry, and its command succeeds.
abbrev overlapped : Scene
overlapped = record {
  phases = over ∷ succeeded "ok" ∷ [];
  rows = ("h1", record { status = "in_flight"; content = "" }) ∷ [];
  successes = 1;
}

overlap : Steps wiring pending (record { phases = []; rows = []; successes = 0 }) overlapped
unfolding advance put_if_absent lookup insert
overlap =
    let empty : Scene = record { phases = []; rows = []; successes = 0 } in
    let row : Rows = ("h1", record { status = "in_flight"; content = "" }) ∷ [] in
    go (begins empty) (
      go (begins (record empty { phases = asked ∷ [] })) (
        go (takes [] asked (asked ∷ []) [] 0) (
          go (takes (told none ∷ []) asked [] [] 0) (
            go (takes (told none ∷ []) (told none) [] [] 0) (
              go (takes [] (told none) (sending ∷ []) row 0)
                (go (answers (over ∷ []) [] "ok" row 0) (stay overlapped)))))))

approvals_exclude_each_other_example :
    (overlapped.successes ≤ 1)
    × (count is_busy overlapped.phases + count is_fresh overlapped.phases ≤ 1)
    × (overlapped.successes ≡ 1 → count is_busy overlapped.phases ≡ 0)
approvals_exclude_each_other_example =
    approvals_exclude_each_other wiring pending [] overlapped overlap

only_reversible_is_sent_example :
    Untouched wiring pending (desk "不可逆") (resolve wiring pending approve (desk "不可逆"))
    × Untouched wiring pending (desk "不可逆") (resolve wiring pending reject (desk "不可逆"))
only_reversible_is_sent_example = only_reversible_is_sent wiring pending (desk "不可逆") irreversible

abbrev on_table : Wiring ℕ
on_table = record wiring { ledger = some pg_ledger }

pg_ledger_forgets_status_example :
    (find after_a_run.proposals (handle_of pending) ≡ none
      → ((resolve on_table pending approve after_a_run).0.ok ≡ false)
        × ((resolve on_table pending approve after_a_run).1 ≡ after_a_run))
    × ((q : ControlProposal)
        → find after_a_run.proposals (handle_of pending) ≡ some q
        → (q.reversibility ≢ reversible
            → ((resolve on_table pending approve after_a_run).0.ok ≡ false)
              × ((resolve on_table pending approve after_a_run).1
                  ≡ popped on_table pending after_a_run))
          × (q.reversibility ≡ reversible
              → resolve on_table pending approve after_a_run
                ≡ (resolve_in_flight (some q), after_a_run)))
pg_ledger_forgets_status_example =
    pg_ledger_forgets_status wiring pending after_a_run
      (record { status = "done"; content = "[executed]" }) has_row refl

-- An audit that always fails.
abbrev no_audit : String → Boundary → Exec Threads (Unit {0})
no_audit id b ts = (raised (exception "down"), ts)

audited_is_transactional_example :
    ((ms : List Message) (b : Boundary) (w : Threads)
      → Atomic (thread "t") (log "t" w ++ ms) b w ((audited memory no_audit).commit "t" ms b w))
    × ((r : Resolved) (b : Boundary) (w : Threads)
        → Atomic
            (thread "t")
            (replace_placeholders r (log "t" w))
            b
            w
            ((audited memory no_audit).resolve_pending "t" r b w))
audited_is_transactional_example =
    audited_is_transactional (thread "t") memory no_audit (λ id b w. (refl, refl)) "t"
      (memory_is_transactional "t").0 (memory_is_transactional "t").1

decode_boundary-encode_example : decode_boundary (encode_boundary closed) ≡ some closed
decode_boundary-encode_example = decode_boundary-encode closed
