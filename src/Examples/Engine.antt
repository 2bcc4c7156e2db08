-- ===== src/Examples/Engine.antt =====
-- The theorems on the loop at a concrete call: a scripted model, one device and the in-memory store.
use mathlib.Core.Option.{some-injective, none-ne-some}
use park_smart_harness.Base.{
  ◌≡◌, ◌≢◌, refl, sym, ap, subst, String, Bool-cases, inl, inr, ◌⊎◌, ◌==◌, arith, true, false,
  Option, none, some, List, [], ◌∷◌, ◌++◌, if◌then◌else◌, last?,
}
use park_smart_harness.Exec.{ok, pure}
use park_smart_harness.Message.{Message, Role, plain, user, tool, ToolCallReq}
use park_smart_harness.Json.{Dict}
use park_smart_harness.Budget.{main}
use park_smart_harness.Tools.{
  ToolContext, Host, Handled, returned, LoopTool, get_tool, Boundary, Status,
}
use park_smart_harness.Gate.{default_classify, ask, allow}
use park_smart_harness.Dispatch.{
  ToolExecOutcome, refused_control, execute_tool, attempt, control_verify,
}
use park_smart_harness.Dispatch.Laws.{execute_tool_answers}
use park_smart_harness.Store.{Threads}
use park_smart_harness.Loop.{ModelTurn, Control, Seams, Call, Machine}
use park_smart_harness.Loop.Memory.{memory, thread, memory_is_transactional}
use park_smart_harness.Base.Assoc.{lookup}
use park_smart_harness.Exec.Triple.{Post}
use park_smart_harness.Store.{get_or_create, load, latest_boundary}
use park_smart_harness.Store.Laws.{log, boundaries, loaded, torn_commit, commit_is_durable}
use park_smart_harness.Loop.Ledger.{IsLedger, IsSynced, IsNumbered, Quiet}
use park_smart_harness.Loop.Ledger.Resume.{Outcome, run_loop_keeps_ledger}
use park_smart_harness.Loop.Batch.Governed.{
  IsAllowed, AgreeOnAllowed, with_executor, run_batch_is_governed,
}
use park_smart_harness.Loop.Batch.{run_batch}
use park_smart_harness.Loop.Batch.Answers.{run_batch-AnswersAll, AnswersAll}
use park_smart_harness.Loop.Turn.{all_filled}
use park_smart_harness.Loop.Run.{run_loop}
use park_smart_harness.Loop.Termination.{run_loop_ends}
use park_smart_harness.Examples.{
  asks, read_call, switch_call, host, budget, ctx_of, tool_of, returns,
}

-- After a tool message the model answers, before it calls both tools.
abbrev replies : Role → ModelTurn
replies tool = record { content = "21"; tool_calls = []; usage_tokens = 1; reasoning = "" }
replies r = record {
  content = "";
  tool_calls = read_call ∷ switch_call ∷ [];
  usage_tokens = 1;
  reasoning = "";
}

abbrev speaks : Option Message → ModelTurn
speaks none = record { content = ""; tool_calls = []; usage_tokens = 1; reasoning = "" }
speaks (some m) = replies m.role

abbrev answers : Dict → ToolContext → Host Threads → Handled × Host Threads
answers arguments ctx h = (returned (returns "21"), h)

abbrev control : Control Threads
control = record {
  freeze = λ c t h. (
    record {
      tool_call_id = c.id;
      idem_key = c.id;
      action_name = c.name;
      action_arguments = c.arguments;
      handle = none;
    },
    h,
  );
  resolve = λ p d. pure (returns "[executed]");
}

abbrev seams : Seams Threads
seams = record {
  model_caller = λ config prompt schemas. pure (speaks (last? prompt));
  assemble = λ config conversation. pure conversation.messages;
  execute_one = execute_tool;
  classify = λ c t ctx. default_classify (λ c t. false) c t;
  verify = λ c t o ctx. control_verify t.is_control o;
  store = memory;
  control = some control;
  compaction = none;
  interrupted = λ w. false;
}

abbrev pub the_call : Call Threads
the_call = record {
  config = record {
    model = "m";
    role = main;
    toolset = "read" ∷ "switch" ∷ [];
    budget = budget.limits;
    max_depth = 1;
  };
  registry =
      ("read", tool_of "read" false answers) ∷ ("switch", tool_of "switch" true answers) ∷ [];
  seams = seams;
  thread_id = "t";
  principal = none;
  depth = 0;
  session_id = none;
}

-- The question is committed before the loop runs.
abbrev pub question : List Message
question = plain user "how warm is it" ∷ []

abbrev seeded : Threads
seeded =
    ("t", record { committed_messages = question; uncommitted_tail = []; boundaries = [] }) ∷ []

abbrev machine : Machine Threads
machine = record { messages = question; host = host seeded }

run_loop_ends_example : (run_loop the_call 6 none false machine).0 ≢ ok none
run_loop_ends_example = run_loop_ends the_call 6 none false machine (omega arith)

run_batch-AnswersAll_example :
    (ms : List Message) × (all_filled
        (run_batch the_call (ctx_of []) 0 (read_call ∷ switch_call ∷ []) (host [])).0.results
      ≡ some ms)
    × AnswersAll ms (read_call ∷ switch_call ∷ [])
run_batch-AnswersAll_example =
    run_batch-AnswersAll the_call (ctx_of []) execute_tool_answers 0 (read_call ∷ switch_call ∷ [])
      (host [])

is_registered :
    (name : String) (t : LoopTool Threads)
    → get_tool the_call.registry name ≡ some t
    → (t ≡ tool_of "read" false answers) ⊎ (t ≡ tool_of "switch" true answers)
unfolding get_tool lookup
is_registered name t e = elim (Bool-cases (name == "read")) [
  | inl q ↦ inl (sym (some-injective _ _ (rw q at e)))
  | inr q ↦ elim (Bool-cases (name == "switch")) [
    | inl p ↦ inr (sym (some-injective _ _ (rw (q, p) at e)))
    | inr p ↦ let no : none ≡ some t = rw (q, p) at e in cc
  ]
]

-- Neither tool writes to the store.
read_quiet :
    (call : ToolCallReq) (t : LoopTool Threads) (ctx : ToolContext) (h : Host Threads)
    → IsAllowed the_call ctx call t
    → (execute_tool call t ctx h).1.world ≡ h.world
unfolding execute_tool attempt
read_quiet call t ctx h a = elim (is_registered call.name t a.0) [
  | inl q ↦ rw q refl
  | inr q ↦ rw q refl
]

the_ledger : IsLedger (thread "t") the_call
the_ledger = record {
  commits = (memory_is_transactional "t").0;
  resolves = (memory_is_transactional "t").1;
  reads = (memory_is_transactional "t").2;
  asks = λ p s h. (refl, refl);
  assembles = λ c h. (refl, refl);
  executes = λ call t ctx h a.
      let q = read_quiet call t ctx h a in (ap (log "t") q, ap (boundaries "t") q);
  freezes = λ c call h e.
      subst (λ k. Quiet (thread "t") h.world (k.freeze call "t" h).1.world) (some-injective _ _ e)
        (refl, refl);
  decides = λ c p d h e.
      subst (λ k. Quiet (thread "t") h.world (k.resolve p d h).1.world) (some-injective _ _ e)
        (refl, refl);
  compacts = λ c conv seq h e. absurd (none-ne-some _ e);
}

machine-IsSynced : IsSynced (thread "t") 0 machine
unfolding get_or_create lookup
machine-IsSynced = record { numbered = (refl, tt); synced = refl }

abbrev asked : List Message
asked = asks ∷ []

abbrev closing : Boundary
closing = record {
  status = Status.completed;
  turn_id = "turn-1";
  seq = 1;
  pending_batch = none;
  budget_snapshot = none;
}

run_loop_keeps_ledger_example :
    Post
      (Outcome (thread "t") the_call the_ledger)
      (λ e s. IsNumbered (thread "t") s)
      (run_loop the_call 6 none false machine)
run_loop_keeps_ledger_example =
    run_loop_keeps_ledger (thread "t") the_call the_ledger 6 none false 0 machine machine-IsSynced

commit_is_durable_example :
    (load (torn_commit "t" asked [] asked closing seeded) "t"
      ≡ loaded "t" (log "t" seeded ++ asked))
    × (latest_boundary (torn_commit "t" asked [] asked closing seeded) "t" ≡ some closing)
    × ((other : String)
        → other ≢ "t"
        → (load (torn_commit "t" asked [] asked closing seeded) other ≡ load seeded other)
          × (latest_boundary (torn_commit "t" asked [] asked closing seeded) other
              ≡ latest_boundary seeded other))
commit_is_durable_example = commit_is_durable "t" asked [] asked closing seeded

-- An executor that would touch the store for any call that is not allowed.
abbrev careless :
    ToolCallReq → LoopTool Threads → ToolContext → Host Threads → ToolExecOutcome × Host Threads
careless call t ctx h =
    if t.is_control
    then (refused_control call, record h { world = [] })
    else execute_tool call t ctx h

careless_agrees : AgreeOnAllowed the_call (ctx_of []) careless
unfolding default_classify
careless_agrees call t h a = elim (Bool-cases t.is_control) [
  | inl q ↦ let no : ask ≡ allow = rw q at a.1 in cc
  | inr q ↦ rw q refl
]

run_batch_is_governed_example :
    run_batch
      (with_executor the_call careless)
      (ctx_of [])
      0
      (read_call ∷ switch_call ∷ [])
      (host [])
    ≡ run_batch the_call (ctx_of []) 0 (read_call ∷ switch_call ∷ []) (host [])
run_batch_is_governed_example =
    run_batch_is_governed the_call (ctx_of []) careless careless_agrees 0
      (read_call ∷ switch_call ∷ []) (host [])
