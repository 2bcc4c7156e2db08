-- ===== src/Examples/Context.antt =====
-- The theorems on the context of a model call at concrete inputs.
use park_smart_harness.Base.{
  arith, ◌≡◌, refl, String, Bool, true, false, none, some, List, [], ◌∷◌, ◌++◌, any,
}
use park_smart_harness.Base.{All, false}
use park_smart_harness.Repair.Legal.{AllKept}
use park_smart_harness.PlanView.{plans, exclude_plan_calls}
use park_smart_harness.PlanView.Laws.{exclude_plan_calls_lem}
use park_smart_harness.Json.{Json, Dict, int, pos, str, obj, arr, end, entry, items_of}
use park_smart_harness.Message.{Message, ToolCallReq, plain, tool_message, user, assistant}
use park_smart_harness.Plan.{PlanItem, derive_plan, last_snapshot}
use park_smart_harness.Tools.{Conversation}
use park_smart_harness.Repair.{is_user}
use park_smart_harness.Repair.Legal.{IsPaired, AllKept-IsPaired}
use park_smart_harness.History.{drop_answered_tool_results, trim_dialogue_turns}
use park_smart_harness.History.Turns.{IsTrimmed, trim_dialogue_turns-IsTrimmed}
use park_smart_harness.History.Drop.{shorten_answered, drop_answered-eq-shorten_answered}
use park_smart_harness.PlanView.{render_plan, shown_items}
use park_smart_harness.Assembler.{
  AssemblerSettings, AssembleError, raised, built, head_text, assemble,
}
use park_smart_harness.Assembler.Legal.{IsContext, assemble-IsContext}
use park_smart_harness.Assembler.Complete.{Holds, assemble_loses_nothing, assemble_stuck_on_plan}
use park_smart_harness.Compaction.{derive_compaction}
use park_smart_harness.SystemPrompt.{PromptConfig}
use park_smart_harness.Examples.{read_call, someone}

abbrev says : String → Message
says text = plain assistant text

abbrev asks_for : String → Message
asks_for text = plain user text

-- Three questions, the first with a result and an answer.
abbrev turns : List Message
turns =
    asks_for "a"
    ∷ record (says "") { tool_calls = read_call ∷ [] }
    ∷ tool_message read_call "21"
    ∷ says "done"
    ∷ asks_for "b"
    ∷ says "no"
    ∷ asks_for "c"
    ∷ []

drop_answered-eq-shorten_answered_example :
    drop_answered_tool_results turns ≡ shorten_answered turns
drop_answered-eq-shorten_answered_example = drop_answered-eq-shorten_answered turns

trim_dialogue_turns-IsTrimmed_example :
    (out : List Message) × (trim_dialogue_turns 1 1 turns ≡ some out) × IsTrimmed 1 1 turns out
trim_dialogue_turns-IsTrimmed_example = trim_dialogue_turns-IsTrimmed 1 1 turns (omega arith)

abbrev same : String → String
same s = s

abbrev print : Json → String
print (str s) = s
print v = "?"

abbrev print_args : Dict → String
print_args d = ""

abbrev not_zero : String → Bool
not_zero l = false

abbrev settings : AssemblerSettings
settings = record {
  knowledge_tools = "knowledge_search" ∷ [];
  control_tools = [];
  subagent_tools = [];
  memory_engine = none;
  keep_recent_turns = 1;
  keep_first = 1;
  soft_token_cap = 8000;
  context_window = 32768;
}

abbrev prompt_config : PromptConfig
prompt_config = record { role = some "main"; model = some "qwen"; platform = none }

abbrev talk : List Message → Conversation
talk ms = record { thread_id = "t"; messages = ms; plan = []; principal = some (someone []) }

turns-IsPaired : IsPaired [] turns
turns-IsPaired =
    AllKept-IsPaired [] turns (refl, (refl, (refl, (refl, (refl, (refl, (refl, tt)))))))

assemble_loses_nothing_example :
    (out : List Message) × (assemble same same print not_zero print_args settings prompt_config
        (talk turns)
      ≡ built out)
    × Holds same same print not_zero print_args settings prompt_config (talk turns) "" out
unfolding derive_compaction derive_plan render_plan
assemble_loses_nothing_example =
    assemble_loses_nothing same same print not_zero print_args settings prompt_config (talk turns)
      [] "" (omega arith) refl refl turns-IsPaired refl refl

-- A legal context at once: the one that the call above returns.
turns_context :
    (out : List Message) × (assemble same same print not_zero print_args settings prompt_config
        (talk turns)
      ≡ built out)
unfolding derive_compaction derive_plan render_plan
turns_context =
    let made =
      assemble_loses_nothing same same print not_zero print_args settings prompt_config (talk turns)
        [] "" (omega arith) refl refl turns-IsPaired refl refl in
    (made.0, made.1)

assemble-IsContext_example :
    IsContext
      (head_text same same print not_zero print_args settings prompt_config (talk turns))
      turns_context.0
    × (any (λ m. is_user m.role) turns ≡ true)
assemble-IsContext_example =
    assemble-IsContext same same print not_zero print_args settings prompt_config (talk turns)
      turns_context.0 turns_context.1

-- A plan whose one step has a number for a result.
abbrev counted : Json
counted =
    obj (entry "id" (str "1") (entry "content" (str "count") (entry "result" (int (pos 3)) end)))

abbrev plan_call : ToolCallReq
plan_call = record {
  id = "p1";
  name = "plan";
  arguments = entry "items" (arr (items_of (counted ∷ []))) end;
}

abbrev planned : List Message
planned =
    asks_for "a"
    ∷ record (says "") { tool_calls = plan_call ∷ [] }
    ∷ tool_message plan_call "ok"
    ∷ []

abbrev count_step : PlanItem
count_step = record {
  id = str "1";
  content = str "count";
  status = str "todo";
  result = int (pos 3);
  spec = Json.null;
}

assemble_stuck_on_plan_example :
    assemble same same print not_zero print_args settings prompt_config
      (record (talk planned) { messages = planned ++ (says "x" ∷ asks_for "b" ∷ []) })
    ≡ raised AssembleError.bad_plan
unfolding derive_compaction derive_plan last_snapshot shown_items
assemble_stuck_on_plan_example =
    assemble_stuck_on_plan same same print not_zero print_args settings prompt_config (talk planned)
      (says "x" ∷ asks_for "b" ∷ []) (count_step ∷ []) (omega arith) refl refl refl refl refl

exclude_plan_calls_lem_example :
    All (λ m. plans m ≡ false) (exclude_plan_calls planned)
    × ((known : List String) → AllKept known planned → AllKept known (exclude_plan_calls planned))
    × (exclude_plan_calls (exclude_plan_calls planned) ≡ exclude_plan_calls planned)
exclude_plan_calls_lem_example = exclude_plan_calls_lem planned
