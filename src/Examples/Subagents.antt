-- ===== src/Examples/Subagents.antt =====
-- The theorems on sub loops at one that answers at once.
use park_smart_harness.Base.{
  ◌≡◌, ◌≢◌, ◌↔◌, refl, has_text, String, true, false, none, some, [], ◌∷◌,
}
use park_smart_harness.Json.{Dict, str, entry}
use park_smart_harness.Exec.{ok, pure, catch_as, ◌>>=◌}
use park_smart_harness.Budget.{leaf, consume, exhausted, grace_available, snapshot}
use park_smart_harness.Gate.{default_classify}
use park_smart_harness.Store.{latest_boundary, get_or_create, commit, commit_thread}
use park_smart_harness.Base.Assoc.{lookup, insert}
use park_smart_harness.Repair.{
  repair_messages, drop_orphans, merge_users, merge_from, join_contents,
}
use park_smart_harness.Tools.{ToolContext, returned}
use park_smart_harness.Loop.Prompt.{
  nudged, repaired, check_entry, conversation, assembled, commit_now, assemble_prompt,
  call_model_with_retry,
}
use park_smart_harness.Loop.Turn.{finish, answered, after_model}
use park_smart_harness.Loop.Run.{
  run_loop, run_body, on_last, main_loop, iterate, persist_exit, on_entry, on_assembly, ask_model,
  on_turn,
}
use park_smart_harness.Loop.{safely, on_world, on_host, modify, LoopResult, result, ResultStatus}
use park_smart_harness.Loop.Unattended.{unattended_never_waits}
use park_smart_harness.Subagent.{sub_call, start, Subagent, sub_run, sub_handler}
use park_smart_harness.Subagent.Laws.{IsCompleted, sub_run_never_waits, sub_handler_succeeds_iff}
use park_smart_harness.Examples.{host, budget, tool_of, returns}

-- A world that is the text of a sensor.
abbrev scout : Subagent String
scout = record {
  name = "scout";
  description = "";
  config = record {
    model = "m";
    role = leaf;
    toolset = "read" ∷ [];
    budget = budget.limits;
    max_depth = 1;
  };
  registry = ("read", tool_of "read" false (λ args ctx h. (returned (returns h.world.0), h))) ∷ [];
  model_caller = λ config prompt schemas.
      pure (record { content = "it is 21"; tool_calls = []; usage_tokens = 3; reasoning = "" });
  assemble = λ config conversation. pure conversation.messages;
  classify = λ c t ctx. default_classify (λ c t. false) c t;
  interrupted = λ w. false;
  uuid = λ w. "0";
  repr = λ v. "";
}

abbrev task : Dict
task = entry "task" (str "how warm is it") Dict.end

abbrev caller : ToolContext
caller = record { depth = 0; principal = none; thread_id = "t" }

sub_handler_succeeds_iff_example :
    (((sub_handler scout task caller (host "21")).0 ≡ returned (returns "it is 21"))
      × (true ≡ true))
    ↔ IsCompleted scout task caller (host "21") (returns "it is 21")
sub_handler_succeeds_iff_example =
    sub_handler_succeeds_iff scout task caller (host "21") (returns "it is 21")

-- The answer of the sub loop.
abbrev reply : LoopResult
reply = result "it is 21" ResultStatus.completed

replied : (sub_run scout task caller (host "21")).0 ≡ ok (some reply)
unfolding sub_run sub_call start run_loop run_body ◌>>=◌ safely on_world on_host catch_as modify
    latest_boundary lookup insert get_or_create commit commit_thread on_last main_loop iterate
    persist_exit on_entry on_assembly ask_model on_turn nudged repaired check_entry conversation
    assembled commit_now assemble_prompt call_model_with_retry finish answered after_model
    repair_messages drop_orphans merge_users merge_from join_contents consume exhausted
    grace_available snapshot has_text
replied = refl

sub_run_never_waits_example : reply.status ≢ ResultStatus.awaiting_confirmation
sub_run_never_waits_example = sub_run_never_waits scout task caller (host "21") reply replied

unattended_never_waits_example : reply.status ≢ ResultStatus.awaiting_confirmation
unfolding sub_call start sub_run latest_boundary lookup
unattended_never_waits_example =
    unattended_never_waits (sub_call scout caller "21") refl 6 none false
      (start scout task (host "21")) reply refl replied
