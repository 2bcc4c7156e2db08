-- ===== src/Examples/Confirmations.antt =====
-- The theorems on a thread that waits for a confirmation, at two frozen actions in the store.
use park_smart_harness.Base.{◌≡◌, refl, String, true, false, none, some, List, [], ◌∷◌}
use park_smart_harness.Base.Assoc.{lookup}
use park_smart_harness.Json.{Dict}
use park_smart_harness.Message.{PendingAction}
use park_smart_harness.Tools.{Boundary, Status}
use park_smart_harness.Store.{Threads, get_or_create, latest_boundary}
use park_smart_harness.Loop.{Machine, approve, reject}
use park_smart_harness.Loop.Run.{Resolution, run_loop, decision_for}
use park_smart_harness.Loop.Waiting.{cancel_is_refusal}
use park_smart_harness.Examples.{host}
use park_smart_harness.Examples.Engine.{the_call, question}

abbrev frozen_at : String → PendingAction
frozen_at id = record {
  tool_call_id = id;
  idem_key = id;
  action_name = "switch";
  action_arguments = Dict.end;
  handle = none;
}

abbrev batch : List PendingAction
batch = frozen_at "c1" ∷ frozen_at "c2" ∷ []

abbrev waiting : Boundary
waiting = record {
  status = Status.awaiting_confirmation;
  turn_id = "turn-1";
  seq = 1;
  pending_batch = some batch;
  budget_snapshot = none;
}

abbrev suspended : Threads
suspended =
    (
      "t",
      record { committed_messages = question; uncommitted_tail = []; boundaries = waiting ∷ [] },
    )
    ∷ []

abbrev machine : Machine Threads
machine = record { messages = question; host = host suspended }

-- It names the first action alone, as rejected.
abbrev partial_resolution : Resolution
partial_resolution = ("c1", reject) ∷ []

cancel_is_refusal_example :
    run_loop the_call 6 (some (("c1", approve) ∷ [])) true machine
    ≡ run_loop the_call 6 (some partial_resolution) false machine
unfolding decision_for lookup latest_boundary get_or_create
cancel_is_refusal_example =
    cancel_is_refusal the_call 6 (some (("c1", approve) ∷ [])) partial_resolution waiting batch
      machine refl refl refl (refl, (refl, tt))
