-- ===== src/Tests/Executor.antt =====
-- apps/worker/app/main.py: a run of one step, executed to its end.
use morphia.Server.States.{validate_transition, terminal_states}
use morphia.Server.Scope.{validate_target}
use morphia.Common.{show, strip, ◌≡◌, refl, String, some, opt_map}
use morphia.Common.Json.{null}
use morphia.RunState.{completed}
use morphia.Server.Tables.{Tables}
use morphia.Server.Runs.Transitions.{state_of}
use morphia.Executor.{Invoked, result, Returned, execute_run}
use morphia.Tests.Worker.{env, repr, world}

abbrev invoke : String → Invoked
invoke content = result content "mock" "mock-1" null null null

abbrev new_id : Tables → String
new_id t = "s1"

-- The run is completed.
execute_complete :
    opt_map
      (λ (p : Returned × Tables). state_of "r1" p.1.store)
      (execute_run env repr new_id invoke "w1" "r1" 2 world)
    ≡ some (some completed)
unfolding execute_run validate_transition validate_target strip state_of terminal_states show
execute_complete = refl
