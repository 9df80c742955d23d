-- ===== src/Tests/Worker.antt =====
-- apps/api/app/routers/worker.py and the validator behind it, on a run of one step.
use morphia.Common.{String, ◌≡◌, refl, true, none, some, List, [], ◌∷◌, All, strip, ◌==◌}
use morphia.Common.Json.{Json, string, array, object, nil, cons, end, field}
use morphia.RunState.{RunState, queued, running, paused, completed}
use morphia.Server.Store.{Engagement, Run, select_run}
use morphia.Server.Runs.Transitions.{replay, state_of}
use morphia.Server.Runs.Justified.{IsOwners, IsWritten}
use morphia.Server.Runs.Lifecycle.{Step, is_final}
use morphia.Server.Runs.Effects.{Led, handle-Led}
use morphia.Server.States.{validate_transition, terminal_states}
use morphia.Server.Runs.{
  approve_run, get_owned_run, transition_run, create_run, get_owned_project, awaiting_target, grant,
  enqueue_run_job, record_decision, has_engagement,
}
use morphia.Server.Runs.Calls.{Call, create, transition, approve, handle, tables}
use morphia.Server.Tables.{ScopeRule, Tables}
use morphia.Server.Scope.{Environment, validate_target}
use morphia.Server.Worker.{SubmitStep}
use morphia.Server.Worker.Calls.{
  Request, by_user, by_worker, claim, submit, worker_transition, serve_requests, fresh,
}
use morphia.Server.Worker.Interleaving.{
  serve_requests-joined, serve_requests-decided, serve_requests_final,
}
use morphia.Tests.Server.{owner, project, row, db, why}

-- Patterns are exact, nothing is prohibited, and what is no text prints as nothing.
abbrev pub env : Environment
env = record {
  fnmatch = λ name pat. name == pat;
  lower = λ s. s;
  in_network = λ pattern target. none;
  prohibited_target_reason = λ target. none;
}

abbrev pub repr : Json → String
repr v = ""

abbrev engagement : Engagement
engagement = record { id = "e1"; project_id = "p1"; status = "active" }

abbrev include_rule : ScopeRule
include_rule = record { engagement_id = "e1"; rule_type = "include"; pattern = "example.com" }

abbrev body : SubmitStep
body = record {
  worker_id = "w1";
  step_number = 1;
  action = "http_header_review";
  status = "completed";
  input_data = none;
  output_data = none;
  error = "";
  idempotency_key = "r1:1";
}

abbrev pub planned : Run
planned = record (row queued) {
  engagement_id = some "e1";
  plan = some (
      field "steps"
        (array (
          cons
            (object (
              field "action" (string "http_header_review")
                (field "target" (string "example.com") end)))
            nil))
        end);
}

abbrev pub world : Tables
world = record {
  store = record (db queued) { engagements = engagement ∷ []; runs = planned ∷ [] };
  scope_rules = include_rule ∷ [];
  steps = [];
}

abbrev requests : List Request
requests =
    by_user owner (create "r1" "p1" "Scan" none (some "e1") planned.plan)
    ∷ by_user owner (transition "r1" RunState.planning "")
    ∷ by_user owner (transition "r1" RunState.awaiting_plan_approval "")
    ∷ by_user owner (approve true "r1" why)
    ∷ by_worker "secret" (claim "r1" "w1")
    ∷ by_worker "secret" (submit "s1" "r1" body)
    ∷ by_worker "guess" (worker_transition "r1" "w1" completed "")
    ∷ by_worker "secret" (worker_transition "r1" "w1" completed "")
    ∷ []

abbrev start : Tables
start = fresh (project ∷ []) (engagement ∷ []) (include_rule ∷ [])

serve_requests-joined_example :
    replay "r1" none (serve_requests env repr "secret" requests start).store.events
    ≡ some (state_of "r1" (serve_requests env repr "secret" requests start).store)
serve_requests-joined_example =
    serve_requests-joined env repr "secret" (project ∷ []) (engagement ∷ []) (include_rule ∷ [])
      requests "r1"

serve_requests-decided_example :
    All
      (IsOwners (serve_requests env repr "secret" requests start).store.projects)
      (serve_requests env repr "secret" requests start).store.runs
    × All
        (IsWritten (serve_requests env repr "secret" requests start).store.runs)
        (serve_requests env repr "secret" requests start).store.approvals
serve_requests-decided_example =
    serve_requests-decided env repr "secret" (project ∷ []) (engagement ∷ []) (include_rule ∷ [])
      requests

abbrev paused_call : Call
paused_call = transition "r1" paused ""

handle-Led_example :
    let db' = tables (handle paused_call owner (db running)) (db running) in
    Step (state_of "r1" (db running)) (state_of "r1" db')
    × Led paused_call "r1" (state_of "r1" (db running)) (state_of "r1" db')
handle-Led_example = handle-Led paused_call owner (db running) "r1"

abbrev finished : Tables
finished = record world { store = db completed }

serve_requests_final_example :
    state_of "r1" (serve_requests env repr "secret" requests finished).store
    ≡ state_of "r1" finished.store
unfolding is_final state_of select_run
serve_requests_final_example = serve_requests_final env repr "secret" requests finished "r1" refl

-- The calls with the secret carry the run to its end, and the one without it changes nothing.
requests_complete :
    state_of "r1" (serve_requests env repr "secret" requests start).store ≡ some completed
unfolding serve_requests state_of approve_run get_owned_run transition_run create_run
    get_owned_project fresh validate_transition strip awaiting_target grant enqueue_run_job
    record_decision validate_target terminal_states has_engagement
requests_complete = refl
