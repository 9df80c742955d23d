-- ===== src/Agreement/NewRun.antt =====
-- The form for a new run of apps/web/src/pages/ProjectDetail.tsx against `create_run` of
-- apps/api/app/routers/runs.py.
use morphia.Common.{String, some, List, [], ◌∷◌}
use morphia.Common.Json.{Json, Items, Fields, string, array, object, nil, cons, end, field}
use morphia.Types.{RunPlan, RunPlanStep}
use morphia.Server.Store.{Store}
use morphia.Server.Runs.Calls.{Call, create}
use morphia.Web.ProjectDetail.RunForm.{RunForm, NewRunBody}

-- The JSON of a plan.
step_json : RunPlanStep → Json
step_json s = object (
    field "action" (string s.action)
      (field "target" (string s.target) (field "prompt" (string s.prompt) end)))

steps_json : List RunPlanStep → Items
unfolding step_json
steps_json [] = nil
steps_json (s ∷ ss) = cons (step_json s) (steps_json ss)

unfoldable pub plan_fields : RunPlan → Fields
unfolding steps_json
plan_fields p = field "steps" (array (steps_json p.steps)) end

-- The call that the form's request is on the server, where the key of the new row is `run_id`.
unfoldable pub to_create : (run_id project_id : String) → NewRunBody → Call
to_create run_id project_id b =
    create run_id project_id b.title b.agent_profile b.engagement_id (some (plan_fields b.plan))
