-- ===== src/Server/Worker/Schemas.antt =====
-- apps/api/app/routers/worker.py: the limits of length that the schemas of the bodies set, and the routes behind
-- them. A body with a text that is too long never comes to its route; the list of problems that FastAPI answers
-- with is left out.
use morphia.Common.{String, Bool, not, ◌&&◌, leb, size}
use morphia.Common.Json.{Json}
use morphia.RunState.{RunState}
use morphia.Server.Tables.{Tables}
use morphia.Server.Scope.{Environment}
use morphia.Server.Reply.{Reply, raise_if, ◌>>◌}
use morphia.Server.Worker.{
  Claim, SubmitStep, Submitted, claim_run, submit_step, worker_transition_run,
}

-- `ClaimRequest`
unfoldable pub claim_fits : (worker_id : String) → Bool
claim_fits worker_id = leb (size worker_id) 100

-- `SubmitStepRequest`
unfoldable pub step_fits : SubmitStep → Bool
step_fits body =
    leb (size body.worker_id) 100
    && (leb (size body.status) 50
        && (leb (size body.action) 200 && leb (size body.idempotency_key) 100))

-- `WorkerTransitionRequest`
unfoldable pub transition_fits : (worker_id reason : String) → Bool
transition_fits worker_id reason = leb (size worker_id) 100 && leb (size reason) 2000

unfoldable pub post_claim :
    Environment → (Json → String) → (run_id worker_id : String) → Tables → Reply (Claim × Tables)
unfolding claim_fits claim_run
post_claim env repr run_id worker_id t = do
  raise_if (not (claim_fits worker_id)) 422 ""
  claim_run env repr run_id worker_id t

unfoldable pub post_step :
    (step_id run_id : String) → SubmitStep → Tables → Reply (Submitted × Tables)
unfolding step_fits submit_step
post_step step_id run_id body t = do
  raise_if (not (step_fits body)) 422 ""
  submit_step step_id run_id body t

unfoldable pub post_transition :
    (run_id worker_id : String)
    → RunState
    → (reason : String) → Tables
    → Reply ((String × RunState) × Tables)
unfolding transition_fits worker_transition_run
post_transition run_id worker_id target_state reason t = do
  raise_if (not (transition_fits worker_id reason)) 422 ""
  worker_transition_run run_id worker_id target_state reason t
