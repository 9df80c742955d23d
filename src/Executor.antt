-- ===== src/Executor.antt =====
-- apps/worker/app/main.py and api_client.py: how a worker executes a run, step by step. Its calls are answered by the
-- routes of the server, whose secret it has; the provider of models is a parameter, and so is the key of a new row.
pub mod Recorded
pub mod Termination
use morphia.Common.{ℕ, zero, suc, String, is_empty, Option, none, some, show, ◌<>◌, if◌then◌else◌}
use morphia.Common.Json.{Json, Fields, string, field, end, null}
use morphia.RunState.{RunState, completed, failed}
use morphia.Server.Tables.{Tables}
use morphia.Server.Scope.{Environment}
use morphia.Server.Reply.{Reply, ok, http_exception, committed_exception}
use morphia.Server.Worker.{Claim, done, next_step, SubmitStep, Submitted}
use morphia.Server.Worker.Schemas.{post_claim, post_step, post_transition}

-- What the provider answers, or why it fails.
pub data Invoked : Type 0 where
  result :
      (content provider model : String) (prompt_tokens completion_tokens estimated_cost_usd : Json)
      → Invoked
  provider_error : (message : String) → Invoked

-- How `execute_run` returns: the claim was refused, the run was completed or not, the failure of the provider was
-- reported or not, or a step was not taken.
pub data Returned : Type 0 where
  claim_denied_or_failed run_completed complete_transition_failed : Returned
  provider_failed failure_report_failed submit_step_failed : Returned

-- `idempotency_key` of the client
unfoldable pub idempotency_key : String → ℕ → String
idempotency_key run_id step_number = run_id <> (":" <> show step_number)

-- The content of the message for a step.
unfoldable pub user_content : (prompt action target : String) → String
user_content prompt action target =
    if is_empty prompt then "Action: " <> action <> "\nTarget: " <> target else prompt

-- The reason that a run is failed with.
unfoldable pub failure_text : (step_number : ℕ) (why : String) → String
failure_text n why = "Provider error at step " <> show n <> ": " <> why

module _ (env : Environment) (repr : Json → String) (new_id : Tables → String)
    (invoke : String → Invoked) (worker_id run_id : String) where
  unfoldable pub step_body :
      (step_number : ℕ) (action status : String) (input_data : Fields) (output_data : Option Fields)
      (error : String)
      → SubmitStep
  unfolding idempotency_key
  step_body n action status input_data output_data error = record {
    worker_id = worker_id;
    step_number = n;
    action = action;
    status = status;
    input_data = some input_data;
    output_data = output_data;
    error = error;
    idempotency_key = idempotency_key run_id n;
  }

  -- The part for a claim that is done.
  unfoldable pub complete : Tables → Returned × Tables
  unfolding post_transition
  complete t = elim (post_transition run_id worker_id completed "" t) [
    | ok (_, t') ↦ (run_completed, t')
    | http_exception c d ↦ (complete_transition_failed, t)
    | committed_exception c d t' ↦ (complete_transition_failed, t')
  ]

  unfoldable pub fail_run : (step_number : ℕ) (why : String) → Tables → Returned × Tables
  unfolding post_transition failure_text
  fail_run n why t = elim (post_transition run_id worker_id failed (failure_text n why) t) [
    | ok (_, t') ↦ (provider_failed, t')
    | http_exception c d ↦ (failure_report_failed, t)
    | committed_exception c d t' ↦ (failure_report_failed, t')
  ]

  -- The part for a provider that failed: the step is recorded as failed, and the run with it.
  unfoldable pub report_failure :
      (step_number : ℕ) (action target why : String) → Tables → Returned × Tables
  unfolding post_step step_body fail_run
  report_failure n action target why t =
      elim (post_step (new_id t) run_id
        (step_body n action "failed"
          (field "target" (string target) (field "action" (string action) end)) none why)
        t) [
          | ok (_, t') ↦ fail_run n why t'
          | http_exception c d ↦ (failure_report_failed, t)
          | committed_exception c d t' ↦ (failure_report_failed, t')
        ]

  -- What is recorded of an answer.
  unfoldable pub answer_body :
      (step_number : ℕ) (action target prompt content provider model : String)
      (prompt_tokens completion_tokens estimated_cost_usd : Json)
      → SubmitStep
  unfolding step_body
  answer_body n action target prompt content provider model pt ct cost =
      step_body n action "completed"
        (field "target" (string target)
          (field "action" (string action) (field "prompt" (string prompt) end)))
        (some (
          field "response" (string content) (
            field "provider" (string provider) (
              field "model" (string model) (
                field "prompt_tokens" pt
                  (field "completion_tokens" ct (field "estimated_cost_usd" cost end)))))))
        ""

  -- The part after a step was taken, up to the next round, `rest`.
  unfoldable pub submitted :
      (rest : Tables → Option (Returned × Tables))
      → Reply (Submitted × Tables)
      → Tables
      → Option (Returned × Tables)
  submitted rest (ok (_, t')) t = rest t'
  submitted rest (http_exception c d) t = some (submit_step_failed, t)
  submitted rest (committed_exception c d t') t = some (submit_step_failed, t')

  unfoldable pub run_step :
      (rest : Tables → Option (Returned × Tables)) (step_number : ℕ) (action target prompt : String)
      → Invoked
      → Tables
      → Option (Returned × Tables)
  unfolding report_failure submitted answer_body post_step
  run_step rest n action target prompt (provider_error why) t =
      some (report_failure n action target why t)
  run_step rest n action target prompt (result c p m pt ct cost) t =
      submitted rest
        (post_step (new_id t) run_id (answer_body n action target prompt c p m pt ct cost) t) t

  unfoldable pub claimed :
      (rest : Tables → Option (Returned × Tables))
      → Reply (Claim × Tables)
      → Tables
      → Option (Returned × Tables)
  unfolding complete run_step user_content
  claimed rest (http_exception c d) t = some (claim_denied_or_failed, t)
  claimed rest (committed_exception c d t') t = some (claim_denied_or_failed, t')
  claimed rest (ok (done _, t')) t = some (complete t')
  claimed rest (ok (next_step _ _ n action target prompt _, t')) t =
      run_step rest n action target prompt (invoke (user_content prompt action target)) t'

  -- `execute_run`, for at most `fuel` rounds of its loop.
  unfoldable pub execute_run : (fuel : ℕ) → Tables → Option (Returned × Tables)
  unfolding claimed post_claim
  execute_run zero t = none
  execute_run (suc fuel) t = claimed (execute_run fuel) (post_claim env repr run_id worker_id t) t
