-- ===== src/Server/Worker.antt =====
-- apps/api/app/routers/worker.py: the routes that the worker calls. The limits that the
-- schemas of the bodies set are in Worker/Schemas.antt; a step number is a natural number that its Integer column
-- can hold. A row's key is an argument.
pub mod Schemas
pub mod Calls
pub mod Evolution
pub mod Starting
pub mod Routes
pub mod Interleaving
pub mod Claims
pub mod Steps
use morphia.Common.{
  ℕ, zero, suc, ◌+◌, String, Bool, true, false, not, ◌&&◌, ◌||◌, Option, none, some, List, [], ◌∷◌,
  ◌++◌, filter, find, length, leb, is_empty, is_some, size, show, opt_bind, opt_map, ◌==◌, ◌<>◌,
  ◌or_null◌, if◌then◌else◌,
}
use morphia.Common.Json.{
  Json, Items, Fields, null, bool, number, string, array, object, nil, cons, end, field, get,
}
use morphia.RunState.{RunState, queued, running, failed, name, same, has}
use morphia.Server.States.{terminal_states, validate_transition}
use morphia.Server.Store.{User, Run, Store, select_run, write_run, record_event}
use morphia.Server.Runs.{set_state, reason_payload}
use morphia.Server.Reply.{
  Reply, ok, http_exception, committed_exception, raise_if, value_or_500, ◌>>=◌, ◌>>◌,
}
use morphia.Server.Plan.{plan_steps, len, step_def, str_of, text_of}
use morphia.Server.Tables.{RunStep, Tables}
use morphia.Server.Scope.{Environment, ScopeResult, validate_target}

-- `require_worker_auth`; `compare_digest` is an equality of texts.
unfoldable pub require_worker_auth : (expected provided : String) → Reply (Unit {0})
require_worker_auth expected provided =
    raise_if (is_empty expected || is_empty provided || not (provided == expected)) 401
      "Invalid or missing worker credentials."

-- `_get_run`
unfoldable pub get_run : String → Store → Reply Run
unfolding select_run
get_run run_id db = elim (select_run run_id db.runs) [
  | none ↦ http_exception 404 "Run not found."
  | some r ↦ ok r
]

-- The name that `_record_event` keeps for a worker.
unfoldable pub worker_actor : String → User
worker_actor worker_id = record { id = "worker:" <> worker_id }

-- The changed row and the event that says so.
unfoldable pub move_run :
    (before after : Run) (event_type worker_id : String) (payload : Option Fields) → Store → Store
unfolding set_state worker_actor
move_run before after event_type worker_id payload db =
    (set_state before after event_type payload (worker_actor worker_id) db).1

-- The rows of the steps of a run.
unfoldable pub steps_of : String → Tables → List RunStep
steps_of run_id t = filter (λ (s : RunStep). s.run_id == run_id) t.steps

-- `ClaimResponse`: done, or the step that is next.
pub data Claim : Type 0 where
  done : (run_id : String) → Claim
  next_step :
      (run_id engagement_id : String) (step_number : ℕ) (action target prompt : String)
      (agent_profile : Option String)
      → Claim

-- The first part of `claim_run`: a run that is queued is now running.
unfoldable pub start : (run : Run) (worker_id : String) → Store → Reply (Run × Store)
unfolding move_run
start run worker_id db =
    if same run.state queued
    then raise_if (not (validate_transition queued running)) 409
        "QUEUED -> RUNNING is not a legal transition."
      >> ok (
        record run { state = running },
        move_run run (record run { state = running }) "run.claimed" worker_id none db,
      )
    else if same run.state running
    then ok (run, db)
    else http_exception 409 ("Run is not claimable in state " <> name run.state <> ".")

-- A run that cannot go on is FAILED, and that is committed before the exception.
unfoldable pub fail :
    (run : Run) (why event_type worker_id : String) (payload : Option Fields) (status_code : ℕ)
    (detail : String)
    → Tables
    → Reply (Claim × Tables)
unfolding move_run
fail run why event_type worker_id payload status_code detail t =
    committed_exception status_code detail (record t {
      store =
          move_run run (record run { state = failed; failure_reason = why }) event_type worker_id
            payload t.store;
    })

unfoldable pub step_payload : (step_number : ℕ) (target action : String) → Fields → Fields
step_payload step_number target action rest =
    field "step_number" (number (show step_number))
      (field "target" (string target) (field "action" (string action) rest))

module _ (env : Environment) (repr : Json → String) where
  -- What `claim_run` does for the step `d`, which is the one after `completed_count` steps.
  unfoldable pub claim_step :
      (run : Run) (engagement_id worker_id : String) (completed_count : ℕ) (d : Fields)
      → Tables
      → Reply (Claim × Tables)
  unfolding text_of fail step_payload worker_actor
  claim_step run engagement_id worker_id completed_count d t =
      let target : String = text_of repr d "target" in
      let action : String = text_of repr d "action" in
      let step_number : ℕ = completed_count + 1 in
      let checked : ScopeResult × Tables =
        validate_target env engagement_id target action (worker_actor worker_id).id t in
      if not checked.0.allowed
      then fail run ("Scope denied at step " <> show step_number <> ": " <> checked.0.reason)
          "run.scope_denied" worker_id
          (some
            (step_payload step_number target action (field "reason" (string checked.0.reason) end)))
          403 checked.0.reason checked.1
      else ok (
        next_step run.id engagement_id step_number action target (text_of repr d "prompt")
            run.agent_profile,
        record checked.1 {
          store =
              record_event run "run.step_claimed" none none (some (worker_actor worker_id).id)
                (some (step_payload step_number target action end)) checked.1.store;
        },
      )

  -- `claim_run` from the test for the engagement on, for a run that is running; the last argument is what its
  -- row has there.
  unfoldable pub claim_for :
      (run : Run) (worker_id : String) → Tables → Option String → Reply (Claim × Tables)
  unfolding fail steps_of plan_steps len step_def claim_step
  claim_for run worker_id t none =
      fail run "No engagement_id set on run; cannot validate scope." "run.failed" worker_id none 400
        "Run has no engagement_id; cannot execute." t
  claim_for run worker_id t (some engagement_id) = do
    n ← value_or_500 (len (plan_steps run.plan))
    let completed_count : ℕ = length (steps_of run.id t)
    if leb n completed_count then ok (done run.id, t) else do
      d ← value_or_500 (step_def (plan_steps run.plan) completed_count)
      claim_step run engagement_id worker_id completed_count d t

  -- `claim_run`
  unfoldable pub claim_run : (run_id worker_id : String) → Tables → Reply (Claim × Tables)
  unfolding get_run start claim_for
  claim_run run_id worker_id t = do
    run ← get_run run_id t.store
    (run', db') ← start run worker_id t.store
    claim_for run' worker_id (record t { store = db' }) run'.engagement_id

-- `SubmitStepRequest`
pub record SubmitStep : Type 0 where
  pub worker_id : String
  pub step_number : ℕ
  pub action : String
  pub status : String
  pub input_data : Option Fields
  pub output_data : Option Fields
  pub error : String
  pub idempotency_key : String

-- `select(RunStep).where(RunStep.idempotency_key == …)`
unfoldable pub recorded_step : String → List RunStep → Option RunStep
recorded_step key steps =
    find (λ (s : RunStep). opt_map (λ k. k == key) s.idempotency_key or_null false) steps

-- The answer of `submit_step`
pub record Submitted : Type 0 where
  pub id : String
  pub already_recorded : Bool

-- `submit_step`; the branch for an IntegrityError is for two calls at once.
unfoldable pub submit_step :
    (step_id run_id : String) → SubmitStep → Tables → Reply (Submitted × Tables)
unfolding get_run recorded_step worker_actor
submit_step step_id run_id body t = do
  run ← get_run run_id t.store
  elim (recorded_step body.idempotency_key t.steps) [
    | some s ↦ ok (record { id = s.id; already_recorded = true }, t)
    | none ↦
        let payload : Fields =
          field "step_number" (number (show body.step_number))
            (field "status" (string body.status) end) in
        ok (
          record { id = step_id; already_recorded = false },
          record t {
            store =
                record_event run "run.step_completed" none none
                  (some (worker_actor body.worker_id).id) (some payload) t.store;
            steps =
                t.steps
                ++ record {
                  id = step_id;
                  run_id = run.id;
                  step_number = body.step_number;
                  action = body.action;
                  status = body.status;
                  input_data = body.input_data;
                  output_data = body.output_data;
                  error = body.error;
                  idempotency_key = some body.idempotency_key;
                }
                  ∷ [];
          },
        )
  ]

-- `worker_transition_run`; the answer is the key and the state of the row.
unfoldable pub worker_transition_run :
    (run_id worker_id : String)
    → RunState
    → (reason : String) → Tables
    → Reply ((String × RunState) × Tables)
unfolding get_run reason_payload move_run
worker_transition_run run_id worker_id target_state reason t = do
  run ← get_run run_id t.store
  raise_if (has terminal_states run.state) 409
      ("Run is already terminal (" <> name run.state <> ").")
  raise_if (not (validate_transition run.state target_state)) 409
      ("Illegal transition from " <> name run.state <> " to " <> name target_state <> ".")
  let why = if same target_state failed && not (is_empty reason) then reason else run.failure_reason
  let run' = record run { state = target_state; failure_reason = why }
  ok (
    (run.id, target_state),
    record t {
      store = move_run run run' "run.transition" worker_id (reason_payload reason) t.store;
    },
  )
