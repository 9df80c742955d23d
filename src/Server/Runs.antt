-- ===== src/Server/Runs.antt =====
-- apps/api/app/routers/runs.py: the routes that create a run and move it through its states. The user
-- is the one that the session names; the limits of length of the bodies are in Runs/Calls.antt.
pub mod Transitions
pub mod Moves
pub mod Decisions
pub mod Consistency
pub mod Calls
pub mod Gate
pub mod Justified
pub mod Lifecycle
pub mod Effects
use morphia.Common.{
  String, Bool, true, false, not, ◌&&◌, ◌||◌, Option, none, some, List, [], ◌∷◌, ◌++◌, any, ltb,
  is_some, is_empty, size, strip, ◌==◌, ◌<>◌, if◌then◌else◌,
}
use morphia.Common.Json.{Fields, end, field, string, bool}
use morphia.RunState.{
  RunState, draft, awaiting_plan_approval, queued, running, awaiting_action_approval, failed,
  cancelled, name, same, has,
}
use morphia.Server.States.{terminal_states, validate_transition}
use morphia.Server.Store.{
  User, Project, Engagement, Run, ApprovalRequest, AuditEvent, Store, Result, ok, http_exception,
  ◌>>=◌, ◌>>◌, raise_if, select_run, select_project, write_run, record_event,
}

-- `_get_owned_project`
unfoldable pub get_owned_project : String → User → Store → Result Project
unfolding select_project
get_owned_project project_id user db = elim (select_project project_id db.projects) [
  | none ↦ http_exception 404 "Project not found."
  | some p ↦ if p.owner_id == user.id then ok p else http_exception 403 "Access denied."
]

unfoldable pub owns : User → Option Project → Bool
owns user none = false
owns user (some p) = p.owner_id == user.id

-- `_get_owned_run`
unfoldable pub get_owned_run : String → User → Store → Result Run
unfolding select_run select_project owns
get_owned_run run_id user db = elim (select_run run_id db.runs) [
  | none ↦ http_exception 404 "Run not found."
  | some r ↦
      if owns user (select_project r.project_id db.projects)
      then ok r
      else http_exception 403 "Access denied."
]

-- The foreign key of a run: the engagement is there, where one is named.
unfoldable pub has_engagement : Option String → Store → Bool
has_engagement none db = true
has_engagement (some k) db = any (λ (e : Engagement). e.id == k) db.engagements

-- `create_run`; `run_id` is the key that `generate_uuid` gives. The table refuses a key that it has and an
-- engagement that is not there, and FastAPI answers 500 then.
unfoldable pub create_run :
    (run_id project_id title : String) (agent_profile engagement_id : Option String)
    (plan : Option Fields)
    → User
    → Store
    → Result (Run × Store)
create_run run_id project_id title agent_profile engagement_id plan user db = do
  _ ← get_owned_project project_id user db
  raise_if (is_some (select_run run_id db.runs)) 500 "Internal Server Error"
  raise_if (not (has_engagement engagement_id db)) 500 "Internal Server Error"
  let run : Run = record {
    id = run_id;
    project_id = project_id;
    state = draft;
    title = title;
    engagement_id = engagement_id;
    plan = plan;
    agent_profile = agent_profile;
    failure_reason = "";
    created_by = user.id;
  }
  let db' = record db { runs = db.runs ++ run ∷ [] }
  ok (run, record_event run "run.created" none (some draft) (some user.id) none db')

-- `{"reason": body.reason} if body.reason else None`
unfoldable pub reason_payload : String → Option Fields
reason_payload reason = if is_empty reason then none else some (field "reason" (string reason) end)

-- What each of the routes below does last: the changed row is written, and an event records the state
-- that the row had and the one that it has.
unfoldable pub set_state :
    (before run : Run) (event_type : String) (payload : Option Fields) → User → Store → Run × Store
unfolding write_run record_event
set_state before run event_type payload user db = (
  run,
  record_event run event_type (some before.state) (some run.state) (some user.id) payload
      (record db { runs = write_run run db.runs }),
)

-- `transition_run`
unfoldable pub transition_run : String → RunState → String → User → Store → Result (Run × Store)
transition_run run_id target_state reason user db = do
  run ← get_owned_run run_id user db
  raise_if (not (validate_transition run.state target_state)) 409
      ("Illegal transition from " <> name run.state <> " to " <> name target_state <> ".")
  let why = if same target_state failed && not (is_empty reason) then reason else run.failure_reason
  let run' = record run { state = target_state; failure_reason = why }
  ok (set_state run run' "run.transition" (reason_payload reason) user db)

-- The part of `cancel_run` after the test for a terminal state.
unfoldable pub cancel_live : Run → User → Store → Result (Run × Store)
cancel_live run user db = do
  raise_if (not (validate_transition run.state cancelled)) 409
      ("Run cannot be cancelled from state " <> name run.state <> ".")
  ok (set_state run (record run { state = cancelled }) "run.cancelled" none user db)

-- `cancel_run`: a run in a terminal state is returned as it is.
unfoldable pub cancel_run : String → User → Store → Result (Run × Store)
cancel_run run_id user db = do
  run ← get_owned_run run_id user db
  if has terminal_states run.state then ok (run, db) else cancel_live run user db

-- `_approval_target`
unfoldable pub approval_target : RunState → Option (String × RunState)
approval_target awaiting_plan_approval = some ("plan", queued)
approval_target awaiting_action_approval = some ("action", running)
approval_target _ = none

-- `raise HTTPException(409, ...)` where `_approval_target` gives None.
unfoldable pub awaiting_target : RunState → Result (String × RunState)
unfolding approval_target
awaiting_target s = elim (approval_target s) [
  | none ↦ http_exception 409 ("Run is not awaiting approval (state=" <> name s <> ").")
  | some t ↦ ok t
]

-- The rows that a decision writes, `decision` being "approved" or "rejected".
unfoldable pub record_decision :
    (decision approval_type justification : String) (to_state : RunState) (metadata : Fields)
    → Run
    → User
    → Store
    → Run × Store
record_decision decision approval_type justification to_state metadata run user db =
    let payload : Fields = field "decision" (string decision) (
      field "justification" (string justification)
        (field "self_approved" (bool (run.created_by == user.id)) end)) in
    set_state run (record run { state = to_state }) "approval.decide" (some payload) user
      (record db {
        approvals =
            db.approvals
            ++ record {
              run_id = run.id;
              approval_type = approval_type;
              status = decision;
              requested_by = run.created_by;
              decided_by = some user.id;
              justification = justification;
            }
              ∷ [];
        audit =
            db.audit
            ++ record {
              event_type = "approval.decide";
              actor_id = some user.id;
              target_type = some "run";
              target_id = some run.id;
              action = "approval." <> decision;
              metadata_json = some metadata;
            }
              ∷ [];
      })

-- `enqueue_run_job` of services/queue.py: where Redis is out of reach the job is only logged.
unfoldable pub enqueue_run_job : Bool → String → Store → Store
enqueue_run_job redis_up run_id db = if redis_up then record db { jobs = run_id ∷ db.jobs } else db

-- `metadata_json` of the audit row of an approval.
unfoldable pub approval_metadata : String → RunState → Run → User → Fields
approval_metadata approval_type next_state run user = field "approval_type" (string approval_type) (
    field "to_state" (string (name next_state))
      (field "self_approved" (bool (run.created_by == user.id)) end))

-- The writes of `approve_run`: the decision, and the job of a run that is now queued.
unfoldable pub grant :
    (redis_up : Bool) (approval_type : String) (next_state : RunState) (justification : String)
    → Run
    → User
    → Store
    → Run × Store
grant redis_up approval_type next_state justification run user db =
    let (run', db') =
      record_decision "approved" approval_type justification next_state
        (approval_metadata approval_type next_state run user) run user db in
    (run', if same next_state queued then enqueue_run_job redis_up run.id db' else db')

-- `approve_run`
unfoldable pub approve_run :
    (redis_up : Bool) (run_id justification : String) → User → Store → Result (Run × Store)
approve_run redis_up run_id justification user db = do
  run ← get_owned_run run_id user db
  raise_if (run.created_by == user.id && ltb (size (strip justification)) 10) 422
      "Self-approval requires a written justification (at least 10 characters)."
  (approval_type, next_state) ← awaiting_target run.state
  raise_if (not (validate_transition run.state next_state)) 409
      ("Illegal transition from " <> name run.state <> " to " <> name next_state <> ".")
  ok (grant redis_up approval_type next_state justification run user db)

-- `reject_run`
unfoldable pub reject_run : (run_id justification : String) → User → Store → Result (Run × Store)
reject_run run_id justification user db = do
  run ← get_owned_run run_id user db
  raise_if (ltb (size (strip justification)) 10) 422
      "Rejecting a run requires a written justification (at least 10 characters)."
  (approval_type, next_state) ← awaiting_target run.state
  raise_if (not (validate_transition run.state cancelled)) 409
      ("Illegal transition from " <> name run.state <> " to " <> name cancelled <> ".")
  let metadata : Fields =
      field "approval_type" (string approval_type)
        (field "self_approved" (bool (run.created_by == user.id)) end)
  ok (record_decision "rejected" approval_type justification cancelled metadata run user db)
