-- ===== src/Server/Worker/Claims.antt =====
-- apps/api/app/routers/worker.py: when `claim_run` hands out a step.
use morphia.Common.{ℕ, ◌+◌, String, ◌≡◌, refl, ◌⊎◌, true, false, ◌||◌, none, some, length, leb}
use morphia.Common.Json.{Json, Fields}
use morphia.RunState.{queued, running, failed, same}
use morphia.Server.Store.{Run, Store}
use morphia.Server.Runs.Transitions.{state_of}
use morphia.Server.Tables.{Tables}
use morphia.Server.Scope.{Environment, validate_target}
use morphia.Server.Reply.{Reply, ok, http_exception, committed_exception}
use morphia.Server.Plan.{plan_steps, len, step_def, text_of}
use morphia.Server.Worker.{worker_actor, steps_of, Claim, done, next_step}
use morphia.Server.Worker.Starting.{Stands}

-- What stands behind a step that is handed out for the running row `r`: the run has an engagement, the step is
-- the one of the plan after those that are recorded, and the validator allows its target and action.
pub record Handed (env : Environment) (repr : Json → String) (r : Run) (worker_id : String)
    (t : Tables) (engagement_id : String) (step_number : ℕ) (action target prompt : String)
    (t' : Tables) : Type 0 where
  pub engagement : r.engagement_id ≡ some engagement_id
  pub number : step_number ≡ length (steps_of r.id t) + 1
  pub step : Fields
  pub planned : step_def (plan_steps r.plan) (length (steps_of r.id t)) ≡ some step
  pub its_action : action ≡ text_of repr step "action"
  pub its_target : target ≡ text_of repr step "target"
  pub its_prompt : prompt ≡ text_of repr step "prompt"
  pub allowed :
      (validate_target env engagement_id target action (worker_actor worker_id).id t).0.allowed
      ≡ true
  pub row : Stands r t'.store
  pub state : state_of r.id t'.store ≡ some running
  pub steps : t'.steps ≡ t.steps

-- What stands behind a run that is FAILED: it has no engagement, or its next step is refused by the validator.
abbrev pub Refused : Environment → (Json → String) → Run → String → Tables → Type 0
Refused env repr r worker_id t =
    (r.engagement_id ≡ none)
    ⊎ ((e : String) × (d : Fields) × (r.engagement_id ≡ some e)
        × (step_def (plan_steps r.plan) (length (steps_of r.id t)) ≡ some d)
        × ((validate_target env e (text_of repr d "target") (text_of repr d "action")
              (worker_actor worker_id).id t).0.allowed
            ≡ false))

-- How a claim ends for the running row `r`, where the tables are `t`.
abbrev pub Tried :
    Environment → (Json → String) → Run → String → Tables → Reply (Claim × Tables) → Type 0
Tried env repr r worker_id t (ok (done run_id, t')) =
    (n : ℕ) × (len (plan_steps r.plan) ≡ some n)
    × (leb n (length (steps_of r.id t)) ≡ true)
    × (t' ≡ t)
Tried env repr r worker_id t (ok (next_step run_id e n action target prompt profile, t')) =
    (run_id ≡ r.id) × Handed env repr r worker_id t e n action target prompt t'
Tried env repr r worker_id t (http_exception c d) =
    (c ≡ 500)
    × ((len (plan_steps r.plan) ≡ none)
        ⊎ (step_def (plan_steps r.plan) (length (steps_of r.id t)) ≡ none))
Tried env repr r worker_id t (committed_exception c d t') =
    (state_of r.id t'.store ≡ some failed) × (t'.steps ≡ t.steps) × Refused env repr r worker_id t

state_of_standing : (r : Run) (db : Store) → Stands r db → state_of r.id db ≡ some r.state
unfolding state_of
state_of_standing r db found = rw found refl

-- How a claim of the run with the row `r` ends.
abbrev pub Ends :
    Environment → (Json → String) → Run → String → Tables → Reply (Claim × Tables) → Type 0
Ends env repr r worker_id t m =
    ((detail : String) × (m ≡ http_exception 409 detail)
      × ((same r.state queued || same r.state running) ≡ false))
    ⊎ ((db : Store) × ((same r.state queued || same r.state running) ≡ true)
        × Stands (record r { state = running }) db
        × Tried env repr (record r { state = running }) worker_id (record t { store = db }) m)
