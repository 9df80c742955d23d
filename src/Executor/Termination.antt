-- ===== src/Executor/Termination.antt =====
-- apps/worker/app/main.py: the loop of `execute_run` ends.
use morphia.Common.{ℕ, ◌+◌, ◌<◌, String, ◌≡◌, false, Option, some, length, ◌&&◌, leb, size}
use morphia.Common.Json.{Fields, Json}
use morphia.RunState.{running, completed, failed}
use morphia.Server.Runs.Transitions.{state_of}
use morphia.Server.Tables.{Tables}
use morphia.Server.Reply.{Reply}
use morphia.Server.Plan.{plan_steps, step_def, text_of}
use morphia.Server.Worker.{steps_of}
use morphia.Server.Worker.Steps.{is_recorded}
use morphia.Executor.{
  Invoked, provider_error, Returned, idempotency_key, failure_text, claim_denied_or_failed,
  run_completed, complete_transition_failed, provider_failed, failure_report_failed,
  submit_step_failed,
}

-- None of the keys of the steps that are still to come is taken.
abbrev pub IsFree : String → Tables → Type 0
IsFree run_id t =
    (k : ℕ) → length (steps_of run_id t) < k → is_recorded (idempotency_key run_id k) t ≡ false

-- A text that the schemas of the server refuse: the action or the key of a step of the plan, or the reason that a
-- run is to be failed with for what the provider answered.
pub data TooLong (repr : Json → String) (invoke : String → Invoked) (run_id : String)
    (plan : Option Fields) : Type 0 where
  long_step :
      (k : ℕ) (d : Fields)
      → step_def (plan_steps plan) k ≡ some d
      → (leb (size (text_of repr d "action")) 200
          && leb (size (idempotency_key run_id (k + 1))) 100)
        ≡ false
      → TooLong repr invoke run_id plan
  long_error :
      (n : ℕ) (content why : String)
      → invoke content ≡ provider_error why
      → leb (size (failure_text n why)) 2000 ≡ false
      → TooLong repr invoke run_id plan

module _ (repr : Json → String) (invoke : String → Invoked) (run_id : String)
    (plan : Option Fields) where
  -- What the tables have for the run, by how `execute_run` returned.
  abbrev pub Leaves : Returned → Tables → Type 0
  Leaves claim_denied_or_failed t = Unit
  Leaves run_completed t = state_of run_id t.store ≡ some completed
  Leaves complete_transition_failed t = ⊥
  Leaves provider_failed t = state_of run_id t.store ≡ some failed
  Leaves failure_report_failed t =
      (state_of run_id t.store ≡ some running) × TooLong repr invoke run_id plan
  Leaves submit_step_failed t =
      (state_of run_id t.store ≡ some running) × TooLong repr invoke run_id plan

  abbrev pub Returns : Option (Returned × Tables) → Type 0
  Returns o = (e : Returned) × (t : Tables) × (o ≡ some (e, t)) × Leaves e t
