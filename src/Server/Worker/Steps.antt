-- ===== src/Server/Worker/Steps.antt =====
-- apps/api/app/routers/worker.py: the steps that `submit_step` records.
use morphia.Common.{String, ◌≡◌, refl, Bool, false, none, some, [], ◌∷◌, ◌++◌, is_some}
use morphia.Server.Store.{Run, Store, record_event}
use morphia.Server.Tables.{RunStep, Tables}
use morphia.Server.Reply.{ok}
use morphia.Server.Worker.{get_run, SubmitStep, submit_step, recorded_step}

-- A step with the key is found among the recorded ones.
abbrev pub is_recorded : String → Tables → Bool
is_recorded key t = is_some (recorded_step key t.steps)

-- The row that a new submission adds.
unfoldable pub new_row : String → Run → SubmitStep → RunStep
new_row step_id r body = record {
  id = step_id;
  run_id = r.id;
  step_number = body.step_number;
  action = body.action;
  status = body.status;
  input_data = body.input_data;
  output_data = body.output_data;
  error = body.error;
  idempotency_key = some body.idempotency_key;
}

pub submit_new :
    (step_id run_id : String) (body : SubmitStep) (t : Tables) (r : Run)
    → get_run run_id t.store ≡ ok r
    → recorded_step body.idempotency_key t.steps ≡ none
    → (t' : Tables) × (submit_step step_id run_id body t
        ≡ ok (record { id = step_id; already_recorded = false }, t'))
      × (t'.store.runs ≡ t.store.runs)
      × (t'.steps ≡ t.steps ++ new_row step_id r body ∷ [])
unfolding submit_step record_event new_row
submit_new step_id run_id body t r got new = rw got (rw new (_, refl, refl, refl))
