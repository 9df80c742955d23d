-- ===== src/Server/Worker/Routes.antt =====
-- apps/api/app/routers/worker.py: what each of the worker's routes does to the tables of runs, on every branch.
use morphia.Common.{
  ℕ, String, ◌≡◌, refl, ap, true, Option, none, some, length, leb, Bool-cases, Option-cases, inl,
  inr,
}
use morphia.Common.Json.{Json, Fields}
use morphia.RunState.{RunState, running, failed, has}
use morphia.Server.States.{validate_transition, terminal_states, legal_transitions}
use morphia.Server.Store.{Run, Store, record_event}
use morphia.Server.Runs.{set_state}
use morphia.Server.Tables.{Tables}
use morphia.Server.Scope.{Environment, ScopeResult, validate_target}
use morphia.Server.Reply.{Reply, ok, http_exception, committed_exception, ◌>>=◌}
use morphia.Server.Plan.{plan_steps, len, step_def, text_of}
use morphia.Server.Worker.{
  start, fail, move_run, worker_actor, steps_of, claim_step, claim_for, claim_run, SubmitStep,
  submit_step, recorded_step, worker_transition_run,
}
use morphia.Server.Worker.Evolution.{
  Evolves, noted, moves, Evolution, ended, and_then, Evolution-append,
}
use morphia.Server.Worker.Starting.{
  Stands, Starts, start-Starts, validate_target-kept, get_run-cases,
}

move_run-Evolves :
    (r r' : Run) (event_type worker_id : String) (payload : Option Fields) (db : Store)
    → Stands r db
    → validate_transition r.state r'.state ≡ true
    → (r'.id ≡ r.id) × (r'.created_by ≡ r.created_by) × (r'.project_id ≡ r.project_id)
    → Evolves db (move_run r r' event_type worker_id payload db)
unfolding move_run set_state record_event
move_run-Evolves r r' event_type worker_id payload db found legal row =
    moves r r' _ refl refl refl refl found legal row (row.0, refl, refl)

-- What stays of a call that ends on each of its branches.
abbrev pub Leaves : {A : Type 0} → Store → Reply (A × Tables) → Type 0
Leaves db (ok (a, t)) = Evolution db t.store
Leaves db (http_exception c d) = Unit
Leaves db (committed_exception c d t) = Evolution db t.store

fail-Leaves :
    (r : Run) (why event_type worker_id : String) (payload : Option Fields) (status_code : ℕ)
    (detail : String) (db : Store) (t : Tables)
    → Evolution db t.store
    → Stands r t.store
    → r.state ≡ running
    → Leaves db (fail r why event_type worker_id payload status_code detail t)
unfolding fail validate_transition legal_transitions
fail-Leaves r why event_type worker_id payload status_code detail db t so_far found on =
    Evolution-append so_far (
      and_then
        (move_run-Evolves r (record r { state = failed; failure_reason = why }) event_type worker_id
          payload t.store found (rw on refl) (refl, refl, refl))
        ended)

-- What stays of a call that starts from tables which another part led to.
Leaves-after :
    {A : Type 0} (db db₁ : Store) (m : Reply (A × Tables))
    → Evolution db db₁
    → Leaves db₁ m
    → Leaves db m
Leaves-after db db₁ (ok (a, t)) first rest = Evolution-append first rest
Leaves-after db db₁ (http_exception c d) first rest = tt
Leaves-after db db₁ (committed_exception c d t) first rest = Evolution-append first rest

step_noted :
    (r : Run) (event_type : String) (actor_id : Option String) (payload : Option Fields)
    (db : Store)
    → Evolves db (record_event r event_type none none actor_id payload db)
unfolding record_event
step_noted r event_type actor_id payload db = noted _ refl refl refl refl refl

module _ (env : Environment) (repr : Json → String) where
  claim_step-Leaves :
      (r : Run) (engagement_id worker_id : String) (n : ℕ) (d : Fields) (t : Tables)
      → Stands r t.store
      → r.state ≡ running
      → Leaves t.store (claim_step env repr r engagement_id worker_id n d t)
  unfolding claim_step
  claim_step-Leaves r engagement_id worker_id n d t found on =
      let target : String = text_of repr d "target" in
      let action : String = text_of repr d "action" in
      let checked : ScopeResult × Tables =
        validate_target env engagement_id target action (worker_actor worker_id).id t in
      let (audited, rows) =
        validate_target-kept env engagement_id target action (worker_actor worker_id).id t in
      elim (Bool-cases checked.0.allowed) [
        | inl allowed ↦
            rw (allowed) (and_then audited (and_then (step_noted r _ _ _ checked.1.store) ended))
        | inr refused ↦ rw (refused) (
            fail-Leaves r _ _ worker_id _ 403 checked.0.reason t.store checked.1
              (and_then audited ended) (rw rows found) on)
      ]

  claim_for-Leaves :
      (r : Run) (worker_id : String) (t : Tables) (engagement : Option String)
      → Stands r t.store
      → r.state ≡ running
      → Leaves t.store (claim_for env repr r worker_id t engagement)
  unfolding claim_for
  claim_for-Leaves r worker_id t none found on =
      fail-Leaves r _ _ worker_id _ 400 "Run has no engagement_id; cannot execute." t.store t ended
        found on
  claim_for-Leaves r worker_id t (some e) found on = elim (Option-cases (len (plan_steps r.plan))) [
    | inl odd ↦ rw odd tt
    | inr (n, plan) ↦ rw plan (elim (Bool-cases (leb n (length (steps_of r.id t)))) [
      | inl all ↦ rw all ended
      | inr more ↦
          rw more (elim (Option-cases (step_def (plan_steps r.plan) (length (steps_of r.id t)))) [
            | inl odd ↦ rw odd tt
            | inr (d, next) ↦
                rw next (claim_step-Leaves r e worker_id (length (steps_of r.id t)) d t found on)
          ])
    ])
  ]

  pub claim_run-Leaves :
      (run_id worker_id : String) (t : Tables)
      → Leaves t.store (claim_run env repr run_id worker_id t)
  unfolding claim_run
  claim_run-Leaves run_id worker_id t = elim (get_run-cases run_id t.store) [
    | inl (gone, missing) ↦ rw missing tt
    | inr (r, got, stands, found) ↦ rw got (started r stands)
  ]
    where
      go :
          (r : Run) (m : Reply (Run × Store))
          → Starts r t.store m
          → Leaves t.store (
              m >>= λ p.
              claim_for env repr p.0 worker_id (record t { store = p.1 }) p.0.engagement_id)
      go r (ok (r', db')) (led, stands, is, claimable) =
          Leaves-after t.store db'
            (claim_for env repr r' worker_id (record t { store = db' }) r'.engagement_id) led
            (claim_for-Leaves r' worker_id (record t { store = db' }) r'.engagement_id stands
              (ap (λ (q : Run). q.state) is))
      go r (http_exception c d) h = tt
      go r (committed_exception c d t') h = elim h [ ]

      started :
          (r : Run)
          → Stands r t.store
          → Leaves t.store (
              start r worker_id t.store >>= λ p.
              claim_for env repr p.0 worker_id (record t { store = p.1 }) p.0.engagement_id)
      started r stands = go r (start r worker_id t.store) (start-Starts r worker_id t.store stands)

pub submit_step-Leaves :
    (step_id run_id : String) (body : SubmitStep) (t : Tables)
    → Leaves t.store (submit_step step_id run_id body t)
unfolding submit_step record_event
submit_step-Leaves step_id run_id body t = elim (get_run-cases run_id t.store) [
  | inl (gone, missing) ↦ rw missing tt
  | inr (r, got, stands, found) ↦
      rw got (elim (Option-cases (recorded_step body.idempotency_key t.steps)) [
        | inl new ↦ rw new (and_then (noted _ refl refl refl refl refl) ended)
        | inr (s, old) ↦ rw old ended
      ])
]

pub worker_transition_run-Leaves :
    (run_id worker_id : String) (target_state : RunState) (reason : String) (t : Tables)
    → Leaves t.store (worker_transition_run run_id worker_id target_state reason t)
unfolding worker_transition_run
worker_transition_run-Leaves run_id worker_id target_state reason t =
    elim (get_run-cases run_id t.store) [
      | inl (gone, missing) ↦ rw missing tt
      | inr (r, got, stands, found) ↦ rw got (elim (Bool-cases (has terminal_states r.state)) [
        | inl over ↦ rw over tt
        | inr live ↦ rw live (elim (Bool-cases (validate_transition r.state target_state)) [
          | inl legal ↦ rw legal (
              and_then (move_run-Evolves r _ _ worker_id _ t.store stands legal (refl, refl, refl))
                ended)
          | inr illegal ↦ rw illegal tt
        ])
      ])
    ]
