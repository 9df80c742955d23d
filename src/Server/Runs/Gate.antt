-- ===== src/Server/Runs/Gate.antt =====
-- apps/api/app/routers/runs.py: which calls go through, and what stands between a run that awaits
-- approval and its execution.
use morphia.Common.{
  String, ◌≡◌, refl, Bool, true, false, ◌&&◌, none, some, arith, ◌==◌, ◌<>◌, ltb, size, strip,
  if◌then◌else◌, Bool-cases, Option-cases, inl, inr,
}
use morphia.RunState.{RunState, cancelled, name, has}
use morphia.Server.States.{validate_transition, approval_states, terminal_states, legal_transitions}
use morphia.Server.Store.{User, Run, Store, Result, ok, http_exception, record_event}
use morphia.Server.Runs.{
  get_owned_run, set_state, transition_run, approval_target, awaiting_target, approve_run, grant,
  cancel_run, cancel_live,
}

-- A call that succeeds, with a row and tables of which `P` holds.
abbrev pub Returns : Result (Run × Store) → (Run → Store → Type 0) → Type 0
Returns (ok (r, db)) P = P r db
Returns (http_exception c d) P = ⊥

-- An approval leads along the table of legal transitions, so the check for that never fires.
pub approval_target-legal :
    (s : RunState) {kind : String} {t : RunState}
    → approval_target s ≡ some (kind, t)
    → validate_transition s t ≡ true
unfolding approval_target validate_transition legal_transitions
approval_target-legal s h = ground arith

-- The states that await approval are those that an approval or a rejection is taken in.
pub approval_target_iff :
    (s : RunState)
    → (has approval_states s ≡ true → (approval_target s ≡ none → ⊥))
      × (has approval_states s ≡ false → approval_target s ≡ none)
unfolding approval_target approval_states
approval_target_iff s = (ground arith, ground arith)

-- Every state that is not terminal may go to CANCELLED.
pub cancellable :
    (s : RunState) → has terminal_states s ≡ false → validate_transition s cancelled ≡ true
unfolding terminal_states validate_transition legal_transitions
cancellable s h = ground arith

module _ (run_id : String) (user : User) (db : Store) (r : Run)
    (got : get_owned_run run_id user db ≡ ok r) where
  pub transition_run_refused :
      (t : RunState) (reason : String)
      → validate_transition r.state t ≡ false
      → transition_run run_id t reason user db
        ≡ http_exception 409 ("Illegal transition from " <> name r.state <> " to " <> name t <> ".")
  unfolding transition_run
  transition_run_refused t reason illegal = rw (got, illegal)

  -- `approve_run` on a run of the user's, on every branch: the justification is looked at first and only on
  -- the user's own run, then the state; the check against the table of transitions never fires.
  pub approve_run_lem :
      (redis_up : Bool) (why : String)
      → approve_run redis_up run_id why user db ≡ (
          if r.created_by == user.id && ltb (size (strip why)) 10
          then http_exception 422
              "Self-approval requires a written justification (at least 10 characters)."
          else (elim (approval_target r.state) [
            | none ↦
                http_exception 409 ("Run is not awaiting approval (state=" <> name r.state <> ").")
            | some (kind, t) ↦ ok (grant redis_up kind t why r user db)
          ]))
  unfolding approve_run awaiting_target
  approve_run_lem redis_up why =
      elim (Bool-cases (r.created_by == user.id && ltb (size (strip why)) 10)) [
        | inl short ↦ rw got (rw short)
        | inr excused ↦ rw got (
            rw excused (elim (Option-cases (approval_target r.state)) [
              | inl unasked ↦ rw (unasked, awaiting_target)
              | inr ((kind, t), awaits) ↦
                  rw (awaits, awaiting_target) (rw (approval_target-legal r.state awaits))
            ]))
      ]

  -- `cancel_run` on a run of the user's never raises: one that has ended is returned with all tables as they
  -- were, and any other is returned in CANCELLED, with nothing else of it changed and no job taken
  -- from the queue.
  pub cancel_run-Returns : Returns (cancel_run run_id user db) (λ r' db'.
      if has terminal_states r.state
      then (r' ≡ r) × (db' ≡ db)
      else (r' ≡ record r { state = cancelled }) × (db'.jobs ≡ db.jobs))
  unfolding cancel_run cancel_live set_state record_event
  cancel_run-Returns = elim (Bool-cases (has terminal_states r.state)) [
    | inl done ↦ rw got (rw done (refl, refl))
    | inr live ↦ rw got (rw live (rw (cancellable r.state live) (refl, refl)))
  ]
