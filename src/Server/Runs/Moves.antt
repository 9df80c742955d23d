-- ===== src/Server/Runs/Moves.antt =====
-- apps/api/app/routers/runs.py: what each route that changes a run's state does to the tables when it
-- succeeds.
use morphia.Common.{
  ℕ, ◌==◌, Option-cases, String, ◌≡◌, refl, sym, ap, subst, ◌∙◌, ◌⊎◌, Bool, true, false, not,
  Option, some, [], ◌∷◌, ◌++◌, arith, Bool-cases, inl, inr,
}
use morphia.Common.Json.{Fields}
use morphia.RunState.{RunState, cancelled, has}
use morphia.Server.States.{validate_transition, terminal_states}
use morphia.Server.Store.{
  Project, http_exception, User, ok-injective, Run, RunEvent, Store, ok, select_run, select_project,
  write_run, record_event, >>=-eq-ok, raise_if-eq-ok,
}
use morphia.Server.Runs.{
  owns, get_owned_project, set_state, get_owned_run, transition_run, cancel_run, cancel_live,
  awaiting_target, record_decision, reject_run,
}

-- A row of the user's that went to the state `t` along the table of legal transitions, with one event
-- by the user that says so, at the end of the log.
pub record Moved (run_id : String) (user : User) (t : RunState) (db : Store) (before r' : Run)
    (db' : Store) : Type 0 where
  pub found : select_run run_id db.runs ≡ some before
  pub owned : owns user (select_project before.project_id db.projects) ≡ true
  pub legal : validate_transition before.state t ≡ true
  pub row : r'.id ≡ before.id
  pub state : r'.state ≡ t
  pub rows : db'.runs ≡ write_run r' db.runs
  pub event : RunEvent
  pub logged : db'.events ≡ db.events ++ event ∷ []
  pub event_run : event.run_id ≡ before.id
  pub event_from : event.from_state ≡ some before.state
  pub event_to : event.to_state ≡ some t
  pub event_actor : event.actor_id ≡ some user.id

pub get_owned_run-found :
    (run_id : String) (user : User) (db : Store) (r : Run)
    → get_owned_run run_id user db ≡ ok r
    → (select_run run_id db.runs ≡ some r)
      × (owns user (select_project r.project_id db.projects) ≡ true)
unfolding get_owned_run
get_owned_run-found run_id user db r h = ground arith

refused_ne_ok :
    {A : Type 0} {status : ℕ} {detail : String} {a : A} → http_exception status detail ≡ ok a → ⊥
refused_ne_ok h = cc

-- A project that was found for a user is the user's.
pub get_owned_project-owns :
    (project_id : String) (user : User) (db : Store) {p : Project}
    → get_owned_project project_id user db ≡ ok p
    → owns user (select_project project_id db.projects) ≡ true
unfolding get_owned_project owns
get_owned_project-owns project_id user db got =
    elim (Option-cases (select_project project_id db.projects)) [
      | inl missing ↦ elim (refused_ne_ok (rw (missing, get_owned_project) at got)) [ ]
      | inr (q, found) ↦ elim (Bool-cases (q.owner_id == user.id)) [
        | inl own ↦ rw found own
        | inr other ↦ elim (refused_ne_ok (rw other at (rw (found, get_owned_project) at got))) [ ]
      ]
    ]

-- The last part of each route, for a row that was found and may go where it goes.
module _ (run_id : String) (user : User) (db : Store) (r : Run)
    (got : get_owned_run run_id user db ≡ ok r) where
  pub set_state-Moved :
      (r' : Run) (event_type : String) (payload : Option Fields) (db₁ : Store)
      → validate_transition r.state r'.state ≡ true
      → r'.id ≡ r.id
      → db₁.runs ≡ db.runs
      → db₁.events ≡ db.events
      → let (q, db') = set_state r r' event_type payload user db₁ in
        Moved run_id user r'.state db r q db'
  unfolding set_state record_event
  set_state-Moved r' event_type payload db₁ legal row rows events =
      let (found, owned) = get_owned_run-found run_id user db r got in
      let e : RunEvent = record {
        run_id = r'.id;
        event_type = event_type;
        from_state = some r.state;
        to_state = some r'.state;
        actor_id = some user.id;
        payload = payload;
      } in
      record {
        found = found;
        owned = owned;
        legal = legal;
        row = row;
        state = refl;
        rows = ap (write_run r') rows;
        event = e;
        logged = ap (λ es. es ++ e ∷ []) events;
        event_run = row;
        event_from = refl;
        event_to = refl;
        event_actor = refl;
      }

pub Moved-ok :
    {run_id : String} {user : User} {t : RunState} {db : Store} {r : Run} (m : Run × Store)
    {r' : Run} {db' : Store}
    → ok m ≡ ok (r', db')
    → Moved run_id user t db r m.0 m.1
    → Moved run_id user t db r r' db'
Moved-ok {run_id} {user} {t} {db} {r} m e v =
    subst (λ (n : Run × Store). Moved run_id user t db r n.0 n.1) (ok-injective e) v

pub true_of_not : (b : Bool) → not b ≡ false → b ≡ true
true_of_not true h = refl
true_of_not false h = cc

-- `transition_run` only succeeds with a move of the user's run to the target.
pub transition_run-Moved :
    (run_id : String) (t : RunState) (reason : String) (user : User) (db : Store) {r' : Run}
    {db' : Store}
    → transition_run run_id t reason user db ≡ ok (r', db')
    → (r : Run) × Moved run_id user t db r r' db'
unfolding transition_run
transition_run-Moved run_id t reason user db h =
    let (r, got, h1) = >>=-eq-ok (get_owned_run run_id user db) _ h in
    let (checked, h2) = raise_if-eq-ok (not (validate_transition r.state t)) _ _ _ h1 in
    (
      r,
      Moved-ok _ h2
          (set_state-Moved run_id user db r got _ _ _ db (true_of_not _ checked) refl refl refl),
    )

cancel_live-Moved :
    (run_id : String) (user : User) (db : Store) (r : Run) {r' : Run} {db' : Store}
    → get_owned_run run_id user db ≡ ok r
    → cancel_live r user db ≡ ok (r', db')
    → Moved run_id user cancelled db r r' db'
unfolding cancel_live
cancel_live-Moved run_id user db r got h =
    let (checked, h2) = raise_if-eq-ok (not (validate_transition r.state cancelled)) _ _ _ h in
    Moved-ok _ h2
      (set_state-Moved run_id user db r got _ _ _ db (true_of_not _ checked) refl refl refl)

-- `cancel_run` cancels the user's run, or leaves all tables alone where it is in a terminal state.
pub cancel_run-Moved :
    (run_id : String) (user : User) (db : Store) {r' : Run} {db' : Store}
    → cancel_run run_id user db ≡ ok (r', db')
    → (has terminal_states r'.state ≡ true) × (db' ≡ db)
      ⊎ ((r : Run) × Moved run_id user cancelled db r r' db')
unfolding cancel_run
cancel_run-Moved run_id user db h =
    let (r, got, h1) = >>=-eq-ok (get_owned_run run_id user db) _ h in
    elim (Bool-cases (has terminal_states r.state)) [
      | inl done ↦
          let e = ok-injective (rw done at h1) in
          inl (ap (λ p. has terminal_states p.0.state) (sym e) ∙ done, ap (λ p. p.1) (sym e))
      | inr live ↦ inr (r, cancel_live-Moved run_id user db r got (rw live at h1))
    ]

pub record_decision-Moved :
    (run_id : String) (user : User) (db : Store) (r : Run) (decision kind why : String)
    (t : RunState) (metadata : Fields)
    → get_owned_run run_id user db ≡ ok r
    → validate_transition r.state t ≡ true
    → let (q, db') = record_decision decision kind why t metadata r user db in
      Moved run_id user t db r q db'
unfolding record_decision
record_decision-Moved run_id user db r decision kind why t metadata got legal =
    set_state-Moved run_id user db r got _ _ _ _ legal refl refl refl

-- `reject_run` cancels a run that awaits approval.
pub reject_run-Moved :
    (run_id why : String) (user : User) (db : Store) {r' : Run} {db' : Store}
    → reject_run run_id why user db ≡ ok (r', db')
    → (r : Run) × Moved run_id user cancelled db r r' db'
unfolding reject_run
reject_run-Moved run_id why user db h =
    let (r, got, h1) = >>=-eq-ok (get_owned_run run_id user db) _ h in
    let (written, h2) = raise_if-eq-ok _ _ _ _ h1 in
    let (target, awaits, h3) = >>=-eq-ok (awaiting_target r.state) _ h2 in
    let (checked, h4) = raise_if-eq-ok (not (validate_transition r.state cancelled)) _ _ _ h3 in
    (
      r,
      Moved-ok _ h4
          (record_decision-Moved run_id user db r _ _ _ cancelled _ got (true_of_not _ checked)),
    )

-- Tables with the same rows and events as those that a move leads to.
pub Moved-cong :
    {run_id : String} {user : User} {t : RunState} {db db₁ : Store} {r r' : Run} (db₂ : Store)
    → Moved run_id user t db r r' db₁
    → db₂.runs ≡ db₁.runs
    → db₂.events ≡ db₁.events
    → Moved run_id user t db r r' db₂
Moved-cong db₂ m rows events = record {
  found = m.found;
  owned = m.owned;
  legal = m.legal;
  row = m.row;
  state = m.state;
  rows = rows ∙ m.rows;
  event = m.event;
  logged = events ∙ m.logged;
  event_run = m.event_run;
  event_from = m.event_from;
  event_to = m.event_to;
  event_actor = m.event_actor;
}
