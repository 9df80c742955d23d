-- ===== src/Server/Runs/Lifecycle.antt =====
-- apps/api/app/routers/runs.py: the calls of the routes, seen as steps of one run's state.
use morphia.Common.{
  String, ◌≡◌, refl, sym, ap, subst, ◌∙◌, Bool, true, false, not, ◌||◌, Option, none, some, List,
  [], ◌∷◌, ◌++◌, arith, ◌==◌, eq_iff, Bool-cases, inl, inr, is_some, if◌then◌else◌,
}
use morphia.Common.Json.{Fields}
use morphia.RunState.{RunState, draft, completed, cancelled, same}
use morphia.Server.States.{validate_transition, legal_transitions}
use morphia.Server.Store.{
  User, Run, RunEvent, Store, Result, ok, http_exception, ok-injective, >>=-eq-ok, raise_if-eq-ok,
  select_run, write_run, record_event,
}
use morphia.Server.Runs.{get_owned_project, has_engagement, create_run}
use morphia.Server.Runs.Transitions.{state_of, select_run-id, state_of-move, state_of-mine}
use morphia.Server.Runs.Moves.{Moved, transition_run-Moved, cancel_run-Moved, reject_run-Moved}
use morphia.Server.Runs.Decisions.{approve_run-Granted}
use morphia.Server.Runs.Consistency.{state_of-create, none_of_is_some}
use morphia.Server.Runs.Calls.{
  Call, create, transition, cancel, approve, reject, within_limits, route, handle, tables, serve,
}

-- What may happen to a run, which is at first not there: nothing, its creation, or a legal transition.
pub data Step : Option RunState → Option RunState → Type 0 where
  stay : {s : Option RunState} → Step s s
  made : Step none (some draft)
  moved : {s t : RunState} → validate_transition s t ≡ true → Step (some s) (some t)

pub data Reach : Option RunState → Option RunState → Type 0 where
  done : {s : Option RunState} → Reach s s
  then_step : {s t u : Option RunState} → Step s t → Reach t u → Reach s u

pub move-Step :
    (db : Store) (r r' : Run) (e : RunEvent) (db' : Store) (k : String)
    → select_run r.id db.runs ≡ some r
    → validate_transition r.state r'.state ≡ true
    → r'.id ≡ r.id
    → (e.run_id ≡ r.id) × (e.from_state ≡ some r.state) × (e.to_state ≡ some r'.state)
    → db'.runs ≡ write_run r' db.runs
    → Step (state_of k db) (state_of k db')
move-Step db r r' e db' k found legal row event rows =
    let after = state_of-move db r r' e found legal row event db' k rows in
    let before = state_of-mine db r r' e found legal row event k in
    elim (Bool-cases (r.id == k)) [
      | inl mine ↦ rw (before mine, after, mine) (moved legal)
      | inr other ↦ rw (after, other) stay
    ]

Moved-Step :
    {run_id : String} {user : User} {t : RunState} {db : Store} {r r' : Run} {db' : Store}
    (k : String)
    → Moved run_id user t db r r' db'
    → Step (state_of k db) (state_of k db')
Moved-Step {run_id} {user} {t} {db} {r} {r'} {db'} k m =
    let found : select_run r.id db.runs ≡ some r =
      subst (λ i. select_run i db.runs ≡ some r) (sym (select_run-id run_id db.runs r m.found))
        m.found in
    move-Step db r r' m.event db' k found (rw m.state m.legal) m.row
      (m.event_run, m.event_from, m.event_to ∙ ap some (sym m.state)) m.rows

created-Step :
    (db : Store) (r : Run) (user : User)
    → select_run r.id db.runs ≡ none
    → r.state ≡ draft
    → (db' : Store) (k : String) → db'.runs ≡ db.runs ++ r ∷ []
    → Step (state_of k db) (state_of k db')
unfolding state_of
created-Step db r user fresh start db' k rows =
    let e : RunEvent = record {
      run_id = r.id;
      event_type = "run.created";
      from_state = none;
      to_state = some draft;
      actor_id = some user.id;
      payload = none;
    } in
    let after : state_of k db' ≡ (if r.id == k then some draft else state_of k db) =
      state_of-create db r e fresh start (refl, refl, refl) db' k rows in
    elim (Bool-cases (r.id == k)) [
      | inl mine ↦
          let before : state_of k db ≡ none =
            rw (subst (λ i. select_run i db.runs ≡ none) ((eq_iff r.id k).0 mine) fresh) in
          rw (before, after, mine) made
      | inr other ↦ rw (after, other) stay
    ]

create_run-Step :
    (run_id project_id title : String) (agent_profile engagement_id : Option String)
    (plan : Option Fields) (user : User) (db : Store) {r' : Run} {db' : Store} (k : String)
    → create_run run_id project_id title agent_profile engagement_id plan user db ≡ ok (r', db')
    → Step (state_of k db) (state_of k db')
unfolding create_run record_event
create_run-Step run_id project_id title agent_profile engagement_id plan user db k h =
    let (p, got, h1) = >>=-eq-ok (get_owned_project project_id user db) _ h in
    let (unused, h2) = raise_if-eq-ok (is_some (select_run run_id db.runs)) _ _ _ h1 in
    let (known, h3) = raise_if-eq-ok (not (has_engagement engagement_id db)) _ _ _ h2 in
    subst (λ (n : Run × Store). Step (state_of k db) (state_of k n.1)) (ok-injective h3)
      (created-Step db _ user (none_of_is_some _ unused) refl _ k refl)

route-Step :
    (call : Call) (user : User) (db : Store) {r' : Run} {db' : Store} (k : String)
    → route call user db ≡ ok (r', db')
    → Step (state_of k db) (state_of k db')
unfolding route
route-Step (create i p t a e plan) user db k h = create_run-Step i p t a e plan user db k h
route-Step (transition i s reason) user db k h =
    Moved-Step k (transition_run-Moved i s reason user db h).1
route-Step (cancel i) user db k h = elim (cancel_run-Moved i user db h) [
  | inl left ↦ subst (λ d. Step (state_of k db) (state_of k d)) (sym left.1) stay
  | inr led ↦ Moved-Step k led.1
]
route-Step (approve redis i why) user db k h =
    Moved-Step k (approve_run-Granted redis i why user db h).3.moved
route-Step (reject i why) user db k h = Moved-Step k (reject_run-Moved i why user db h).1

handled-Step :
    (call : Call) (user : User) (db : Store) {r' : Run} {db' : Store} (k : String)
    → handle call user db ≡ ok (r', db')
    → Step (state_of k db) (state_of k db')
unfolding handle
handled-Step call user db k h =
    route-Step call user db k (raise_if-eq-ok (not (within_limits call)) _ _ _ h).1

tables-Step :
    (m : Result (Run × Store)) (db : Store) (k : String)
    → ((r' : Run) (db' : Store) → m ≡ ok (r', db') → Step (state_of k db) (state_of k db'))
    → Step (state_of k db) (state_of k (tables m db))
unfolding tables
tables-Step (ok (r', db')) db k h = h r' db' refl
tables-Step (http_exception s d) db k h = stay

-- Each call of a user, taken or refused, takes each run at most one step along: the run is created in DRAFT where
-- it was not there, or goes by one legal transition, or stays where it is.
pub handle-Step :
    (call : Call) (user : User) (db : Store) (k : String)
    → Step (state_of k db) (state_of k (tables (handle call user db) db))
handle-Step call user db k =
    tables-Step (handle call user db) db k (λ r' db' e. handled-Step call user db k e)

-- The routes refine the life of a run: whatever the tables are and whatever calls are made by any users,
-- the state of each run goes from where it was to where it is by its creation in DRAFT, where it was not
-- there, and by legal transitions alone.
pub serve-Reach :
    (calls : List (User × Call)) (db : Store) (k : String)
    → Reach (state_of k db) (state_of k (serve calls db))
unfolding serve
serve-Reach [] db k = done
serve-Reach ((user, call) ∷ calls) db k =
    then_step (handle-Step call user db k) (serve-Reach calls (tables (handle call user db) db) k)

-- The states that the table has no transition from.
unfoldable pub is_final : Option RunState → Bool
is_final none = false
is_final (some s) = same s completed || same s cancelled

no_transition : (s t : RunState) → is_final (some s) ≡ true → validate_transition s t ≡ false
unfolding is_final validate_transition legal_transitions
no_transition s t final = ground (arith, final)

Step-final : {s t : Option RunState} → Step s t → is_final s ≡ true → t ≡ s
unfolding is_final
Step-final stay final = refl
Step-final made final = cc
Step-final (moved {s} {t} legal) final =
    let no : validate_transition s t ≡ false = no_transition s t final in cc

pub Reach-final : {s t : Option RunState} → Reach s t → is_final s ≡ true → t ≡ s
Reach-final done final = refl
Reach-final (then_step {s} {t} st rest) final =
    let kept : t ≡ s = Step-final st final in Reach-final rest (ap is_final kept ∙ final) ∙ kept

-- A run that is COMPLETED or CANCELLED stays so, whatever calls are made by any users.
pub serve_final :
    (calls : List (User × Call)) (db : Store) (k : String)
    → is_final (state_of k db) ≡ true
    → state_of k (serve calls db) ≡ state_of k db
serve_final calls db k final = Reach-final (serve-Reach calls db k) final
