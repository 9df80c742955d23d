-- ===== src/Server/Runs/Effects.antt =====
-- apps/api/app/routers/runs.py: which run a call of a user moves, and where to.
use morphia.Common.{
  String, ◌≡◌, refl, sym, ap, subst, ◌∙◌, ◌⊎◌, true, not, Option, none, some, [], ◌∷◌, ◌++◌, ◌==◌,
  eq_iff, Bool-cases, inl, inr, is_some, opt_map,
}
use morphia.Common.Json.{Fields}
use morphia.RunState.{RunState, draft, cancelled}
use morphia.Server.States.{validate_transition}
use morphia.Server.Store.{
  User, Run, RunEvent, Store, Result, ok, http_exception, ok-injective, >>=-eq-ok, raise_if-eq-ok,
  select_run, record_event,
}
use morphia.Server.Runs.{get_owned_project, has_engagement, create_run, approval_target}
use morphia.Server.Runs.Transitions.{state_of, select_run-id, state_of-move, state_of-mine}
use morphia.Server.Runs.Moves.{Moved, transition_run-Moved, cancel_run-Moved, reject_run-Moved}
use morphia.Server.Runs.Decisions.{approve_run-Granted}
use morphia.Server.Runs.Consistency.{state_of-create, none_of_is_some}
use morphia.Server.Runs.Calls.{
  Call, create, transition, cancel, approve, reject, within_limits, route, handle, tables,
}
use morphia.Server.Runs.Lifecycle.{Step, handle-Step}

-- The run that a call is about.
abbrev pub run_of : Call → String
run_of (create i p t a e plan) = i
run_of (transition i s why) = i
run_of (cancel i) = i
run_of (approve redis i why) = i
run_of (reject i why) = i

-- Where a call that moves a run takes it to, from the state that it has.
abbrev pub target_of : Call → Option RunState → Option RunState
target_of (create i p t a e plan) s = some draft
target_of (transition i t why) s = some t
target_of (cancel i) s = some cancelled
target_of (approve redis i why) none = none
target_of (approve redis i why) (some s) =
    opt_map (λ (kt : String × RunState). kt.1) (approval_target s)
target_of (reject i why) s = some cancelled

-- What a call may do to the state of the run `k`: nothing, or, to the run that it is about, to take it where the
-- call leads.
abbrev pub Led : Call → (k : String) → Option RunState → Option RunState → Type 0
Led call k s s' = (s' ≡ s) ⊎ ((run_of call ≡ k) × (s' ≡ target_of call s))

Moved-Led :
    (call : Call) {user : User} {t : RunState} {db : Store} {r r' : Run} {db' : Store} (k : String)
    → Moved (run_of call) user t db r r' db'
    → target_of call (some r.state) ≡ some t
    → Led call k (state_of k db) (state_of k db')
Moved-Led call {user} {t} {db} {r} {r'} {db'} k m leads =
    let same : r.id ≡ run_of call = select_run-id (run_of call) db.runs r m.found in
    let found : select_run r.id db.runs ≡ some r =
      subst (λ i. select_run i db.runs ≡ some r) (sym same) m.found in
    let legal : validate_transition r.state r'.state ≡ true = rw m.state m.legal in
    let event : (m.event.run_id ≡ r.id)
        × (m.event.from_state ≡ some r.state)
        × (m.event.to_state ≡ some r'.state) =
      (m.event_run, m.event_from, m.event_to ∙ ap some (sym m.state)) in
    let after = state_of-move db r r' m.event found legal m.row event db' k m.rows in
    elim (Bool-cases (r.id == k)) [
      | inl mine ↦
          let before : state_of k db ≡ some r.state =
            state_of-mine db r r' m.event found legal m.row event k mine in
          inr (
            sym same ∙ (eq_iff r.id k).0 mine,
            (rw mine at after) ∙ ap some m.state ∙ sym (ap (target_of call) before ∙ leads),
          )
      | inr other ↦ inl (rw other at after)
    ]

added-Led :
    (call : Call) (db : Store) (r : Run) (e : RunEvent) (db' : Store) (k : String)
    → select_run r.id db.runs ≡ none
    → r.state ≡ draft
    → (e.run_id ≡ r.id) × (e.from_state ≡ none) × (e.to_state ≡ some draft)
    → db'.runs ≡ db.runs ++ r ∷ []
    → run_of call ≡ r.id
    → target_of call (state_of k db) ≡ some draft
    → Led call k (state_of k db) (state_of k db')
added-Led call db r e db' k fresh start event rows same leads =
    let after = state_of-create db r e fresh start event db' k rows in
    elim (Bool-cases (r.id == k)) [
      | inl mine ↦ inr (same ∙ (eq_iff r.id k).0 mine, (rw mine at after) ∙ sym leads)
      | inr other ↦ inl (rw other at after)
    ]

create_run-Led :
    (run_id project_id title : String) (agent_profile engagement_id : Option String)
    (plan : Option Fields) (user : User) (db : Store) {r' : Run} {db' : Store} (k : String)
    → create_run run_id project_id title agent_profile engagement_id plan user db ≡ ok (r', db')
    → Led
        (create run_id project_id title agent_profile engagement_id plan)
        k
        (state_of k db)
        (state_of k db')
unfolding create_run record_event
create_run-Led run_id project_id title agent_profile engagement_id plan user db k h =
    let (p, got, h1) = >>=-eq-ok (get_owned_project project_id user db) _ h in
    let (unused, h2) = raise_if-eq-ok (is_some (select_run run_id db.runs)) _ _ _ h1 in
    let (known, h3) = raise_if-eq-ok (not (has_engagement engagement_id db)) _ _ _ h2 in
    subst
      (λ (n : Run × Store).
        Led (create run_id project_id title agent_profile engagement_id plan) k (state_of k db)
          (state_of k n.1))
      (ok-injective h3)
      (added-Led (create run_id project_id title agent_profile engagement_id plan) db _
        (record {
          run_id = run_id;
          event_type = "run.created";
          from_state = none;
          to_state = some draft;
          actor_id = some user.id;
          payload = none;
        })
        _ k (none_of_is_some _ unused) refl (refl, refl, refl) refl refl refl)

route-Led :
    (call : Call) (user : User) (db : Store) {r' : Run} {db' : Store} (k : String)
    → route call user db ≡ ok (r', db')
    → Led call k (state_of k db) (state_of k db')
unfolding route
route-Led (create i p t a e plan) user db k h = create_run-Led i p t a e plan user db k h
route-Led (transition i s reason) user db k h =
    Moved-Led (transition i s reason) k (transition_run-Moved i s reason user db h).1 refl
route-Led (cancel i) user db k h = elim (cancel_run-Moved i user db h) [
  | inl left ↦ inl (ap (state_of k) left.1)
  | inr led ↦ Moved-Led (cancel i) k led.1 refl
]
route-Led (approve redis i why) user db k h =
    let granted = (approve_run-Granted redis i why user db h).3 in
    Moved-Led (approve redis i why) k granted.moved
      (ap (opt_map (λ (kt : String × RunState). kt.1)) granted.awaited)
route-Led (reject i why) user db k h =
    Moved-Led (reject i why) k (reject_run-Moved i why user db h).1 refl

tables-Led :
    (call : Call) (m : Result (Run × Store)) (db : Store) (k : String)
    → ((r' : Run) (db' : Store) → m ≡ ok (r', db') → Led call k (state_of k db) (state_of k db'))
    → Led call k (state_of k db) (state_of k (tables m db))
unfolding tables
tables-Led call (ok (r', db')) db k h = h r' db' refl
tables-Led call (http_exception s d) db k h = inl refl

-- Each call of a user, taken or refused, leaves the state of every run but the one that it is about; and that one
-- stays where it is, or goes where the call leads, in one step: it is created in DRAFT where it was not
-- there, or goes by a legal transition, on a transition to the state that is asked for, on a cancellation
-- or a rejection to CANCELLED, and on an approval to what the run awaits approval for.
pub handle-Led :
    (call : Call) (user : User) (db : Store) (k : String)
    → let db' = tables (handle call user db) db in
      Step (state_of k db) (state_of k db') × Led call k (state_of k db) (state_of k db')
unfolding handle
handle-Led call user db k = (
  handle-Step call user db k,
  tables-Led call (handle call user db) db k
      (λ r' db' e. route-Led call user db k (raise_if-eq-ok (not (within_limits call)) _ _ _ e).1),
)
