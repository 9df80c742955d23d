-- ===== src/Server/Runs/Justified/Routes.antt =====
-- apps/api/app/routers/runs.py: each route that writes, and any sequence of calls, keeps the decisions
-- justified.
use morphia.Common.{
  String, ◌≡◌, refl, subst, Bool, false, not, ◌&&◌, Option, List, [], ◌∷◌, All, All-append, All-map,
  ltb, size, strip, ◌==◌, eq_iff, Bool-cases, inl, inr, is_some,
}
use morphia.Common.Json.{Fields}
use morphia.RunState.{RunState, cancelled, has}
use morphia.Server.States.{validate_transition, terminal_states}
use morphia.Server.Store.{
  User, Project, Engagement, Run, Store, Result, ok, http_exception, ok-injective, >>=-eq-ok,
  raise_if-eq-ok, select_run, record_event,
}
use morphia.Server.Runs.{
  get_owned_project, get_owned_run, has_engagement, create_run, transition_run, cancel_run,
  cancel_live, awaiting_target, grant, approve_run, reject_run,
}
use morphia.Server.Runs.Moves.{get_owned_project-owns}
use morphia.Server.Runs.Calls.{
  Call, create, transition, cancel, approve, reject, within_limits, route, handle, tables, serve,
  empty,
}
use morphia.Server.Runs.Justified.{
  IsOwners, IsWritten, IsJustified, found-IsOwners, set_state-IsJustified, IsWritten-append,
  record_decision-IsJustified, enqueue-IsJustified,
}

module _ {db' : Store} {r' : Run} (user : User) (db : Store) (j : IsJustified db) where
  ended : (m : Run × Store) → ok m ≡ ok (r', db') → IsJustified m.1 → IsJustified db'
  ended m e k = subst (λ (n : Run × Store). IsJustified n.1) (ok-injective e) k

  create_run-IsJustified :
      (run_id project_id title : String) (agent_profile engagement_id : Option String)
      (plan : Option Fields)
      → create_run run_id project_id title agent_profile engagement_id plan user db ≡ ok (r', db')
      → IsJustified db'
  unfolding create_run record_event IsOwners
  create_run-IsJustified run_id project_id title agent_profile engagement_id plan h =
      let (p, got, h1) = >>=-eq-ok (get_owned_project project_id user db) _ h in
      let (unused, h2) = raise_if-eq-ok (is_some (select_run run_id db.runs)) _ _ _ h1 in
      let (known, h3) = raise_if-eq-ok (not (has_engagement engagement_id db)) _ _ _ h2 in
      ended _ h3 (record {
        rows =
            All-append (IsOwners db.projects) db.runs _ j.rows
              (get_owned_project-owns project_id user db got, tt);
        decisions = All-map (IsWritten-append _ db.runs) db.approvals j.decisions;
      })

  transition_run-IsJustified :
      (run_id : String) (t : RunState) (reason : String)
      → transition_run run_id t reason user db ≡ ok (r', db')
      → IsJustified db'
  unfolding transition_run IsOwners
  transition_run-IsJustified run_id t reason h =
      let (r, got, h1) = >>=-eq-ok (get_owned_run run_id user db) _ h in
      let (checked, h2) = raise_if-eq-ok (not (validate_transition r.state t)) _ _ _ h1 in
      let (mine, own, here) = found-IsOwners run_id user db r got j in
      ended _ h2 (set_state-IsJustified r _ _ _ user db mine here (refl, refl) j)

  cancel_run-IsJustified :
      (run_id : String) → cancel_run run_id user db ≡ ok (r', db') → IsJustified db'
  unfolding cancel_run cancel_live IsOwners
  cancel_run-IsJustified run_id h =
      let (r, got, h1) = >>=-eq-ok (get_owned_run run_id user db) _ h in
      elim (Bool-cases (has terminal_states r.state)) [
        | inl done ↦ ended _ (rw done at h1) j
        | inr live ↦
            let (checked, h2) =
              raise_if-eq-ok (not (validate_transition r.state cancelled)) _ _ _ (rw live at h1) in
            let (mine, own, here) = found-IsOwners run_id user db r got j in
            ended _ h2 (set_state-IsJustified r _ _ _ user db mine here (refl, refl) j)
      ]

  approve_run-IsJustified :
      (redis_up : Bool) (run_id why : String)
      → approve_run redis_up run_id why user db ≡ ok (r', db')
      → IsJustified db'
  unfolding approve_run grant
  approve_run-IsJustified redis_up run_id why h =
      let (r, got, h1) = >>=-eq-ok (get_owned_run run_id user db) _ h in
      let (excused, h2) =
        raise_if-eq-ok (r.created_by == user.id && ltb (size (strip why)) 10) _ _ _ h1 in
      let (target, awaits, h3) = >>=-eq-ok (awaiting_target r.state) _ h2 in
      let (checked, h4) = raise_if-eq-ok (not (validate_transition r.state target.1)) _ _ _ h3 in
      let own : r.created_by ≡ user.id = (found-IsOwners run_id user db r got j).1 in
      let long : ltb (size (strip why)) 10 ≡ false =
        rw ((eq_iff r.created_by user.id).1 own) at excused in
      ended _ h4 (
        enqueue-IsJustified _ redis_up r.id _ (
          record_decision-IsJustified run_id user db r "approved" target.0 why target.1 _ got long
            j))

  reject_run-IsJustified :
      (run_id why : String) → reject_run run_id why user db ≡ ok (r', db') → IsJustified db'
  unfolding reject_run
  reject_run-IsJustified run_id why h =
      let (r, got, h1) = >>=-eq-ok (get_owned_run run_id user db) _ h in
      let (written, h2) = raise_if-eq-ok _ _ _ _ h1 in
      let (target, awaits, h3) = >>=-eq-ok (awaiting_target r.state) _ h2 in
      let (checked, h4) = raise_if-eq-ok (not (validate_transition r.state cancelled)) _ _ _ h3 in
      ended _ h4 (record_decision-IsJustified run_id user db r _ _ why cancelled _ got written j)

  route-IsJustified : (call : Call) → route call user db ≡ ok (r', db') → IsJustified db'
  unfolding route
  route-IsJustified (create i p t a e plan) h = create_run-IsJustified i p t a e plan h
  route-IsJustified (transition i s reason) h = transition_run-IsJustified i s reason h
  route-IsJustified (cancel i) h = cancel_run-IsJustified i h
  route-IsJustified (approve redis i why) h = approve_run-IsJustified redis i why h
  route-IsJustified (reject i why) h = reject_run-IsJustified i why h

  handle-IsJustified : (call : Call) → handle call user db ≡ ok (r', db') → IsJustified db'
  unfolding handle
  handle-IsJustified call h =
      route-IsJustified call (raise_if-eq-ok (not (within_limits call)) _ _ _ h).1

tables-IsJustified :
    (m : Result (Run × Store)) (db : Store)
    → ((r' : Run) (db' : Store) → m ≡ ok (r', db') → IsJustified db')
    → IsJustified db
    → IsJustified (tables m db)
unfolding tables
tables-IsJustified (ok (r', db')) db h j = h r' db' refl
tables-IsJustified (http_exception s d) db h j = j

pub serve-IsJustified :
    (calls : List (User × Call)) (db : Store) → IsJustified db → IsJustified (serve calls db)
unfolding serve
serve-IsJustified [] db j = j
serve-IsJustified ((user, call) ∷ calls) db j =
    serve-IsJustified calls (tables (handle call user db) db) (
      tables-IsJustified (handle call user db) db (λ r' db' e. handle-IsJustified user db j call e)
        j)

-- After any calls by any users on a fresh deployment, every run was created by the owner of its project,
-- and every decision, an approval or a rejection, was made by the user who created the run, with a
-- justification of at least ten characters without the white space around it.
pub serve-decided :
    (projects : List Project) (engagements : List Engagement) (calls : List (User × Call))
    → let db = serve calls (empty projects engagements) in
      All (IsOwners db.projects) db.runs × All (IsWritten db.runs) db.approvals
unfolding empty
serve-decided projects engagements calls =
    let j =
      serve-IsJustified calls (empty projects engagements) (record { rows = tt; decisions = tt }) in
    (j.rows, j.decisions)
