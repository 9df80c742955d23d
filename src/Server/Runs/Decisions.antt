-- ===== src/Server/Runs/Decisions.antt =====
-- apps/api/app/routers/runs.py: what an approval writes, and when it is refused.
use morphia.Common.{
  String, ◌≡◌, subst, Bool, true, false, not, ◌&&◌, some, [], ◌∷◌, ◌++◌, arith, ◌==◌, ltb, size,
  strip, if◌then◌else◌,
}
use morphia.RunState.{RunState, queued, same}
use morphia.Server.States.{validate_transition}
use morphia.Server.Store.{
  User, Run, record_event, Store, ok, ok-injective, >>=-eq-ok, raise_if-eq-ok,
}
use morphia.Server.Runs.{
  get_owned_run, set_state, awaiting_target, approval_target, record_decision, approval_metadata,
  grant, approve_run, enqueue_run_job,
}
use morphia.Server.Runs.Moves.{Moved, Moved-cong, record_decision-Moved, true_of_not}

-- A decision that let the run go on.
pub record Granted (redis_up : Bool) (run_id why : String) (user : User) (kind : String)
    (t : RunState) (db : Store) (before r' : Run) (db' : Store) : Type 0 where
  pub moved : Moved run_id user t db before r' db'
  pub awaited : approval_target before.state ≡ some (kind, t)
  pub excused : (before.created_by == user.id && ltb (size (strip why)) 10) ≡ false
  pub recorded :
      db'.approvals
      ≡ db.approvals
        ++ record {
          run_id = before.id;
          approval_type = kind;
          status = "approved";
          requested_by = before.created_by;
          decided_by = some user.id;
          justification = why;
        }
          ∷ []
  pub queued_job : db'.jobs ≡ (if same t queued && redis_up then before.id ∷ db.jobs else db.jobs)

awaiting_target-eq-ok :
    (s : RunState) (kind : String) (t : RunState)
    → awaiting_target s ≡ ok (kind, t)
    → approval_target s ≡ some (kind, t)
unfolding awaiting_target
awaiting_target-eq-ok s kind t h = ground arith

-- What queueing the job of a run that is now queued leaves alone.
enqueued :
    (t : RunState) (redis_up : Bool) (k : String) (db : Store)
    → let db' = if same t queued then enqueue_run_job redis_up k db else db in
      (db'.runs ≡ db.runs)
      × (db'.events ≡ db.events)
      × (db'.approvals ≡ db.approvals)
      × (db'.jobs ≡ (if same t queued && redis_up then k ∷ db.jobs else db.jobs))
unfolding enqueue_run_job
enqueued t redis_up k db = ground arith

module _ (run_id why : String) (user : User) (db : Store) (r : Run) (kind : String) (t : RunState)
    (got : get_owned_run run_id user db ≡ ok r) (legal : validate_transition r.state t ≡ true)
    (awaits : approval_target r.state ≡ some (kind, t))
    (excused : (r.created_by == user.id && ltb (size (strip why)) 10) ≡ false) where
  grant-Granted :
      (redis_up : Bool)
      → let (r', db') = grant redis_up kind t why r user db in
        Granted redis_up run_id why user kind t db r r' db'
  unfolding grant record_decision set_state record_event
  grant-Granted redis_up =
      let q = enqueued t redis_up r.id _ in
      record {
        moved =
            Moved-cong _
              (record_decision-Moved run_id user db r "approved" kind why t
                (approval_metadata kind t r user) got legal)
              q.0 q.1;
        awaited = awaits;
        excused = excused;
        recorded = q.2;
        queued_job = q.3;
      }

pub approve_run-Granted :
    (redis_up : Bool) (run_id why : String) (user : User) (db : Store) {r' : Run} {db' : Store}
    → approve_run redis_up run_id why user db ≡ ok (r', db')
    → (kind : String) × (t : RunState) × (r : Run) × Granted redis_up run_id why user kind t db r r'
        db'
unfolding approve_run
approve_run-Granted redis_up run_id why user db h =
    let (r, got, h1) = >>=-eq-ok (get_owned_run run_id user db) _ h in
    let (excused, h2) = raise_if-eq-ok _ _ _ _ h1 in
    let (target, awaits, h3) = >>=-eq-ok (awaiting_target r.state) _ h2 in
    let (checked, h4) = raise_if-eq-ok (not (validate_transition r.state target.1)) _ _ _ h3 in
    let granted =
      grant-Granted run_id why user db r target.0 target.1 got (true_of_not _ checked)
        (awaiting_target-eq-ok r.state target.0 target.1 awaits) excused redis_up in
    (
      target.0,
      target.1,
      r,
      subst (λ (n : Run × Store). Granted redis_up run_id why user target.0 target.1 db r n.0 n.1)
          (ok-injective h4) granted,
    )
