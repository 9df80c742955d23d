-- ===== src/Server/Runs/Calls.antt =====
-- apps/api/app/routers/runs.py: the calls of the routes that write, as one list, and the tables after
-- a sequence of them by any users.
use morphia.Common.{
  ℕ, String, ◌≡◌, refl, sym, Bool, true, not, ◌&&◌, leb, size, Option, none, some, List, [], ◌∷◌,
  inl, inr, subst,
}
use morphia.Common.Json.{Fields}
use morphia.RunState.{RunState}
use morphia.Server.Store.{
  User, Project, Engagement, Run, Store, Result, ok, http_exception, select_run, raise_if,
  raise_if-eq-ok, ◌>>◌,
}
use morphia.Server.Runs.{create_run, transition_run, cancel_run, approve_run, reject_run}
use morphia.Server.Runs.Transitions.{IsConsistent, state_of, replay}
use morphia.Server.Runs.Moves.{transition_run-Moved, cancel_run-Moved, reject_run-Moved}
use morphia.Server.Runs.Decisions.{approve_run-Granted}
use morphia.Server.Runs.Consistency.{Moved-IsConsistent, create_run-IsConsistent}

pub data Call : Type 0 where
  create :
      (run_id project_id title : String) (agent_profile engagement_id : Option String)
      (plan : Option Fields)
      → Call
  transition : (run_id : String) → RunState → (reason : String) → Call
  cancel : (run_id : String) → Call
  approve : (redis_up : Bool) (run_id justification : String) → Call
  reject : (run_id justification : String) → Call

unfoldable pub within : ℕ → Option String → Bool
within n none = true
within n (some text) = leb (size text) n

-- The texts of a body are as short as `CreateRunRequest`, `TransitionRequest` and `DecisionRequest` want them.
unfoldable pub within_limits : Call → Bool
unfolding within
within_limits (create i p title a e plan) = leb (size title) 300 && (within 100 a && within 36 e)
within_limits (transition i s reason) = leb (size reason) 2000
within_limits (cancel i) = true
within_limits (approve redis i why) = leb (size why) 2000
within_limits (reject i why) = leb (size why) 2000

-- The route of a call.
unfoldable pub route : Call → User → Store → Result (Run × Store)
route (create i p t a e plan) user db = create_run i p t a e plan user db
route (transition i s reason) user db = transition_run i s reason user db
route (cancel i) user db = cancel_run i user db
route (approve redis i why) user db = approve_run redis i why user db
route (reject i why) user db = reject_run i why user db

-- A call: a body with a text that is too long never comes to its route. The list of problems that FastAPI answers
-- with is left out.
unfoldable pub handle : Call → User → Store → Result (Run × Store)
unfolding within_limits route
handle call user db = do raise_if (not (within_limits call)) 422 ""; route call user db

-- The tables after a call: an exception leaves them as they were.
unfoldable pub tables : Result (Run × Store) → Store → Store
tables (ok (r, db')) db = db'
tables (http_exception c d) db = db

unfoldable pub serve : List (User × Call) → Store → Store
unfolding handle tables
serve [] db = db
serve ((user, call) ∷ calls) db = serve calls (tables (handle call user db) db)

-- The tables of a fresh deployment: projects and engagements, and nothing else.
unfoldable pub empty : List Project → List Engagement → Store
empty projects engagements = record {
  projects = projects;
  engagements = engagements;
  runs = [];
  events = [];
  approvals = [];
  audit = [];
  jobs = [];
}

route-IsConsistent :
    (call : Call) (user : User) (db : Store) {r' : Run} {db' : Store}
    → route call user db ≡ ok (r', db')
    → IsConsistent db
    → IsConsistent db'
unfolding route
route-IsConsistent (create i p t a e plan) user db h c =
    create_run-IsConsistent i p t a e plan user db h c
route-IsConsistent (transition i s reason) user db h c =
    Moved-IsConsistent (transition_run-Moved i s reason user db h).1 c
route-IsConsistent (cancel i) user db h c = elim (cancel_run-Moved i user db h) [
  | inl same ↦ subst IsConsistent (sym same.1) c
  | inr moved ↦ Moved-IsConsistent moved.1 c
]
route-IsConsistent (approve redis i why) user db h c =
    Moved-IsConsistent (approve_run-Granted redis i why user db h).3.moved c
route-IsConsistent (reject i why) user db h c =
    Moved-IsConsistent (reject_run-Moved i why user db h).1 c

handle-IsConsistent :
    (call : Call) (user : User) (db : Store) {r' : Run} {db' : Store}
    → handle call user db ≡ ok (r', db')
    → IsConsistent db
    → IsConsistent db'
unfolding handle
handle-IsConsistent call user db h c =
    route-IsConsistent call user db (raise_if-eq-ok (not (within_limits call)) _ _ _ h).1 c

tables-IsConsistent :
    (m : Result (Run × Store)) (db : Store)
    → ((r' : Run) (db' : Store) → m ≡ ok (r', db') → IsConsistent db')
    → IsConsistent db
    → IsConsistent (tables m db)
unfolding tables
tables-IsConsistent (ok (r', db')) db h c = h r' db' refl
tables-IsConsistent (http_exception s d) db h c = c

pub serve-IsConsistent :
    (calls : List (User × Call)) (db : Store) → IsConsistent db → IsConsistent (serve calls db)
unfolding serve
serve-IsConsistent [] db c = c
serve-IsConsistent ((user, call) ∷ calls) db c =
    serve-IsConsistent calls (tables (handle call user db) db) (
      tables-IsConsistent (handle call user db) db
        (λ r' db' e. handle-IsConsistent call user db e c) c)

pub empty-IsConsistent :
    (projects : List Project) (engagements : List Engagement)
    → IsConsistent (empty projects engagements)
unfolding empty state_of replay select_run
empty-IsConsistent projects engagements = record { joined = λ k. refl }

-- After any calls by any users on a fresh deployment, the timeline of every run begins with its creation
-- in DRAFT, goes on by legal transitions alone, each from the state that the one before led to, and
-- ends in the state that the run's row holds.
pub serve-joined :
    (projects : List Project) (engagements : List Engagement) (calls : List (User × Call))
    (run_id : String)
    → let db = serve calls (empty projects engagements) in
      replay run_id none db.events ≡ some (state_of run_id db)
serve-joined projects engagements calls =
    (serve-IsConsistent calls (empty projects engagements)
      (empty-IsConsistent projects engagements)).joined
