-- ===== src/Server/Worker/Calls.antt =====
-- apps/api/app/routers/runs.py and worker.py: the calls of users and of workers as one list, in any order.
use morphia.Common.{String, Bool, List, [], ◌∷◌}
use morphia.Common.Json.{Json}
use morphia.RunState.{RunState}
use morphia.Server.Store.{User, Project, Engagement}
use morphia.Server.Runs.Calls.{Call, handle, tables, empty}
use morphia.Server.Tables.{ScopeRule, Tables}
use morphia.Server.Scope.{Environment}
use morphia.Server.Reply.{Reply, ok, http_exception, committed_exception}
use morphia.Server.Worker.{SubmitStep, require_worker_auth}
use morphia.Server.Worker.Schemas.{post_claim, post_step, post_transition}

pub data WorkerCall : Type 0 where
  claim : (run_id worker_id : String) → WorkerCall
  submit : (step_id run_id : String) → SubmitStep → WorkerCall
  worker_transition : (run_id worker_id : String) → RunState → (reason : String) → WorkerCall

-- The tables after a call: what was written and not committed before an exception is gone.
unfoldable pub after {ℓ} : {A : Type ℓ} → Reply (A × Tables) → Tables → Tables
after (ok (a, t')) t = t'
after (http_exception c d) t = t
after (committed_exception c d t') t = t'

-- A call by a user, or one by a worker with what it sends as the secret.
pub data Request : Type 0 where
  by_user : User → Call → Request
  by_worker : (provided : String) → WorkerCall → Request

module _ (env : Environment) (repr : Json → String) (secret : String) where
  unfoldable pub handle_worker : WorkerCall → Tables → Tables
  unfolding post_claim post_step post_transition after
  handle_worker (claim i w) t = after (post_claim env repr i w t) t
  handle_worker (submit k i b) t = after (post_step k i b t) t
  handle_worker (worker_transition i w s why) t = after (post_transition i w s why t) t

  unfoldable pub is_authorized : String → Bool
  unfolding require_worker_auth
  is_authorized provided = elim (require_worker_auth secret provided) [
    | ok _ ↦ Bool.true
    | http_exception c d ↦ Bool.false
    | committed_exception c d t ↦ Bool.false
  ]

  unfoldable pub handle_request : Request → Tables → Tables
  unfolding handle tables handle_worker is_authorized
  handle_request (by_user user call) t = record t {
    store = tables (handle call user t.store) t.store;
  }
  handle_request (by_worker provided call) t = elim (is_authorized provided) [
    | Bool.true ↦ handle_worker call t
    | Bool.false ↦ t
  ]

  unfoldable pub serve_requests : List Request → Tables → Tables
  unfolding handle_request
  serve_requests [] t = t
  serve_requests (r ∷ rs) t = serve_requests rs (handle_request r t)

-- A fresh deployment: projects, engagements and scope rules, and no run yet.
unfoldable pub fresh : List Project → List Engagement → List ScopeRule → Tables
unfolding empty
fresh projects engagements scope_rules = record {
  store = empty projects engagements;
  scope_rules = scope_rules;
  steps = [];
}
