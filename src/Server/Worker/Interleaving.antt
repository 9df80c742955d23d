-- ===== src/Server/Worker/Interleaving.antt =====
-- apps/api/app/routers/runs.py and worker.py: the tables after any calls of users and workers, in any order.
use morphia.Common.{
  String, ◌≡◌, Bool, true, false, not, Option, none, some, List, [], ◌∷◌, All, Bool-cases, inl, inr,
}
use morphia.Common.Json.{Json}
use morphia.RunState.{RunState}
use morphia.Server.Store.{User, Project, Engagement, Store}
use morphia.Server.Tables.{ScopeRule, Tables}
use morphia.Server.Runs.Transitions.{IsConsistent, state_of, replay}
use morphia.Server.Runs.Justified.{IsOwners, IsWritten, IsJustified}
use morphia.Server.Runs.Justified.Routes.{serve-IsJustified}
use morphia.Server.Runs.Lifecycle.{Reach, done, then_step, serve-Reach, is_final, Reach-final}
use morphia.Server.Runs.Calls.{Call, serve, empty, serve-IsConsistent, empty-IsConsistent}
use morphia.Server.Scope.{Environment}
use morphia.Server.Reply.{Reply, ok, http_exception, committed_exception, raise_if, ◌>>◌}
use morphia.Server.Worker.Calls.{
  WorkerCall, claim, submit, worker_transition, after, Request, by_user, by_worker, handle_worker,
  is_authorized, handle_request, serve_requests, fresh,
}
use morphia.Server.Worker.{claim_run, submit_step, worker_transition_run}
use morphia.Server.Worker.Schemas.{
  claim_fits, step_fits, transition_fits, post_claim, post_step, post_transition,
}
use morphia.Server.Worker.Evolution.{
  Evolution, ended, Evolution-IsConsistent, Evolution-IsJustified, Evolution-Reach,
}
use morphia.Server.Worker.Routes.{
  Leaves, claim_run-Leaves, submit_step-Leaves, worker_transition_run-Leaves,
}

after-Evolution :
    {A : Type 0} (m : Reply (A × Tables)) (t : Tables)
    → Leaves t.store m
    → Evolution t.store (after m t).store
unfolding after
after-Evolution (ok (a, t')) t led = led
after-Evolution (http_exception c d) t led = ended
after-Evolution (committed_exception c d t') t led = led

-- A body that is refused changes nothing.
checked-Evolution :
    {A : Type 0} (refused : Bool) (m : Reply (A × Tables)) (t : Tables)
    → Leaves t.store m
    → Evolution t.store (after (raise_if refused 422 "" >> m) t).store
unfolding after
checked-Evolution true m t led = ended
checked-Evolution false m t led = after-Evolution m t led

Reach-append : {a b c : Option RunState} → Reach a b → Reach b c → Reach a c
Reach-append done q = q
Reach-append (then_step st rest) q = then_step st (Reach-append rest q)

module _ (env : Environment) (repr : Json → String) (secret : String) where
  handle_worker-Evolution :
      (call : WorkerCall) (t : Tables)
      → Evolution t.store (handle_worker env repr secret call t).store
  unfolding handle_worker post_claim post_step post_transition
  handle_worker-Evolution (claim i w) t =
      checked-Evolution (not (claim_fits w)) (claim_run env repr i w t) t
        (claim_run-Leaves env repr i w t)
  handle_worker-Evolution (submit k i b) t =
      checked-Evolution (not (step_fits b)) (submit_step k i b t) t (submit_step-Leaves k i b t)
  handle_worker-Evolution (worker_transition i w s why) t =
      checked-Evolution (not (transition_fits w why)) (worker_transition_run i w s why t) t
        (worker_transition_run-Leaves i w s why t)

  -- A property of the tables of runs that calls of users keep, and moves of a worker too.
  module _ (P : Store → Type 0)
      (user_keeps : (calls : List (User × Call)) (db : Store) → P db → P (serve calls db))
      (worker_keeps : (db db' : Store) → Evolution db db' → P db → P db') where
    handle_request_keeps :
        (r : Request) (t : Tables) → P t.store → P (handle_request env repr secret r t).store
    unfolding handle_request serve
    handle_request_keeps (by_user user call) t p = user_keeps ((user, call) ∷ []) t.store p
    handle_request_keeps (by_worker provided call) t p =
        elim (Bool-cases (is_authorized env repr secret provided)) [
          | inl known ↦
              rw (known, handle_request)
                (worker_keeps t.store (handle_worker env repr secret call t).store
                  (handle_worker-Evolution call t) p)
          | inr unknown ↦ rw (unknown, handle_request) p
        ]

    serve_requests_keeps :
        (rs : List Request) (t : Tables) → P t.store → P (serve_requests env repr secret rs t).store
    unfolding serve_requests
    serve_requests_keeps [] t p = p
    serve_requests_keeps (r ∷ rs) t p =
        serve_requests_keeps rs (handle_request env repr secret r t) (handle_request_keeps r t p)

-- After any calls of users and workers on a fresh deployment, in any order, the timeline of every run begins
-- with its creation in DRAFT, goes on by legal transitions alone, each from the state that the one before
-- led to, and ends in the state that the run's row holds.
pub serve_requests-joined :
    (env : Environment) (repr : Json → String) (secret : String) (projects : List Project)
    (engagements : List Engagement) (scope_rules : List ScopeRule) (rs : List Request)
    (run_id : String)
    → let db = (serve_requests env repr secret rs (fresh projects engagements scope_rules)).store in
      replay run_id none db.events ≡ some (state_of run_id db)
unfolding fresh
serve_requests-joined env repr secret projects engagements scope_rules rs run_id =
    (serve_requests_keeps env repr secret IsConsistent serve-IsConsistent
        (λ db db' led c. Evolution-IsConsistent led c) rs (fresh projects engagements scope_rules)
        (empty-IsConsistent projects engagements)).joined
      run_id

-- After any calls of users and workers on a fresh deployment, in any order, every run was created by the owner
-- of its project, and every decision, an approval or a rejection, was made by the user who created the run,
-- with a justification of at least ten characters without the white space around it.
pub serve_requests-decided :
    (env : Environment) (repr : Json → String) (secret : String) (projects : List Project)
    (engagements : List Engagement) (scope_rules : List ScopeRule) (rs : List Request)
    → let db = (serve_requests env repr secret rs (fresh projects engagements scope_rules)).store in
      All (IsOwners db.projects) db.runs × All (IsWritten db.runs) db.approvals
unfolding fresh empty
serve_requests-decided env repr secret projects engagements scope_rules rs =
    let j =
      serve_requests_keeps env repr secret IsJustified serve-IsJustified
        (λ db db' led c. Evolution-IsJustified led c) rs (fresh projects engagements scope_rules)
        (record { rows = tt; decisions = tt }) in
    (j.rows, j.decisions)

-- The routes refine the life of a run: whatever the tables are and whatever calls are made by users and by
-- workers, in any order, the state of each run goes from where it was to where it is by its creation in
-- DRAFT, where it was not there, and by legal transitions alone.
pub serve_requests-Reach :
    (env : Environment) (repr : Json → String) (secret : String) (rs : List Request) (t : Tables)
    (run_id : String)
    → Reach (state_of run_id t.store) (state_of run_id (serve_requests env repr secret rs t).store)
serve_requests-Reach env repr secret rs t run_id =
    serve_requests_keeps env repr secret
      (λ db. Reach (state_of run_id t.store) (state_of run_id db))
      (λ calls db led. Reach-append led (serve-Reach calls db run_id))
      (λ db db' moved led. Reach-append led (Evolution-Reach run_id moved)) rs t done

-- A run that is COMPLETED or CANCELLED stays so, whatever calls are made by users and by workers.
pub serve_requests_final :
    (env : Environment) (repr : Json → String) (secret : String) (rs : List Request) (t : Tables)
    (run_id : String)
    → is_final (state_of run_id t.store) ≡ true
    → state_of run_id (serve_requests env repr secret rs t).store ≡ state_of run_id t.store
serve_requests_final env repr secret rs t run_id final =
    Reach-final (serve_requests-Reach env repr secret rs t run_id) final
