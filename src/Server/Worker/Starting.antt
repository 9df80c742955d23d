-- ===== src/Server/Worker/Starting.antt =====
-- apps/api/app/routers/worker.py: the row that a route of the worker works on, and how `claim_run` starts a run.
use morphia.Common.{
  false, String, ◌≡◌, refl, sym, ap, subst, true, ◌||◌, none, some, List, ◌⊎◌, arith, eq_refl,
  Bool-cases, Option-cases, inl, inr,
}
use morphia.RunState.{queued, running, same, eq_of_same}
use morphia.Server.States.{validate_transition, legal_transitions}
use morphia.Server.Store.{Run, Store, select_run, write_run, record_event}
use morphia.Server.Runs.{set_state}
use morphia.Server.Runs.Transitions.{select_run-id, select_run-write_run}
use morphia.Server.Tables.{Tables}
use morphia.Server.Scope.{Environment, validate_target, write_audit, run_checks}
use morphia.Server.Scope.Laws.{Check-cases}
use morphia.Server.Reply.{Reply, ok, http_exception, committed_exception}
use morphia.Server.Worker.{get_run, start, move_run}
use morphia.Server.Worker.Evolution.{Evolves, kept, moves, Evolution, ended, and_then}

-- The row stands in the tables.
abbrev pub Stands : Run → Store → Type 0
Stands r db = select_run r.id db.runs ≡ some r

-- Another row with the same key is found once it is written.
pub select_run-write_run_self :
    (r r' : Run) (rs : List Run)
    → select_run r.id rs ≡ some r
    → r'.id ≡ r.id
    → select_run r'.id (write_run r' rs) ≡ some r'
select_run-write_run_self r r' rs found row =
    rw (select_run-write_run r'.id r' rs, eq_refl r'.id, row, found) refl

-- A run that was started: its row is now running, and stands in the tables.
abbrev pub Starts : Run → Store → Reply (Run × Store) → Type 0
Starts r db (ok (r', db')) =
    Evolution db db'
    × Stands r' db'
    × (r' ≡ record r { state = running })
    × ((same r.state queued || same r.state running) ≡ true)
Starts r db (http_exception c d) =
    (c ≡ 409) × ((same r.state queued || same r.state running) ≡ false)
Starts r db (committed_exception c d t) = ⊥

already_running : (r : Run) → r.state ≡ running → r ≡ record r { state = running }
already_running r on = ap (λ s. record r { state = s }) on

pub start-Starts :
    (r : Run) (worker_id : String) (db : Store) → Stands r db → Starts r db (start r worker_id db)
unfolding start move_run set_state record_event validate_transition legal_transitions
start-Starts r worker_id db found = elim (Bool-cases (same r.state queued)) [
  | inl waiting ↦
      let was : r.state ≡ queued = eq_of_same r.state queued waiting in
      rw waiting (
        and_then
            (moves r (record r { state = running }) _ refl refl refl refl found (rw was refl)
              (refl, refl, refl) (refl, refl, refl))
            ended,
        select_run-write_run_self r (record r { state = running }) db.runs found refl,
        refl,
        ground (arith, waiting),
      )
  | inr otherwise ↦ elim (Bool-cases (same r.state running)) [
    | inl on ↦
        rw (otherwise, on)
          (ended, found, already_running r (eq_of_same r.state running on), ground (arith, on))
    | inr off ↦ rw (otherwise, off) (refl, ground (arith, otherwise, off))
  ]
]

-- The validator only writes to the audit table.
pub validate_target-kept :
    (env : Environment) (engagement_id target action actor : String) (t : Tables)
    → let t' = (validate_target env engagement_id target action actor t).1 in
      Evolves t.store t'.store × (t'.store.runs ≡ t.store.runs)
unfolding validate_target write_audit
validate_target-kept env engagement_id target action actor t =
    elim (Check-cases (run_checks env engagement_id target action actor t)) [
      | inl through ↦ rw (through, validate_target) (kept refl refl refl refl, refl)
      | inr (reason, checks, stopped) ↦
          rw (stopped, validate_target) (kept refl refl refl refl, refl)
    ]

pub get_run-cases :
    (run_id : String) (db : Store)
    → ((select_run run_id db.runs ≡ none)
        × (get_run run_id db ≡ http_exception 404 "Run not found."))
      ⊎ ((r : Run) × (get_run run_id db ≡ ok r)
          × Stands r db
          × (select_run run_id db.runs ≡ some r))
unfolding get_run
get_run-cases run_id db = elim (Option-cases (select_run run_id db.runs)) [
  | inl missing ↦ inl (missing, rw (missing, get_run) refl)
  | inr (r, found) ↦ inr (
    r,
    rw (found, get_run) refl,
    subst (λ i. select_run i db.runs ≡ some r) (sym (select_run-id run_id db.runs r found)) found,
    found,
  )
]
