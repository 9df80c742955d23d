-- ===== src/Server/Runs/Justified.antt =====
-- apps/api/app/routers/runs.py: who decides on a run, and with what justification.
pub mod Routes
use morphia.Common.{
  String, ◌≡◌, refl, sym, ap, subst, ◌∙◌, Bool, true, false, not, ◌&&◌, Option, none, some, List,
  [], ◌∷◌, ◌++◌, All, All-append, All-map, opt_map, ltb, size, strip, ◌==◌, eq_iff, Bool-cases, inl,
  inr, is_some, if◌then◌else◌,
}
use morphia.Common.Json.{Fields}
use morphia.RunState.{RunState, cancelled, has}
use morphia.Server.States.{validate_transition, terminal_states}
use morphia.Server.Store.{
  User, Project, Run, ApprovalRequest, Store, Result, ok, http_exception, ok-injective, >>=-eq-ok,
  raise_if-eq-ok, select_run, select_project, write_run, record_event,
}
use morphia.Server.Runs.{
  owns, get_owned_project, get_owned_run, set_state, create_run, transition_run, cancel_run,
  cancel_live, awaiting_target, record_decision, grant, enqueue_run_job, approve_run, reject_run,
}
use morphia.Server.Runs.Transitions.{select_run-id, select_run-write_run}
use morphia.Server.Runs.Moves.{get_owned_run-found, get_owned_project-owns}
use morphia.Server.Runs.Calls.{
  Call, create, transition, cancel, approve, reject, handle, tables, serve, empty,
}

-- The run was created by the owner of its project.
unfoldable pub IsOwners : List Project → Run → Type 0
IsOwners ps r = owns (record { id = r.created_by }) (select_project r.project_id ps) ≡ true

-- Who created the run with a key.
abbrev pub creator_of : String → List Run → Option String
creator_of k rs = opt_map (λ (r : Run). r.created_by) (select_run k rs)

-- The decision was made by the user who created its run, who wrote at least ten characters.
unfoldable pub IsWritten : List Run → ApprovalRequest → Type 0
IsWritten rs a =
    (is_some a.decided_by ≡ true)
    × (a.decided_by ≡ creator_of a.run_id rs)
    × (ltb (size (strip a.justification)) 10 ≡ false)

pub record IsJustified (db : Store) : Type 0 where
  pub rows : All (IsOwners db.projects) db.runs
  pub decisions : All (IsWritten db.runs) db.approvals

some-injective : {a b : Run} → some a ≡ some b → a ≡ b
some-injective e = cc

-- A property of all rows, of the one that is found and of the one that is written back.
module _ (P : Run → Type 0) where
  pub select_run-All :
      (k : String) (rs : List Run) {r : Run} → All P rs → select_run k rs ≡ some r → P r
  unfolding select_run
  select_run-All k [] h found = cc
  select_run-All k (q ∷ rs) {r} h found = elim (Bool-cases (q.id == k)) [
    | inl mine ↦ subst P (some-injective (rw mine at found)) h.0
    | inr other ↦ select_run-All k rs h.1 (rw other at found)
  ]

  pub write_run-All : (r : Run) (rs : List Run) → All P rs → P r → All P (write_run r rs)
  unfolding write_run
  write_run-All r [] h p = tt
  write_run-All r (q ∷ rs) h p = elim (Bool-cases (q.id == r.id)) [
    | inl mine ↦ (rw mine p, write_run-All r rs h.1 p)
    | inr other ↦ (rw other (h.0), write_run-All r rs h.1 p)
  ]

-- The creators of the runs are kept where a row is written back and where one is added.
creator_of-write_run :
    (k : String) (r r' : Run) (rs : List Run)
    → select_run r.id rs ≡ some r
    → (r'.id ≡ r.id) × (r'.created_by ≡ r.created_by)
    → creator_of k (write_run r' rs) ≡ creator_of k rs
creator_of-write_run k r r' rs found (row, creator) = elim (Bool-cases (r.id == k)) [
  | inl mine ↦
      let here : select_run k rs ≡ some r =
        subst (λ i. select_run i rs ≡ some r) ((eq_iff r.id k).0 mine) found in
      rw (select_run-write_run k r' rs, row, mine, here, creator) refl
  | inr other ↦ rw (select_run-write_run k r' rs, row, other) refl
]

creator_of-append :
    (k : String) (rs : List Run) (r : Run)
    → is_some (creator_of k rs) ≡ true
    → creator_of k (rs ++ r ∷ []) ≡ creator_of k rs
unfolding select_run
creator_of-append k [] r h = cc
creator_of-append k (q ∷ rs) r h = elim (Bool-cases (q.id == k)) [
  | inl mine ↦ rw mine refl
  | inr other ↦ rw other (creator_of-append k rs r (rw other at h))
]

IsWritten-write_run :
    (r r' : Run) (rs : List Run)
    → select_run r.id rs ≡ some r
    → (r'.id ≡ r.id) × (r'.created_by ≡ r.created_by)
    → (a : ApprovalRequest) → IsWritten rs a
    → IsWritten (write_run r' rs) a
unfolding IsWritten
IsWritten-write_run r r' rs found row a (decided, mine, long) =
    (decided, mine ∙ sym (creator_of-write_run a.run_id r r' rs found row), long)

pub decisions_kept :
    (r r' : Run) (rs : List Run) (xs : List ApprovalRequest)
    → select_run r.id rs ≡ some r
    → (r'.id ≡ r.id) × (r'.created_by ≡ r.created_by)
    → All (IsWritten rs) xs
    → All (IsWritten (write_run r' rs)) xs
decisions_kept r r' rs xs found row = All-map (IsWritten-write_run r r' rs found row) xs

pub IsWritten-append :
    (r : Run) (rs : List Run) (a : ApprovalRequest) → IsWritten rs a → IsWritten (rs ++ r ∷ []) a
unfolding IsWritten
IsWritten-append r rs a (decided, mine, long) =
    (decided, mine ∙ sym (creator_of-append a.run_id rs r (ap is_some (sym mine) ∙ decided)), long)

-- The only owner of a project.
owns_unique : (u v : User) (p : Option Project) → owns u p ≡ true → owns v p ≡ true → u.id ≡ v.id
unfolding owns
owns_unique u v none h k = cc
owns_unique u v (some p) h k = sym ((eq_iff p.owner_id u.id).0 h) ∙ (eq_iff p.owner_id v.id).0 k

-- What is in reach of a user was created by that user.
pub found-IsOwners :
    (run_id : String) (user : User) (db : Store) (r : Run)
    → get_owned_run run_id user db ≡ ok r
    → IsJustified db
    → IsOwners db.projects r × (r.created_by ≡ user.id) × (select_run r.id db.runs ≡ some r)
unfolding IsOwners
found-IsOwners run_id user db r got j =
    let (found, owned) = get_owned_run-found run_id user db r got in
    let mine : IsOwners db.projects r =
      select_run-All (IsOwners db.projects) run_id db.runs j.rows found in
    (
      mine,
      owns_unique (record { id = r.created_by }) user (select_project r.project_id db.projects) mine
          owned,
      subst (λ i. select_run i db.runs ≡ some r) (sym (select_run-id run_id db.runs r found)) found,
    )

pub set_state-IsJustified :
    (before r' : Run) (event_type : String) (payload : Option Fields) (user : User) (db : Store)
    → IsOwners db.projects r'
    → select_run before.id db.runs ≡ some before
    → (r'.id ≡ before.id) × (r'.created_by ≡ before.created_by)
    → IsJustified db
    → IsJustified (set_state before r' event_type payload user db).1
unfolding set_state record_event
set_state-IsJustified before r' event_type payload user db mine here row j = record {
  rows = write_run-All (IsOwners db.projects) r' db.runs j.rows mine;
  decisions = decisions_kept before r' db.runs db.approvals here row j.decisions;
}

-- A decision on a row in reach, with a justification that is long enough.
pub record_decision-IsJustified :
    (run_id : String) (user : User) (db : Store) (r : Run) (decision kind why : String)
    (t : RunState) (metadata : Fields)
    → get_owned_run run_id user db ≡ ok r
    → ltb (size (strip why)) 10 ≡ false
    → IsJustified db
    → IsJustified (record_decision decision kind why t metadata r user db).1
unfolding record_decision IsWritten IsOwners
record_decision-IsJustified run_id user db r decision kind why t metadata got long j =
    let (mine, own, here) = found-IsOwners run_id user db r got j in
    set_state-IsJustified r _ _ _ user _ mine here (refl, refl)
      (record {
        rows = j.rows;
        decisions =
            All-append (IsWritten db.runs) db.approvals _ j.decisions
              ((refl, rw (here, own) refl, long), tt);
      })

pub enqueue-IsJustified :
    (test redis_up : Bool) (k : String) (db : Store)
    → IsJustified db
    → IsJustified (if test then enqueue_run_job redis_up k db else db)
unfolding enqueue_run_job
enqueue-IsJustified true true k db j = record { rows = j.rows; decisions = j.decisions }
enqueue-IsJustified true false k db j = j
enqueue-IsJustified false redis_up k db j = j
