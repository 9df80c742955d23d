-- ===== src/Server/Worker/Evolution.antt =====
-- apps/api/app/routers/worker.py: what a call may do to the tables of runs, seen as moves of rows.
use morphia.Common.{String, ◌≡◌, ap, ◌∙◌, true, none, some, List, [], ◌∷◌, ◌++◌, arith}
use morphia.Server.States.{validate_transition}
use morphia.Server.Store.{Project, Run, RunEvent, Store, select_run, write_run}
use morphia.Server.Runs.Transitions.{state_of, IsConsistent, replay, replay-snoc, move-IsConsistent}
use morphia.Server.Runs.Justified.{
  IsJustified, IsOwners, write_run-All, select_run-All, decisions_kept,
}
use morphia.Server.Runs.Lifecycle.{Step, stay, Reach, done, then_step, move-Step}

-- A call that is not a user's either leaves rows and timeline alone, or notes an event that moves no state, or
-- moves one row along the table of legal transitions, with an event that says so; decisions it leaves alone.
pub data Evolves (db : Store) : Store → Type 0 where
  kept :
      {db' : Store}
      → db'.projects ≡ db.projects
      → db'.approvals ≡ db.approvals
      → db'.runs ≡ db.runs
      → db'.events ≡ db.events
      → Evolves db db'
  noted :
      {db' : Store} (e : RunEvent)
      → db'.projects ≡ db.projects
      → db'.approvals ≡ db.approvals
      → db'.runs ≡ db.runs
      → db'.events ≡ db.events ++ e ∷ []
      → e.to_state ≡ none
      → Evolves db db'
  moves :
      {db' : Store} (r r' : Run) (e : RunEvent)
      → db'.projects ≡ db.projects
      → db'.approvals ≡ db.approvals
      → db'.runs ≡ write_run r' db.runs
      → db'.events ≡ db.events ++ e ∷ []
      → select_run r.id db.runs ≡ some r
      → validate_transition r.state r'.state ≡ true
      → (r'.id ≡ r.id) × (r'.created_by ≡ r.created_by) × (r'.project_id ≡ r.project_id)
      → (e.run_id ≡ r.id) × (e.from_state ≡ some r.state) × (e.to_state ≡ some r'.state)
      → Evolves db db'

-- One after another.
pub data Evolution : Store → Store → Type 0 where
  ended : {db : Store} → Evolution db db
  and_then : {db db₁ db₂ : Store} → Evolves db db₁ → Evolution db₁ db₂ → Evolution db db₂

noted-IsConsistent :
    (db db' : Store) (e : RunEvent)
    → db'.runs ≡ db.runs
    → db'.events ≡ db.events ++ e ∷ []
    → e.to_state ≡ none
    → IsConsistent db
    → IsConsistent db'
unfolding state_of
noted-IsConsistent db db' e rows events still c = record {
  joined =
      λ k. ap (replay k none) events ∙ (replay-snoc k db e c ∙ rw (still, rows) (ground arith));
}

pub Evolves-IsConsistent : {db db' : Store} → Evolves db db' → IsConsistent db → IsConsistent db'
unfolding state_of
Evolves-IsConsistent {db} (kept {db'} projects approvals rows events) c = record {
  joined = λ k. rw (events, rows) (c.joined k);
}
Evolves-IsConsistent {db} (noted {db'} e projects approvals rows events still) c =
    noted-IsConsistent db db' e rows events still c
Evolves-IsConsistent {db} (moves {db'} r r' e projects approvals rows events found legal row event)
      c =
    move-IsConsistent db r r' e found legal row.0 event db' rows events c

pub Evolves-Step :
    {db db' : Store} (k : String) → Evolves db db' → Step (state_of k db) (state_of k db')
unfolding state_of
Evolves-Step {db} k (kept {db'} projects approvals rows events) = rw rows stay
Evolves-Step {db} k (noted {db'} e projects approvals rows events still) = rw rows stay
Evolves-Step {db} k (moves {db'} r r' e projects approvals rows events found legal row event) =
    move-Step db r r' e db' k found legal row.0 event rows

-- What a call that is not a user's leaves as it was: who created a run, and every decision.
IsOwners-cong :
    (ps : List Project) (r r' : Run)
    → (r'.created_by ≡ r.created_by) × (r'.project_id ≡ r.project_id)
    → IsOwners ps r
    → IsOwners ps r'
unfolding IsOwners
IsOwners-cong ps r r' row mine = rw (row.0, row.1) mine

pub Evolves-IsJustified : {db db' : Store} → Evolves db db' → IsJustified db → IsJustified db'
Evolves-IsJustified {db} (kept {db'} projects approvals rows events) j = record {
  rows = rw (projects, rows) j.rows;
  decisions = rw (approvals, rows) j.decisions;
}
Evolves-IsJustified {db} (noted {db'} e projects approvals rows events still) j = record {
  rows = rw (projects, rows) j.rows;
  decisions = rw (approvals, rows) j.decisions;
}
Evolves-IsJustified {db} (moves {db'} r r' e projects approvals rows events found legal row event)
      j =
    record {
      rows =
          rw (projects, rows)
            (write_run-All (IsOwners db.projects) r' db.runs j.rows (
              IsOwners-cong db.projects r r' (row.1, row.2)
                (select_run-All (IsOwners db.projects) r.id db.runs j.rows found)));
      decisions =
          rw (approvals, rows)
            (decisions_kept r r' db.runs db.approvals found (row.0, row.1) j.decisions);
    }

pub Evolution-IsConsistent :
    {db db' : Store} → Evolution db db' → IsConsistent db → IsConsistent db'
Evolution-IsConsistent ended c = c
Evolution-IsConsistent (and_then st rest) c =
    Evolution-IsConsistent rest (Evolves-IsConsistent st c)

pub Evolution-IsJustified : {db db' : Store} → Evolution db db' → IsJustified db → IsJustified db'
Evolution-IsJustified ended j = j
Evolution-IsJustified (and_then st rest) j = Evolution-IsJustified rest (Evolves-IsJustified st j)

pub Evolution-Reach :
    {db db' : Store} (k : String) → Evolution db db' → Reach (state_of k db) (state_of k db')
Evolution-Reach k ended = done
Evolution-Reach k (and_then st rest) = then_step (Evolves-Step k st) (Evolution-Reach k rest)

pub Evolution-append : {a b c : Store} → Evolution a b → Evolution b c → Evolution a c
Evolution-append ended q = q
Evolution-append (and_then st rest) q = and_then st (Evolution-append rest q)
