-- ===== src/Server/Runs/Transitions.antt =====
-- apps/api/app/routers/runs.py: what a run's row and its timeline have to do with each other. Each
-- route that changes a state moves along the table of legal transitions, and writes an event that
-- says so.
use morphia.Common.{
  String, ◌≡◌, refl, sym, ap, subst, ◌∙◌, Bool, true, false, ◌&&◌, Option, none, some, List, [],
  ◌∷◌, ◌++◌, arith, eq_iff, opt_map, opt_bind, ◌==◌, if◌then◌else◌, Bool-cases, Option-cases, inl,
  inr,
}
use morphia.RunState.{RunState, draft, same, same_refl}
use morphia.Server.States.{validate_transition}
use morphia.Server.Store.{Run, RunEvent, Store, select_run, write_run}

-- The state that the row of a run holds.
unfoldable pub state_of : String → Store → Option RunState
state_of k db = opt_map (λ (r : Run). r.state) (select_run k db.runs)

-- Whether an event may follow a timeline that has come to `current`.
abbrev pub joins : (current from_state : Option RunState) → RunState → Bool
joins none none t = same t draft
joins (some c) (some f) t = same c f && validate_transition c t
joins _ _ t = false

-- Where an event of the run leads; an event that moves no state has no target.
abbrev pub advance : Option RunState → RunEvent → Option (Option RunState)
advance current e = elim e.to_state [
  | none ↦ some current
  | some t ↦ if joins current e.from_state t then some (some t) else none
]

-- The timeline of one run, replayed from before its creation: `none` where it does not join up.
unfoldable pub replay : String → Option RunState → List RunEvent → Option (Option RunState)
replay k current [] = some current
replay k current (e ∷ es) =
    if e.run_id == k then opt_bind (advance current e) (λ c. replay k c es) else replay k current es

-- The timeline of every run leads, by legal transitions alone, to the state that its row holds.
pub record IsConsistent (db : Store) : Type 0 where
  pub joined : (k : String) → replay k none db.events ≡ some (state_of k db)

replay-append :
    (k : String) (c : Option RunState) (es fs : List RunEvent)
    → replay k c (es ++ fs) ≡ opt_bind (replay k c es) (λ d. replay k d fs)
unfolding replay
replay-append k c [] fs = refl
replay-append k c (e ∷ es) fs = elim (Bool-cases (e.run_id == k)) [
  | inl mine ↦ rw mine (elim (Option-cases (advance c e)) [
    | inl broken ↦ rw broken
    | inr (d, led) ↦ rw led (replay-append k d es fs)
  ])
  | inr other ↦ rw other (replay-append k c es fs)
]

pub select_run-id : (k : String) (rs : List Run) (r : Run) → select_run k rs ≡ some r → r.id ≡ k
unfolding select_run
select_run-id k [] r h = cc
select_run-id k (q ∷ rs) r h = ground (arith, eq_iff q.id k, select_run-id k rs r)

pub select_run-write_run :
    (k : String) (r : Run) (rs : List Run)
    → select_run k (write_run r rs)
      ≡ (if r.id == k then opt_map (λ _. r) (select_run k rs) else select_run k rs)
unfolding select_run write_run
select_run-write_run k r [] = ground arith
select_run-write_run k r (q ∷ rs) =
    ground (arith, eq_iff q.id r.id, eq_iff r.id k, eq_iff q.id k, select_run-write_run k r rs)

-- One event at the end of a consistent timeline.
pub replay-snoc :
    (k : String) (db : Store) (e : RunEvent)
    → IsConsistent db
    → replay k none (db.events ++ e ∷ [])
      ≡ (if e.run_id == k then advance (state_of k db) e else some (state_of k db))
unfolding replay
replay-snoc k db e c =
    rw (replay-append k none db.events (e ∷ []), c.joined k)
      (elim (Bool-cases (e.run_id == k)) [
        | inl mine ↦ rw mine (elim (Option-cases (advance (state_of k db) e)) [
          | inl broken ↦ rw broken
          | inr (d, led) ↦ rw led
        ])
        | inr other ↦ rw other
      ])

advance-joins :
    (s t : RunState) (e : RunEvent)
    → validate_transition s t ≡ true
    → e.from_state ≡ some s
    → e.to_state ≡ some t
    → advance (some s) e ≡ some (some t)
advance-joins s t e legal from to = rw to (rw from (rw (same_refl s, legal)))

-- A row whose state changes along the table, with an event that says so.
module _ (db : Store) (r r' : Run) (e : RunEvent) (found : select_run r.id db.runs ≡ some r)
    (legal : validate_transition r.state r'.state ≡ true) (row : r'.id ≡ r.id)
    (event : (e.run_id ≡ r.id) × (e.from_state ≡ some r.state) × (e.to_state ≡ some r'.state)) where
  pub state_of-move :
      (db' : Store) (k : String)
      → db'.runs ≡ write_run r' db.runs
      → state_of k db' ≡ (if r.id == k then some r'.state else state_of k db)
  unfolding state_of
  state_of-move db' k rows = elim (Bool-cases (r.id == k)) [
    | inl mine ↦
        let at_k : select_run k db.runs ≡ some r =
          subst (λ j. select_run j db.runs ≡ some r) ((eq_iff r.id k).0 mine) found in
        rw (rows, select_run-write_run k r' db.runs, row, mine, at_k)
    | inr other ↦ rw (rows, select_run-write_run k r' db.runs, row, other)
  ]

  pub state_of-mine : (k : String) → (r.id == k) ≡ true → state_of k db ≡ some r.state
  unfolding state_of
  state_of-mine k mine = rw (← (eq_iff r.id k).0 mine) (rw found)

  advance_last :
      (k : String)
      → (if e.run_id == k then advance (state_of k db) e else some (state_of k db))
        ≡ some (if r.id == k then some r'.state else state_of k db)
  advance_last k = elim (Bool-cases (r.id == k)) [
    | inl mine ↦
        rw (subst (λ j. (j == k) ≡ true) (sym event.0) mine, mine)
          (ap (λ s. advance s e) (state_of-mine k mine)
            ∙ advance-joins r.state r'.state e legal event.1 event.2)
    | inr other ↦ rw (subst (λ j. (j == k) ≡ false) (sym event.0) other, other)
  ]

  pub move-IsConsistent :
      (db' : Store)
      → db'.runs ≡ write_run r' db.runs
      → db'.events ≡ db.events ++ e ∷ []
      → IsConsistent db
      → IsConsistent db'
  move-IsConsistent db' rows events c = record {
    joined = λ k.
        ap (replay k none) events
        ∙ (replay-snoc k db e c ∙ (advance_last k ∙ ap some (sym (state_of-move db' k rows))));
  }
