-- ===== src/Server/Runs/Consistency.antt =====
-- apps/api/app/routers/runs.py: the timeline of every run agrees with its row, whatever calls are made
-- and in whatever order.
use morphia.Common.{
  String, ◌≡◌, refl, sym, ap, subst, ◌∙◌, true, false, not, Option, none, some, List, [], ◌∷◌, ◌++◌,
  arith, ◌==◌, eq_iff, Bool-cases, inl, inr, is_some, if◌then◌else◌, opt_map,
}
use morphia.Common.Json.{Fields}
use morphia.RunState.{RunState, draft}
use morphia.Server.Store.{
  User, Run, RunEvent, Store, ok, ok-injective, >>=-eq-ok, raise_if-eq-ok, select_run, record_event,
}
use morphia.Server.Runs.{get_owned_project, has_engagement, create_run}
use morphia.Server.Runs.Transitions.{
  state_of, replay, advance, IsConsistent, replay-snoc, move-IsConsistent, select_run-id,
}
use morphia.Server.Runs.Moves.{Moved}

pub Moved-IsConsistent :
    {run_id : String} {user : User} {t : RunState} {db : Store} {r r' : Run} {db' : Store}
    → Moved run_id user t db r r' db'
    → IsConsistent db
    → IsConsistent db'
Moved-IsConsistent {run_id} {user} {t} {db} {r} {r'} {db'} m c =
    let mine : r.id ≡ run_id = select_run-id run_id db.runs r m.found in
    move-IsConsistent db r r' m.event
      (subst (λ k. select_run k db.runs ≡ some r) (sym mine) m.found) (rw m.state m.legal) m.row
      (m.event_run, m.event_from, m.event_to ∙ ap some (sym m.state)) db' m.rows m.logged c

pub none_of_is_some : (o : Option Run) → is_some o ≡ false → o ≡ none
none_of_is_some none h = refl
none_of_is_some (some r) h = cc

select_run-append :
    (k : String) (rs : List Run) (r : Run)
    → select_run r.id rs ≡ none
    → select_run k (rs ++ r ∷ []) ≡ (if r.id == k then some r else select_run k rs)
unfolding select_run
select_run-append k [] r h = refl
select_run-append k (q ∷ rs) r h =
    ground (arith, eq_iff q.id r.id, eq_iff q.id k, eq_iff r.id k, select_run-append k rs r)

-- A new row in DRAFT, with the event of its creation.
module _ (db : Store) (r : Run) (e : RunEvent) (fresh : select_run r.id db.runs ≡ none)
    (start : r.state ≡ draft)
    (event : (e.run_id ≡ r.id) × (e.from_state ≡ none) × (e.to_state ≡ some draft)) where
  advance-draft : (k : String) → (r.id == k) ≡ true → advance (state_of k db) e ≡ some (some draft)
  unfolding state_of
  advance-draft k mine =
      let at_k : select_run k db.runs ≡ none =
        subst (λ j. select_run j db.runs ≡ none) ((eq_iff r.id k).0 mine) fresh in
      rw at_k (rw (event.2) (rw (event.1)))

  pub state_of-create :
      (db' : Store) (k : String)
      → db'.runs ≡ db.runs ++ r ∷ []
      → state_of k db' ≡ (if r.id == k then some draft else state_of k db)
  unfolding state_of
  state_of-create db' k rows =
      ap (λ rs. opt_map (λ (q : Run). q.state) (select_run k rs)) rows
      ∙ (rw (select_run-append k db.runs r fresh) (elim (Bool-cases (r.id == k)) [
        | inl mine ↦ rw mine (ap some start)
        | inr other ↦ rw other
      ]))

  create-IsConsistent :
      (db' : Store)
      → db'.runs ≡ db.runs ++ r ∷ []
      → db'.events ≡ db.events ++ e ∷ []
      → IsConsistent db
      → IsConsistent db'
  create-IsConsistent db' rows events c = record {
    joined = λ k.
        ap (replay k none) events
        ∙ (replay-snoc k db e c
            ∙ (rw (state_of-create db' k rows) (elim (Bool-cases (r.id == k)) [
              | inl mine ↦
                  rw (subst (λ j. (j == k) ≡ true) (sym event.0) mine, mine) (advance-draft k mine)
              | inr other ↦ rw (subst (λ j. (j == k) ≡ false) (sym event.0) other, other)
            ])));
  }

pub create_run-IsConsistent :
    (run_id project_id title : String) (agent_profile engagement_id : Option String)
    (plan : Option Fields) (user : User) (db : Store) {r' : Run} {db' : Store}
    → create_run run_id project_id title agent_profile engagement_id plan user db ≡ ok (r', db')
    → IsConsistent db
    → IsConsistent db'
unfolding create_run record_event
create_run-IsConsistent run_id project_id title agent_profile engagement_id plan user db h c =
    let (p, got, h1) = >>=-eq-ok (get_owned_project project_id user db) _ h in
    let (unused, h2) = raise_if-eq-ok (is_some (select_run run_id db.runs)) _ _ _ h1 in
    let (known, h3) = raise_if-eq-ok (not (has_engagement engagement_id db)) _ _ _ h2 in
    let e = ok-injective h3 in
    let made =
      create-IsConsistent db _ _ (none_of_is_some _ unused) refl (refl, refl, refl) _ refl refl c in
    subst (λ (n : Run × Store). IsConsistent n.1) e made
