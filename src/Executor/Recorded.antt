-- ===== src/Executor/Recorded.antt =====
-- apps/worker/app/main.py and api_client.py: the steps that are recorded, and their keys.
use morphia.Common.{
  ℕ, zero, suc, ◌+◌, ◌<◌, String, ◌≡◌, refl, ap, subst, inl, inr, true, false, Option, none, some,
  List, [], ◌∷◌, ◌++◌, arith, eq_refl, eq_iff, filter, length, is_some, opt_map, show,
  show_injective, ◌==◌, ◌or_null◌, Bool-cases, Option-cases,
}
use text.Mathlib.TextLemmas.{append_cancel_left}
use morphia.Common.Json.{Json, Items, Fields, array, nil, cons}
use morphia.Server.Store.{Run, Store, select_run, write_run}
use morphia.Server.Runs.Transitions.{state_of}
use morphia.Server.Tables.{RunStep}
use morphia.Server.Plan.{plan_steps, len, step_def, count_items, nth_item}
use morphia.Server.Worker.{recorded_step}
use morphia.Server.Worker.Starting.{select_run-write_run_self}
use morphia.Executor.{idempotency_key}

-- The steps that the plan has.
abbrev pub plan_length : Run → ℕ
plan_length r = len (plan_steps r.plan) or_null 0

nth_item_lt : (vs : Items) (n : ℕ) (d : Json) → nth_item vs n ≡ some d → n < count_items vs
nth_item_lt nil n d h = cc
nth_item_lt (cons v vs) zero d h = omega arith
nth_item_lt (cons v vs) (suc n) d h = let rest = nth_item_lt vs n d h in omega arith

-- A step that is there is one of those that the plan has.
pub step_def_lt :
    (plan : Json) (n : ℕ) (d : Fields) → step_def plan n ≡ some d → n < (len plan or_null 0)
unfolding step_def len
step_def_lt (array vs) n d h = elim (Option-cases (nth_item vs n)) [
  | inl missing ↦ let absurd_h : none ≡ some d = rw missing at h in cc
  | inr (v, there) ↦ nth_item_lt vs n v there
]
step_def_lt _ n d h = cc

-- A row with another key changes nothing for a key.
pub is_recorded-append :
    (key : String) (xs : List RunStep) (s : RunStep)
    → (opt_map (λ k. k == key) s.idempotency_key or_null false) ≡ false
    → is_some (recorded_step key xs) ≡ false
    → is_some (recorded_step key (xs ++ s ∷ [])) ≡ false
unfolding recorded_step
is_recorded-append key [] s other new = rw other refl
is_recorded-append key (x ∷ xs) s other new =
    elim (Bool-cases (opt_map (λ k. k == key) x.idempotency_key or_null false)) [
      | inl here ↦ let absurd_here : true ≡ false = rw here at new in cc
      | inr not_here ↦ rw not_here (is_recorded-append key xs s other (rw not_here at new))
    ]

pub steps_of-append :
    (run_id : String) (xs : List RunStep) (s : RunStep)
    → s.run_id ≡ run_id
    → length (filter (λ (q : RunStep). q.run_id == run_id) (xs ++ s ∷ []))
      ≡ length (filter (λ (q : RunStep). q.run_id == run_id) xs) + 1
steps_of-append run_id [] s mine = rw (mine, eq_refl run_id) refl
steps_of-append run_id (x ∷ xs) s mine = elim (Bool-cases (x.run_id == run_id)) [
  | inl here ↦ rw here (let rest = steps_of-append run_id xs s mine in omega arith)
  | inr other ↦ rw other (steps_of-append run_id xs s mine)
]

-- Two steps of a run have different keys.
pub keys_differ :
    (run_id : String) (m n : ℕ)
    → m < n
    → (idempotency_key run_id m == idempotency_key run_id n) ≡ false
unfolding idempotency_key
keys_differ run_id m n less =
    elim (Bool-cases (idempotency_key run_id m == idempotency_key run_id n)) [
      | inl same ↦
          let tails =
            append_cancel_left run_id _ _
              ((eq_iff (idempotency_key run_id m) (idempotency_key run_id n)).0 same) in
          let eq : m ≡ n = show_injective m n (append_cancel_left ":" (show m) (show n) tails) in
          let impossible : ⊥ = omega arith in elim impossible [ ]
      | inr differ ↦ differ
    ]

pub none_of : {A : Type 0} (o : Option A) → is_some o ≡ false → o ≡ none
none_of none h = refl
none_of (some a) h = cc

pub some_injective : {A : Type 0} {a b : A} → some a ≡ some b → a ≡ b
some_injective p = cc

-- The state of a row that was written.
pub state_written :
    (r r' : Run) (db db' : Store)
    → db'.runs ≡ write_run r' db.runs
    → select_run r.id db.runs ≡ some r
    → r'.id ≡ r.id
    → state_of r.id db' ≡ some r'.state
unfolding state_of
state_written r r' db db' rows found row = rw rows (
    ap (opt_map (λ (q : Run). q.state)) (
      subst (λ i. select_run i (write_run r' db.runs) ≡ some r') row
        (select_run-write_run_self r r' db.runs found row)))
