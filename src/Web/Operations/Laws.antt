-- ===== src/Web/Operations/Laws.antt =====
-- apps/web/src/pages/Operations.tsx: which run the command center shows.
use morphia.Common.{
  ◌≡◌, refl, Bool, false, not, ◌&&◌, ◌||◌, Option, none, some, List, [], ◌∷◌, any, find, filter,
  head?, is_some, null?, Bool-cases, inl, inr, arith, ◌<|>◌, if◌then◌else◌,
}
use morphia.RunState.{has}
use morphia.Types.{Run, approval_states}
use morphia.Server.States
use morphia.Web.Operations.{is_awaiting, is_live, first_choice, pending_approvals}
use morphia.Web.Approvals.{pending_runs}

-- The run, where there is one, passes the test.
abbrev pub passes : (Run → Bool) → Option Run → Bool
passes p none = false
passes p (some r) = p r

find-passes : (p : Run → Bool) (runs : List Run) → passes p (find p runs) ≡ any p runs
find-passes p [] = refl
find-passes p (x ∷ xs) = elim (Bool-cases (p x)) [
  | inl here ↦ rw here here
  | inr later ↦ rw later (find-passes p xs)
]

any-or :
    (p q : Run → Bool) (runs : List Run) → any (λ r. p r || q r) runs ≡ (any p runs || any q runs)
any-or p q [] = refl
any-or p q (x ∷ xs) = ground (arith, any-or p q xs)

-- What is found among runs of which none passes a test does not pass it.
find-fails :
    (p q : Run → Bool) (runs : List Run) → any q runs ≡ false → passes q (find p runs) ≡ false
find-fails p q [] none_pass = refl
find-fails p q (x ∷ xs) none_pass = elim (Bool-cases (p x)) [
  | inl here ↦ rw here (ground arith)
  | inr later ↦ rw later (find-fails p q xs (ground arith))
]

head-fails : (q : Run → Bool) (runs : List Run) → any q runs ≡ false → passes q (head? runs) ≡ false
head-fails q [] none_pass = refl
head-fails q (x ∷ xs) none_pass = ground arith

or-passes :
    (q : Run → Bool) (o d : Option Run)
    → passes q (o <|> d) ≡ (if is_some o then passes q o else passes q d)
or-passes q none d = refl
or-passes q (some r) d = refl

find-is_some : (p : Run → Bool) (runs : List Run) → is_some (find p runs) ≡ any p runs
find-is_some p [] = refl
find-is_some p (x ∷ xs) = ground (arith, find-is_some p xs)

passes-or :
    (p q : Run → Bool) (o : Option Run) → passes (λ r. p r || q r) o ≡ (passes p o || passes q o)
passes-or p q none = refl
passes-or p q (some r) = refl

or-is_some : (o d : Option Run) → is_some (o <|> d) ≡ (is_some o || is_some d)
or-is_some none d = refl
or-is_some (some r) d = refl

head-is_some : (runs : List Run) → is_some (head? runs) ≡ not (null? runs)
head-is_some [] = refl
head-is_some (x ∷ xs) = refl

any-null : (p : Run → Bool) (runs : List Run) → (any p runs && null? runs) ≡ false
any-null p [] = refl
any-null p (x ∷ xs) = ground arith

awaiting_first :
    (p q : Run → Bool) (runs : List Run)
    → passes p (find p runs <|> (find q runs <|> head? runs)) ≡ any p runs
awaiting_first p q runs = ground (
  arith,
  or-passes p (find p runs) (find q runs <|> head? runs),
  or-passes p (find q runs) (head? runs),
  find-is_some p runs,
  find-passes p runs,
  find-fails q p runs,
  head-fails p runs,
)

either_first :
    (p q : Run → Bool) (runs : List Run)
    → passes (λ r. p r || q r) (find p runs <|> (find q runs <|> head? runs))
      ≡ any (λ r. p r || q r) runs
either_first p q runs =
    let later : Option Run = find q runs <|> head? runs in
    rw (passes-or p q (find p runs <|> later), any-or p q runs, awaiting_first p q runs)
      (ground (
        arith,
        or-passes q (find p runs) later,
        or-passes q (find q runs) (head? runs),
        find-is_some p runs,
        find-is_some q runs,
        find-passes q runs,
        head-fails q runs,
      ))

-- Where no run is selected: a run that awaits a decision is shown exactly when there is one, one that awaits
-- a decision, is queued or is running exactly when there is one, and any run exactly when there is one.
pub first_choice_lem :
    (runs : List Run)
    → (passes is_awaiting (first_choice runs) ≡ any is_awaiting runs)
      × (passes (λ r. is_awaiting r || is_live r) (first_choice runs)
          ≡ any (λ r. is_awaiting r || is_live r) runs)
      × (is_some (first_choice runs) ≡ not (null? runs))
unfolding first_choice
first_choice_lem runs =
    let later : Option Run = find is_live runs <|> head? runs in
    (
      awaiting_first is_awaiting is_live runs,
      either_first is_awaiting is_live runs,
      ground (
        arith,
        or-is_some (find is_awaiting runs) later,
        or-is_some (find is_live runs) (head? runs),
        head-is_some runs,
        find-is_some is_awaiting runs,
        find-is_some is_live runs,
        any-null is_awaiting runs,
        any-null is_live runs,
      ),
    )

filter_cong :
    (p q : Run → Bool) → ((r : Run) → p r ≡ q r) → (runs : List Run) → filter p runs ≡ filter q runs
filter_cong p q same [] = refl
filter_cong p q same (r ∷ rs) = ground (arith, same r, filter_cong p q same rs)

awaits_decision : (r : Run) → is_awaiting r ≡ has approval_states r.state
unfolding is_awaiting approval_states
awaits_decision r = ground arith

-- The command center counts as pending just those runs that the approvals page lists, in that order, and
-- they are those that the server takes a decision on.
pub pending_agree :
    (runs : List Run)
    → (pending_approvals runs ≡ pending_runs runs)
      × (pending_runs runs ≡ filter (λ (r : Run). has States.approval_states r.state) runs)
unfolding pending_approvals pending_runs approval_states States.approval_states
pending_agree runs = (filter_cong _ _ awaits_decision runs, refl)
