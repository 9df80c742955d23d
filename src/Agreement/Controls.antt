-- ===== src/Agreement/Controls.antt =====
-- apps/web/src/pages/RunDetail.tsx and apps/web/src/components/ApprovalGate.tsx against
-- apps/api/app/routers/runs.py: the controls that the web client offers and what the server does on them.
use morphia.Common.{
  String, ◌≡◌, refl, ◌∙◌, Bool, true, false, not, ◌&&◌, ◌||◌, none, some, List, [], ◌∷◌, All,
  All-map, arith, ltb, leb, size, strip, ◌==◌, Bool-cases, Option-cases, inl, inr,
}
use morphia.Common.View.{offered}
use morphia.RunState.{
  RunState, draft, planning, awaiting_plan_approval, queued, running, paused, failed, cancelled,
  has,
}
use morphia.Types
use morphia.Types.{terminal_states}
use morphia.Server.States.{validate_transition, approval_states, legal_transitions}
use morphia.Server.Store.{User, Run, Store, Result, ok, http_exception}
use morphia.Server.Runs.{
  get_owned_run, transition_run, cancel_run, approve_run, reject_run, approval_target,
  awaiting_target,
}
use morphia.Server.Runs.Calls.{within_limits, route, handle}
use morphia.Server.Runs.Gate.{approve_run_lem, cancel_run-Returns, approval_target_iff, Returns}
use morphia.Web.Requests.{RunAction, transition, cancel, approve, reject}
use morphia.Web.RunDetail.{Page, controls, next_step, is_approval_state}
use morphia.Agreement.{to_call, is_accepted}

-- A text that the server takes for a justification.
abbrev pub is_justified : String → Bool
is_justified why = not (ltb (size (strip why)) 10)

-- A text that the schema of a decision lets pass.
abbrev pub is_within : String → Bool
is_within why = leb (size why) 2000

-- What the server makes of a request about a run in state `s` of the user's, whom `own` says to be the
-- one who created it.
unfoldable pub takes : (s : RunState) (own : Bool) → RunAction → Bool
takes s own (transition t) = validate_transition s t
takes s own cancel = true
takes s own (approve why) =
    is_within why && (has approval_states s && (not own || is_justified why))
takes s own (reject why) = is_within why && (has approval_states s && is_justified why)

accepted_of_Returns :
    (m : Result (Run × Store)) (P : Run → Store → Type 0) → Returns m P → is_accepted m ≡ true
accepted_of_Returns (ok (r, db)) P h = refl
accepted_of_Returns (http_exception c d) P h = elim h [ ]

-- What `_approval_target` gives in the states that await approval.
asked :
    (s : RunState)
    → has approval_states s ≡ true
    → (kt : String × RunState) × (approval_target s ≡ some kt)
asked s h = elim (Option-cases (approval_target s)) [
  | inl missing ↦ elim ((approval_target_iff s).0 h missing) [ ]
  | inr found ↦ found
]

unasked : (s : RunState) → has approval_states s ≡ false → approval_target s ≡ none
unasked s h = (approval_target_iff s).1 h

live_of_asked :
    (s : RunState) → has approval_states s ≡ true → validate_transition s cancelled ≡ true
unfolding approval_states validate_transition legal_transitions
live_of_asked s h = ground arith

module _ (user : User) (db : Store) (id : String) (row : Run)
    (got : get_owned_run id user db ≡ ok row) where
  accepted-transition :
      (t : RunState)
      → is_accepted (transition_run id t "" user db) ≡ validate_transition row.state t
  unfolding transition_run
  accepted-transition t = elim (Bool-cases (validate_transition row.state t)) [
    | inl legal ↦ rw (got, legal) refl
    | inr illegal ↦ rw (got, illegal) refl
  ]

  accepted-cancel : is_accepted (cancel_run id user db) ≡ true
  accepted-cancel =
      accepted_of_Returns (cancel_run id user db) _ (cancel_run-Returns id user db row got)

  accepted-approve :
      (redis_up : Bool) (why : String)
      → is_accepted (approve_run redis_up id why user db)
        ≡ (has approval_states row.state && (not (row.created_by == user.id) || is_justified why))
  accepted-approve redis_up why =
      rw (approve_run_lem id user db row got redis_up why)
        (elim (Bool-cases (has approval_states row.state)) [
          | inl awaits ↦
              rw (awaits, (asked row.state awaits).1)
                (elim (Bool-cases (row.created_by == user.id)) [
                  | inl own ↦ rw own (ground arith)
                  | inr other ↦ rw other refl
                ])
          | inr idle ↦ rw (idle, unasked row.state idle) (ground arith)
        ])

  accepted-reject :
      (why : String)
      → is_accepted (reject_run id why user db)
        ≡ (has approval_states row.state && is_justified why)
  unfolding reject_run awaiting_target
  accepted-reject why = rw got (elim (Bool-cases (ltb (size (strip why)) 10)) [
    | inl short ↦ rw short (ground arith)
    | inr long ↦ rw long (elim (Bool-cases (has approval_states row.state)) [
      | inl awaits ↦ rw awaits (
          rw ((asked row.state awaits).1, awaiting_target)
            (rw (live_of_asked row.state awaits) refl))
      | inr idle ↦ rw idle (rw (unasked row.state idle, awaiting_target) refl)
    ])
  ])

  pub takes_lem :
      (redis_up : Bool) (a : RunAction)
      → is_accepted (handle (to_call redis_up id a) user db)
        ≡ takes row.state (row.created_by == user.id) a
  unfolding handle within_limits route to_call takes
  takes_lem redis_up (transition t) = accepted-transition t
  takes_lem redis_up cancel = accepted-cancel
  takes_lem redis_up (approve why) = elim (Bool-cases (is_within why)) [
    | inl short ↦ rw short (accepted-approve redis_up why)
    | inr long ↦ rw long refl
  ]
  takes_lem redis_up (reject why) = elim (Bool-cases (is_within why)) [
    | inl short ↦ rw short (accepted-reject why)
    | inr long ↦ rw long refl
  ]

-- The actions of the panel of controls on a run in a state.
unfoldable pub actions_of : RunState → List RunAction
actions_of draft = transition planning ∷ cancel ∷ []
actions_of planning = transition awaiting_plan_approval ∷ cancel ∷ []
actions_of queued = cancel ∷ []
actions_of running = cancel ∷ []
actions_of paused = transition queued ∷ cancel ∷ []
actions_of failed = transition draft ∷ []
actions_of _ = []

pub offered-controls :
    (run : Types.Run) (page : Page) → offered (controls false run page) ≡ actions_of run.state
unfolding controls actions_of next_step is_approval_state terminal_states
offered-controls run page = ground arith

actions_taken : (s : RunState) (own : Bool) → All (λ a. takes s own a ≡ true) (actions_of s)
unfolding actions_of takes validate_transition legal_transitions
actions_taken s own = ground arith

-- Where the page shows a run of the user's in the state that its row has, the server takes every request
-- that an enabled button of the panel of controls makes.
pub controls_accepted :
    (redis_up : Bool) (user : User) (db : Store) (row : Run) (run : Types.Run) (page : Page)
    → get_owned_run run.id user db ≡ ok row
    → row.state ≡ run.state
    → All
        (λ a. is_accepted (handle (to_call redis_up run.id a) user db) ≡ true)
        (offered (controls false run page))
controls_accepted redis_up user db row run page got fresh = rw (offered-controls run page) (
    All-map (λ a taken. takes_lem user db run.id row got redis_up a ∙ rw fresh taken)
      (actions_of run.state) (actions_taken run.state (row.created_by == user.id)))
