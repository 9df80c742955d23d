-- ===== src/RunState.antt =====
-- The states of a run, which packages/contracts/src/run_states.ts, apps/web/src/lib/types.ts and
-- apps/api/app/models/runs.py each list, and sets of them.
use morphia.Common.{String, ◌≡◌, refl, Bool, true, false, List, arith, any, ◌==◌}

pub data RunState : Type 0 where
  draft planning awaiting_plan_approval queued running : RunState
  awaiting_action_approval paused completed failed cancelled : RunState

-- The string that stands for the state.
abbrev pub name : RunState → String
name draft = "DRAFT"
name planning = "PLANNING"
name awaiting_plan_approval = "AWAITING_PLAN_APPROVAL"
name queued = "QUEUED"
name running = "RUNNING"
name awaiting_action_approval = "AWAITING_ACTION_APPROVAL"
name paused = "PAUSED"
name completed = "COMPLETED"
name failed = "FAILED"
name cancelled = "CANCELLED"

abbrev pub same : RunState → RunState → Bool
same draft draft = true
same planning planning = true
same awaiting_plan_approval awaiting_plan_approval = true
same queued queued = true
same running running = true
same awaiting_action_approval awaiting_action_approval = true
same paused paused = true
same completed completed = true
same failed failed = true
same cancelled cancelled = true
same _ _ = false

-- `set.has(state)`
abbrev pub has : List RunState → RunState → Bool
has set s = any (λ t. same t s) set

pub same_refl : (s : RunState) → same s s ≡ true
same_refl draft = refl
same_refl planning = refl
same_refl _ = refl

pub eq_of_same : (s t : RunState) → same s t ≡ true → s ≡ t
eq_of_same s t h = ground arith

-- Two states that are written alike are one state.
pub same-name : (s t : RunState) → (name s == name t) ≡ same s t
same-name draft draft = refl
same-name planning draft = refl
same-name awaiting_plan_approval draft = refl
same-name queued draft = refl
same-name running draft = refl
same-name awaiting_action_approval draft = refl
same-name paused draft = refl
same-name completed draft = refl
same-name failed draft = refl
same-name cancelled draft = refl
same-name _ _ = refl
