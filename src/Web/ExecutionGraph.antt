-- ===== src/Web/ExecutionGraph.antt =====
-- apps/web/src/components/ExecutionGraph.tsx: the nine stages of a run, from its row, its events and its
-- steps.
pub mod Stages
pub mod View
pub mod Laws
use morphia.Common.{
  ℕ, String, Bool, true, false, ◌&&◌, ◌||◌, Option, none, some, List, [], ◌∷◌, map, reverse, any,
  find, head?, length, null?, ◌==◌, ◌<>◌, ◌or_null◌, ◌<|>◌, ◌or_else◌, to_lower, includes, is_empty,
  prefix, show, nat_eq, leb, ltb, opt_map, opt_bind, if◌then◌else◌,
}
use morphia.Common.Json.{Json, Fields, get_non_null, print}
use morphia.RunState.{
  RunState, draft, planning, awaiting_plan_approval, queued, running, awaiting_action_approval,
  paused, cancelled, same,
}
use morphia.Types.{Run, RunPlan, RunPlanStep, RunEvent, RunStep}

pub data NodeState : Type 0 where
  pending active passed blocked failed awaiting completed : NodeState

pub record GraphNode : Type 0 where
  pub id : String
  pub label : String
  pub sublabel : String
  pub state : NodeState
  pub detail : String
  pub timestamp : Option String
  pub actor : Option String

-- `hasEvent`, and the event that `lastEvent` finds
unfoldable pub has_event : List RunEvent → String → Bool
has_event events type = any (λ (e : RunEvent). e.event_type == type) events

unfoldable pub last_event : List RunEvent → String → Option RunEvent
last_event events type = find (λ (e : RunEvent). e.event_type == type) (reverse events)

unfoldable pub is_failed_scope : Run → Bool
is_failed_scope run =
    same run.state RunState.failed && includes (to_lower run.failure_reason) "scope"

-- `order`
unfoldable pub order : RunState → ℕ
order draft = 0
order planning = 1
order awaiting_plan_approval = 2
order queued = 3
order running = 4
order awaiting_action_approval = 4
order paused = 4
order RunState.completed = 7
order RunState.failed = 7
order cancelled = 7

unfoldable pub plan_steps : Run → List RunPlanStep
plan_steps run = opt_map (λ (p : RunPlan). p.steps) run.plan or_null []

-- `n step` or `n steps`
unfoldable pub count_steps : ℕ → String
unfolding show
count_steps n = show n <> " step" <> (if ltb 1 n then "s" else "")

-- `steps.map(s => …).join(", ")`
unfoldable pub join_steps : List RunPlanStep → String
join_steps [] = ""
join_steps (s ∷ []) = s.action <> " → " <> s.target
join_steps (s ∷ t ∷ ss) = s.action <> " → " <> s.target <> ", " <> join_steps (t ∷ ss)

-- The justification in an event's payload, where it has one.
justification : Option RunEvent → Option Json
unfolding get_non_null
justification e = get_non_null (opt_bind e (λ (e : RunEvent). e.payload)) "justification"

-- The text of the approval that was given.
unfoldable pub approved_detail : List RunEvent → String
unfolding last_event justification print
approved_detail events =
    "Approved — "
    <> (opt_map print (
          justification (last_event events "approval.approved")
          <|> justification (last_event events "run.approved"))
        or_null "human authorization recorded")

-- The text that the first step's output gives.
unfoldable pub output_detail : List RunStep → String
unfolding get_non_null print
output_detail steps = elim (opt_bind (head? steps) (λ (s : RunStep). s.output_data)) [
  | none ↦ "Provider execution"
  | some fs ↦ prefix 120 (opt_map print (get_non_null (some fs) "response") or_null "")
]
