-- ===== src/Web/ExecutionGraph/Laws.antt =====
-- apps/web/src/components/ExecutionGraph.tsx: what the graph of a run says of it.
use morphia.Common.{
  ℕ, String, ◌≡◌, refl, ◌∙◌, ap, inl, inr, Bool, true, false, Bool-cases, ◌||◌, Option, List, [],
  ◌∷◌, map, arith, find, null?, ◌==◌, if◌then◌else◌, opt_map, filter, length,
}
use morphia.RunState.{
  RunState, draft, planning, awaiting_plan_approval, queued, running, awaiting_action_approval,
  paused, completed, failed, cancelled,
}
use morphia.Types.{Run, RunEvent, RunStep}
use morphia.Web.ExecutionGraph.{
  NodeState, pending, active, passed, blocked, awaiting, GraphNode, is_failed_scope, order,
}
use morphia.Web.ExecutionGraph.Stages.{
  target_node, scope_node, planning_node, approval_node, queue_node, revalidation_node,
  execution_node, evidence_node, finding_node, mark_node, mark_blocked, stages, derive_graph,
}

-- The node with an id, as the component looks the selected one up.
abbrev pub node : String → List GraphNode → Option GraphNode
node k nodes = find (λ (n : GraphNode). n.id == k) nodes

abbrev pub state_at : String → List GraphNode → Option NodeState
state_at k nodes = opt_map (λ (n : GraphNode). n.state) (node k nodes)

mark_node-id : (b : Bool) (n : GraphNode) → (mark_node b n).id ≡ n.id
unfolding mark_node
mark_node-id b n = ground arith

mark_blocked-ids :
    (b : Bool) (ns : List GraphNode)
    → map (λ (n : GraphNode). n.id) (mark_blocked b ns) ≡ map (λ (n : GraphNode). n.id) ns
unfolding mark_blocked
mark_blocked-ids b [] = refl
mark_blocked-ids b (n ∷ ns) =
    let now : Bool = b || (n.id == "scope-api" || n.id == "revalidation") in
    rw (mark_node-id now n) (ap (λ ids. n.id ∷ ids) (mark_blocked-ids now ns))

abbrev pub stage_ids : List String
stage_ids =
    "target" ∷ "scope-api" ∷ "planning" ∷ "approval" ∷ "queue" ∷ "revalidation" ∷ "execution"
    ∷ "evidence" ∷ "finding" ∷ []

stages-ids :
    (run : Run) (events : List RunEvent) (steps : List RunStep)
    → map (λ (n : GraphNode). n.id) (stages run events steps) ≡ stage_ids
unfolding stages target_node scope_node planning_node approval_node queue_node revalidation_node
    execution_node evidence_node finding_node
stages-ids run events steps = refl

-- Whatever the run, the graph has the same nine nodes in the same order.
pub derive_graph-ids :
    (run : Run) (events : List RunEvent) (steps : List RunStep)
    → map (λ (n : GraphNode). n.id) (derive_graph run events steps) ≡ stage_ids
unfolding derive_graph
derive_graph-ids run events steps = elim (Bool-cases (is_failed_scope run)) [
  | inl denied ↦
      rw denied (mark_blocked-ids false (stages run events steps) ∙ stages-ids run events steps)
  | inr fine ↦ rw fine (stages-ids run events steps)
]

-- The states of the nine nodes before the loop, by the state of the run and whether it has steps.
unfoldable pub states_of : RunState → Bool → List NodeState
states_of s no_steps =
    let captured : NodeState = if no_steps then pending else passed in
    elim s [
      | draft ↦
          passed ∷ pending ∷ pending ∷ pending ∷ pending ∷ pending ∷ pending ∷ captured ∷ pending
          ∷ []
      | planning ↦
          passed ∷ passed ∷ active ∷ pending ∷ pending ∷ pending ∷ pending ∷ captured ∷ pending ∷ []
      | awaiting_plan_approval ↦
          passed ∷ passed ∷ passed ∷ awaiting ∷ pending ∷ pending ∷ pending ∷ captured ∷ pending
          ∷ []
      | queued ↦
          passed ∷ passed ∷ passed ∷ passed ∷ active ∷ pending ∷ pending ∷ captured ∷ pending ∷ []
      | running ↦
          passed ∷ passed ∷ passed ∷ passed ∷ passed ∷ passed ∷ active ∷ captured ∷ pending ∷ []
      | awaiting_action_approval ↦
          passed ∷ passed ∷ passed ∷ awaiting ∷ passed ∷ pending ∷ pending ∷ captured ∷ pending ∷ []
      | paused ↦
          passed ∷ passed ∷ passed ∷ passed ∷ passed ∷ pending ∷ pending ∷ captured ∷ pending ∷ []
      | completed ↦
          passed ∷ passed ∷ passed ∷ passed ∷ passed ∷ passed ∷ passed ∷ passed
          ∷ NodeState.completed ∷ []
      | failed ↦
          passed
          ∷ passed
          ∷ passed
          ∷ passed
          ∷ passed
          ∷ passed
          ∷ NodeState.failed
          ∷ (if no_steps then NodeState.failed else passed)
          ∷ NodeState.failed
          ∷ []
      | cancelled ↦
          passed ∷ passed ∷ passed ∷ passed ∷ passed ∷ passed ∷ passed ∷ captured ∷ pending ∷ []
    ]

stages-states :
    (run : Run) (events : List RunEvent) (steps : List RunStep)
    → is_failed_scope run ≡ false
    → map (λ (n : GraphNode). n.state) (stages run events steps) ≡ states_of run.state (null? steps)
unfolding states_of stages target_node scope_node planning_node approval_node queue_node
    revalidation_node execution_node evidence_node finding_node order
stages-states run events steps fine = ground arith

-- Unless the scope was denied, the nine nodes have the states of a table by the state of the run and
-- whether a step was recorded.
pub derive_graph-states :
    (run : Run) (events : List RunEvent) (steps : List RunStep)
    → is_failed_scope run ≡ false
    → map (λ (n : GraphNode). n.state) (derive_graph run events steps)
      ≡ states_of run.state (null? steps)
unfolding derive_graph
derive_graph-states run events steps fine = rw fine (stages-states run events steps fine)

failed_of_scope : (run : Run) → is_failed_scope run ≡ true → run.state ≡ failed
unfolding is_failed_scope
failed_of_scope run h = ground arith

-- A run whose scope was denied: both checks and all that they prevent are marked as blocked, and what
-- they prevent is labelled so, whatever steps were recorded.
pub derive_graph_denied :
    (run : Run) (events : List RunEvent) (steps : List RunStep)
    → is_failed_scope run ≡ true
    → map (λ (n : GraphNode). n.state) (derive_graph run events steps)
      ≡ passed ∷ blocked ∷ passed ∷ passed ∷ passed ∷ blocked ∷ blocked ∷ blocked ∷ blocked ∷ []
unfolding derive_graph mark_blocked stages target_node scope_node planning_node approval_node
    queue_node revalidation_node execution_node evidence_node finding_node order
derive_graph_denied run events steps denied = ground (arith, failed_of_scope run denied)

-- The nodes that ask for attention: the stage that is being worked on or waited for.
abbrev pub is_current : NodeState → Bool
is_current active = true
is_current awaiting = true
is_current _ = false

-- The states in which something is to happen next by itself or by a decision.
abbrev pub is_under_way : RunState → Bool
is_under_way planning = true
is_under_way awaiting_plan_approval = true
is_under_way queued = true
is_under_way running = true
is_under_way awaiting_action_approval = true
is_under_way _ = false

count_current : RunState → Bool → ℕ
unfolding states_of
count_current s no_steps = length (filter is_current (states_of s no_steps))

count_current_lem :
    (s : RunState) (b : Bool) → count_current s b ≡ (if is_under_way s then 1 else 0)
unfolding count_current
count_current_lem s b = ground arith

-- Exactly one node is current while a run is under way, and none otherwise.
pub derive_graph_current :
    (run : Run) (events : List RunEvent) (steps : List RunStep)
    → length (filter is_current (map (λ (n : GraphNode). n.state) (derive_graph run events steps)))
      ≡ (if is_under_way run.state then 1 else 0)
unfolding count_current
derive_graph_current run events steps = elim (Bool-cases (is_failed_scope run)) [
  | inl denied ↦ rw (derive_graph_denied run events steps denied, failed_of_scope run denied)
  | inr fine ↦
      rw (derive_graph-states run events steps fine) (count_current_lem run.state (null? steps))
]
