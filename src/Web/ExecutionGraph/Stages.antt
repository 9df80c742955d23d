-- ===== src/Web/ExecutionGraph/Stages.antt =====
-- apps/web/src/components/ExecutionGraph.tsx: the nodes of `deriveGraph`, one function for each, and the
-- loop that marks what a denied scope prevents.
use morphia.Common.{
  String, Bool, true, false, ◌&&◌, ◌||◌, not, none, some, List, [], ◌∷◌, find, head?, length, null?,
  ◌==◌, ◌<>◌, ◌or_null◌, ◌<|>◌, ◌or_else◌, nat_eq, leb, ltb, opt_map, opt_bind, if◌then◌else◌,
}
use morphia.RunState.{
  RunState, planning, awaiting_plan_approval, queued, running, awaiting_action_approval, completed,
  failed, same,
}
use morphia.Types.{Run, RunPlanStep, RunEvent, RunStep}
use morphia.Web.ExecutionGraph.{
  NodeState, pending, active, passed, blocked, awaiting, GraphNode, has_event, last_event,
  is_failed_scope, order, plan_steps, count_steps, join_steps, approved_detail, output_detail,
}

is_awaiting : RunState → Bool
is_awaiting s = same s awaiting_plan_approval || same s awaiting_action_approval

unfoldable pub target_node : Run → GraphNode
target_node run =
    let target : String =
      opt_map (λ (s : RunPlanStep). s.target) (head? (plan_steps run)) or_null "—" in
    record {
      id = "target";
      label = "TARGET";
      sublabel = target;
      state = passed;
      detail = "Submitted target: " <> target;
      timestamp = some run.created_at;
      actor = none;
    }

unfoldable pub scope_node : Run → List RunEvent → GraphNode
scope_node run events = record {
  id = "scope-api";
  label = "SCOPE VALIDATION";
  sublabel = "API · default-deny";
  state =
      if is_failed_scope run then blocked else if leb 1 (order run.state) then passed else pending;
  detail =
      if is_failed_scope run
      then run.failure_reason
      else "API scope check: PASS — engagement scope matched";
  timestamp =
      opt_map (λ (e : RunEvent). e.created_at)
        (find (λ (e : RunEvent). e.event_type == "run.transition") events);
  actor = none;
}

unfoldable pub planning_node : Run → GraphNode
planning_node run = record {
  id = "planning";
  label = "PLANNING";
  sublabel = if null? (plan_steps run) then "no plan" else count_steps (length (plan_steps run));
  state =
      if same run.state planning
      then active
      else if ltb 1 (order run.state)
      then passed
      else if nat_eq (order run.state) 1
      then active
      else pending;
  detail = join_steps (plan_steps run) or_else "Drafting plan";
  timestamp = none;
  actor = none;
}

unfoldable pub approval_node : Run → List RunEvent → GraphNode
unfolding is_awaiting
approval_node run events = record {
  id = "approval";
  label = "HUMAN APPROVAL";
  sublabel =
      if is_awaiting run.state
      then "AWAITING"
      else if ltb 2 (order run.state)
      then "APPROVED"
      else "GATE";
  state =
      if is_awaiting run.state
      then awaiting
      else if ltb 2 (order run.state)
      then passed
      else pending;
  detail =
      if has_event events "approval.approved" || has_event events "run.approved"
      then approved_detail events
      else if same run.state awaiting_plan_approval
      then "Execution paused — human authorization required"
      else "Gate closed until human approves";
  timestamp =
      opt_map (λ (e : RunEvent). e.created_at) (last_event events "approval.approved")
      <|> opt_map (λ (e : RunEvent). e.created_at) (last_event events "run.approved");
  actor = opt_bind (last_event events "approval.approved") (λ (e : RunEvent). e.actor_id);
}

unfoldable pub queue_node : Run → GraphNode
queue_node run = record {
  id = "queue";
  label = "QUEUE";
  sublabel = "Redis · morphia:jobs";
  state =
      if same run.state queued then active else if ltb 3 (order run.state) then passed else pending;
  detail = if leb 3 (order run.state) then "Enqueued for worker" else "Awaiting approval";
  timestamp = none;
  actor = none;
}

unfoldable pub revalidation_node : Run → GraphNode
revalidation_node run = record {
  id = "revalidation";
  label = "WORKER REVALIDATION";
  sublabel = "independent · live check";
  state =
      if is_failed_scope run
      then blocked
      else if same run.state running || ltb 4 (order run.state)
      then passed
      else pending;
  detail =
      if is_failed_scope run
      then "Worker scope revalidation: DENY — execution prevented"
      else if leb 4 (order run.state)
      then "Worker scope revalidation: PASS"
      else "Awaiting dispatch";
  timestamp = none;
  actor = none;
}

unfoldable pub execution_node : Run → List RunStep → GraphNode
execution_node run steps = record {
  id = "execution";
  label = "EXECUTION";
  sublabel = if null? steps then "—" else count_steps (length steps);
  state =
      if same run.state running
      then active
      else if same run.state failed
      then NodeState.failed
      else if same run.state completed
      then passed
      else if ltb 4 (order run.state)
      then passed
      else pending;
  detail =
      if same run.state failed
      then run.failure_reason or_else "Execution failed"
      else output_detail steps;
  timestamp = opt_map (λ (s : RunStep). s.created_at) (head? steps);
  actor = none;
}

unfoldable pub evidence_node : Run → List RunStep → GraphNode
evidence_node run steps = record {
  id = "evidence";
  label = "EVIDENCE";
  sublabel = if null? steps then "—" else "artifact captured";
  state =
      if not (null? steps) || same run.state completed
      then passed
      else if same run.state failed
      then NodeState.failed
      else pending;
  detail = if null? steps then "No evidence yet" else "Evidence artifact captured with SHA-256";
  timestamp = none;
  actor = none;
}

unfoldable pub finding_node : Run → GraphNode
finding_node run = record {
  id = "finding";
  label = "FINDING";
  sublabel = if same run.state completed then "verified" else "—";
  state =
      if same run.state completed
      then NodeState.completed
      else if same run.state failed
      then NodeState.failed
      else pending;
  detail =
      if same run.state completed
      then "Finding verified from evidence"
      else "Awaiting evidence verification";
  timestamp = none;
  actor = none;
}

is_pending : NodeState → Bool
is_pending pending = true
is_pending _ = false

-- One round of the loop, with the flag `block` as it is after its first line.
unfoldable pub mark_node : Bool → GraphNode → GraphNode
unfolding is_pending
mark_node block n =
    let n' : GraphNode = if block && is_pending n.state then record n { state = blocked } else n in
    if block && (n.id == "execution" || n.id == "evidence" || n.id == "finding")
    then record n' { state = blocked; sublabel = "PREVENTED" }
    else n'

unfoldable pub mark_blocked : Bool → List GraphNode → List GraphNode
unfolding mark_node
mark_blocked block [] = []
mark_blocked block (n ∷ ns) =
    let now = block || (n.id == "scope-api" || n.id == "revalidation") in
    mark_node now n ∷ mark_blocked now ns

-- The nodes before the loop.
unfoldable pub stages : Run → List RunEvent → List RunStep → List GraphNode
stages run events steps =
    target_node run
    ∷ scope_node run events
    ∷ planning_node run
    ∷ approval_node run events
    ∷ queue_node run
    ∷ revalidation_node run
    ∷ execution_node run steps
    ∷ evidence_node run steps
    ∷ finding_node run
    ∷ []

-- `deriveGraph`
unfoldable pub derive_graph : Run → List RunEvent → List RunStep → List GraphNode
derive_graph run events steps =
    if is_failed_scope run
    then mark_blocked false (stages run events steps)
    else stages run events steps
