-- ===== src/Web/StateBadge.antt =====
-- apps/web/src/components/StateBadge.tsx: the label of a run's state.
use morphia.Common.{String}
use morphia.RunState.{
  RunState, draft, planning, awaiting_plan_approval, queued, running, awaiting_action_approval,
  paused, completed, failed, cancelled,
}

-- The labels of `STATE_STYLES`
unfoldable pub state_label : RunState → String
state_label draft = "Draft"
state_label planning = "Planning"
state_label awaiting_plan_approval = "Awaiting Plan Approval"
state_label queued = "Queued"
state_label running = "Running"
state_label awaiting_action_approval = "Awaiting Action Approval"
state_label paused = "Paused"
state_label completed = "Completed"
state_label failed = "Failed"
state_label cancelled = "Cancelled"
