-- ===== src/Contracts.antt =====
-- packages/contracts/src/run_states.ts: the states, the sets of states by which the web client
-- chooses its controls, and the table of legal transitions.
use morphia.Common.{List, [], ◌∷◌}
use morphia.RunState.{
  RunState, draft, planning, awaiting_plan_approval, queued, running, awaiting_action_approval,
  paused, completed, failed, cancelled,
}

unfoldable pub run_states : List RunState
run_states =
    draft ∷ planning ∷ awaiting_plan_approval ∷ queued ∷ running ∷ awaiting_action_approval ∷ paused
    ∷ completed ∷ failed ∷ cancelled ∷ []

unfoldable pub cancellable_states : List RunState
cancellable_states =
    draft ∷ planning ∷ awaiting_plan_approval ∷ queued ∷ running ∷ awaiting_action_approval ∷ paused
    ∷ []

unfoldable pub approval_states : List RunState
approval_states = awaiting_plan_approval ∷ awaiting_action_approval ∷ []

unfoldable pub terminal_states : List RunState
terminal_states = completed ∷ failed ∷ cancelled ∷ []

unfoldable pub legal_transitions : RunState → List RunState
legal_transitions draft = planning ∷ cancelled ∷ []
legal_transitions planning = awaiting_plan_approval ∷ failed ∷ cancelled ∷ []
legal_transitions awaiting_plan_approval = queued ∷ cancelled ∷ []
legal_transitions queued = running ∷ failed ∷ cancelled ∷ []
legal_transitions running = awaiting_action_approval ∷ paused ∷ completed ∷ failed ∷ cancelled ∷ []
legal_transitions awaiting_action_approval = running ∷ cancelled ∷ []
legal_transitions paused = queued ∷ cancelled ∷ []
legal_transitions completed = []
legal_transitions failed = draft ∷ []
legal_transitions cancelled = []
