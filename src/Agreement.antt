-- ===== src/Agreement.antt =====
-- packages/contracts/src/run_states.ts, apps/web/src/lib/types.ts and apps/api/app/models/runs.py keep
-- three copies of one state machine; here they are compared, and the requests of the web client are
-- read as calls of the server's routes.
pub mod Controls
pub mod Gate
pub mod Rows
pub mod Decisions
pub mod NewRun
use morphia.Common.{String, ◌≡◌, refl, Bool, true, false, List}
use morphia.RunState.{
  RunState, draft, planning, awaiting_plan_approval, queued, running, awaiting_action_approval,
  paused, completed, failed, cancelled,
}
use morphia.Types
use morphia.Contracts
use morphia.Server.States
use morphia.Server.Store.{Result, ok, http_exception}
use morphia.Server.Runs.Calls.{Call}
use morphia.Web.Requests.{RunAction, transition, cancel, approve, reject}

-- The table of transitions is the same in the contracts package, in the web client and on the server,
-- and so are the sets of cancellable, approval and terminal states and the list of all.
pub copies_agree :
    (s : RunState)
    → (Contracts.legal_transitions s ≡ States.legal_transitions s)
      × (Types.legal_transitions s ≡ States.legal_transitions s)
      × (Contracts.cancellable_states ≡ States.cancellable_states)
      × (Types.cancellable_states ≡ States.cancellable_states)
      × (Contracts.approval_states ≡ States.approval_states)
      × (Types.approval_states ≡ States.approval_states)
      × (Contracts.terminal_states ≡ States.terminal_states)
      × (Types.terminal_states ≡ States.terminal_states)
      × (Contracts.run_states ≡ States.run_states)
      × (Types.run_states ≡ States.run_states)
unfolding Contracts.legal_transitions States.legal_transitions Types.legal_transitions
    Contracts.cancellable_states States.cancellable_states Types.cancellable_states
    Contracts.approval_states States.approval_states Types.approval_states Contracts.terminal_states
    States.terminal_states Types.terminal_states Contracts.run_states States.run_states
    Types.run_states
copies_agree s = elim s [
  | draft ↦ (refl, refl, refl, refl, refl, refl, refl, refl, refl, refl)
  | planning ↦ (refl, refl, refl, refl, refl, refl, refl, refl, refl, refl)
  | _ ↦ (refl, refl, refl, refl, refl, refl, refl, refl, refl, refl)
]

-- The call that a request of the web client is on the server: the bodies leave out the reason of a
-- transition, which is then empty.
unfoldable pub to_call : Bool → String → RunAction → Call
to_call redis_up id (transition t) = Call.transition id t ""
to_call redis_up id cancel = Call.cancel id
to_call redis_up id (approve why) = Call.approve redis_up id why
to_call redis_up id (reject why) = Call.reject id why

-- The server answers with a success.
abbrev pub is_accepted {ℓ} : {A : Type ℓ} → Result A → Bool
is_accepted (ok a) = true
is_accepted (http_exception c d) = false
