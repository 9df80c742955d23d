-- ===== src/Web/ApprovalGate.antt =====
-- apps/web/src/components/ApprovalGate.tsx: the panel on which a run that awaits approval is decided.
pub mod Laws
use morphia.Common.{
  ℕ, suc, ◌+◌, String, Bool, true, false, ◌||◌, Option, none, some, List, [], ◌∷◌, ◌++◌, ◌<>◌,
  ◌or_null◌, ◌<|>◌, opt_map, length, null?, nat_eq, is_empty, show, to_lower, if◌then◌else◌,
}
use morphia.Common.Json.{Json}
use morphia.Common.View.{View, text, button, input, when}
use morphia.RunState.{RunState, awaiting_plan_approval, awaiting_action_approval, name, same}
use morphia.Types.{Run, RunPlan, RunPlanStep}
use morphia.Web.Api.{Outcome}
use morphia.Web.Requests.{RunAction, transition, cancel, approve, reject, QueryKey, failure}

-- The state of the component, with the three flags `isPending`, and what its mutations have done: the
-- keys that they invalidated, the latest last, and how often they called `onDecided`.
pub record Gate : Type 0 where
  pub justification : String
  pub error : Option String
  pub approving : Bool
  pub rejecting : Bool
  pub cancelling : Bool
  pub invalidated : List QueryKey
  pub decided : ℕ

-- The first render.
unfoldable pub fresh : Gate
fresh = record {
  justification = "";
  error = none;
  approving = false;
  rejecting = false;
  cancelling = false;
  invalidated = [];
  decided = 0;
}

-- The text area's `onChange`.
unfoldable pub typed : String → Gate → Gate
typed s g = record g { justification = s }

-- The mutation that belongs to an action is under way, or no longer; the gate starts no transition.
unfoldable pub set_pending : RunAction → Bool → Gate → Gate
set_pending (transition t) b g = g
set_pending cancel b g = record g { cancelling = b }
set_pending (approve why) b g = record g { approving = b }
set_pending (reject why) b g = record g { rejecting = b }

-- The keys that `onSuccess` invalidates.
unfoldable pub stale : RunAction → String → List QueryKey
stale (transition t) id = []
stale cancel id = ("run" ∷ id ∷ []) ∷ ("runs" ∷ []) ∷ []
stale (approve why) id = ("run" ∷ id ∷ []) ∷ ("runs" ∷ []) ∷ ("run-events" ∷ id ∷ []) ∷ []
stale (reject why) id = ("run" ∷ id ∷ []) ∷ ("runs" ∷ []) ∷ []

-- `setError(null)`, which the success of a cancellation leaves out.
unfoldable pub clear_error : RunAction → Gate → Gate
clear_error cancel g = g
clear_error a g = record g { error = none }

unfoldable pub fallback : RunAction → String
fallback (transition t) = ""
fallback cancel = "Cancel failed"
fallback (approve why) = "Approve failed"
fallback (reject why) = "Reject failed"

-- `onSuccess` and `onError` of the three mutations.
unfoldable pub settled : RunAction → String → Outcome Json → Gate → Gate
unfolding set_pending stale clear_error fallback failure
settled a id o g =
    let g' : Gate = set_pending a false g in
    elim (failure (fallback a) o) [
      | none ↦ record (clear_error a g') {
        invalidated = g'.invalidated ++ stale a id;
        decided = suc g'.decided;
      }
      | some message ↦ record g' { error = some message }
    ]

unfoldable pub busy : Gate → Bool
busy g = g.approving || g.rejecting || g.cancelling

unfoldable pub is_approval_state : Run → Bool
is_approval_state run =
    same run.state awaiting_plan_approval || same run.state awaiting_action_approval

approval_type : Run → String
approval_type run = if same run.state awaiting_plan_approval then "Plan" else "Action"

pub plan_rows : ℕ → List RunPlanStep → View RunAction
unfolding show
plan_rows i [] = []
plan_rows i (s ∷ ss) =
    text ("#" <> show (i + 1))
    ∷ text s.action
    ∷ text ("→ " <> s.target)
    ∷ text s.prompt
    ∷ plan_rows (suc i) ss

-- The panel's head, the request, the plan and the check of the scope.
unfoldable pub request : (locale : String → String) → Run → Option String → View RunAction
unfolding approval_type plan_rows show
request locale run engagement =
    let steps : List RunPlanStep = opt_map (λ (p : RunPlan). p.steps) run.plan or_null [] in
    (text "EXECUTION PAUSED — HUMAN AUTHORIZATION REQUIRED"
      ∷ text (
          "The agent cannot continue. A human must review the "
          <> to_lower (approval_type run)
          <> " and authorize execution. This gate is enforced server-side — the worker will not proceed without an approval record.")
      ∷ text "AWAITING HUMAN"
      ∷ text "REQUEST"
      ∷ text "Run"
      ∷ text (run.title)
      ∷ text "Engagement"
      ∷ text (((engagement <|> run.engagement_id) or_null "—"))
      ∷ text "Agent profile"
      ∷ text ((run.agent_profile or_null "—"))
      ∷ text "State"
      ∷ text (name run.state)
      ∷ text "Created"
      ∷ text (locale run.created_at)
      ∷ text (
          "PROPOSED PLAN · "
          <> show (length steps)
          <> " STEP"
          <> (if nat_eq (length steps) 1 then "" else "S"))
      ∷ (if null? steps then text "No plan steps" ∷ [] else plan_rows 0 steps))
    ++ (text "AUTHORIZATION CHECK"
        ∷ text "API scope validation"
        ∷ text "PASS"
        ∷ text "Engagement active"
        ∷ text "YES"
        ∷ text "Worker revalidation"
        ∷ text "PENDING APPROVAL"
        ∷ text
            "Worker will independently revalidate scope before execution. Approval does not bypass scope."
        ∷ [])

error_text : Option String → View RunAction
error_text none = []
error_text (some e) = when (not_empty e) (text e ∷ [])
  where
    not_empty : String → Bool
    not_empty s = if is_empty s then false else true

-- The text area and the three buttons.
unfoldable pub decision : Gate → View RunAction
unfolding error_text busy
decision g =
    (text "DECISION JUSTIFICATION (required — recorded in audit trail)"
      ∷ input g.justification
      ∷ error_text g.error)
    ++ button (if g.approving then "Approving…" else "Approve — authorize execution") (busy g)
        (approve g.justification)
      ∷ button (if g.rejecting then "Rejecting…" else "Reject") (busy g) (reject g.justification)
      ∷ button "Cancel run" (busy g) cancel
      ∷ text
          "Decision is recorded with actor, timestamp, and justification. Self-approvals are flagged in the audit trail."
      ∷ []

-- The component.
unfoldable pub view : (locale : String → String) → Run → Option String → Gate → View RunAction
unfolding is_approval_state request decision
view locale run engagement g =
    if is_approval_state run then request locale run engagement ++ decision g else []
