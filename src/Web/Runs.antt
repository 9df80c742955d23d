-- ===== src/Web/Runs.antt =====
-- apps/web/src/pages/Runs.tsx: the list of all runs, and the row of a run with its two dialogs. The queries
-- are the query library's: what they hold is an argument.
pub mod Screen
use morphia.Common.{
  String, Bool, true, false, not, ◌&&◌, ◌||◌, Option, none, some, List, [], ◌∷◌, ◌++◌, filter,
  is_empty, ◌==◌, ◌<>◌, ◌or_else◌, ◌or_null◌, ◌<|>◌, if◌then◌else◌,
}
use morphia.Common.Json.{Json}
use morphia.Common.View.{View, text, button, link, input, when}
use morphia.RunState.{RunState, same, has}
use morphia.Types.{Run, Project, cancellable_states, approval_states, terminal_states}
use morphia.Web.Api.{Outcome}
use morphia.Web.Requests.{RunAction, cancel, approve, reject, QueryKey, failure}
use morphia.Web.StateBadge.{state_label}
use morphia.Web.ConfirmDialog.{Answer, dialog}

-- `RunAction` of the source
pub data Decision : Type 0 where
  to_cancel to_approve to_reject : Decision

-- A mutation of the query library; an error is kept with the text that the dialog shows for it.
pub data Mutation : Type 0 where
  idle pending success : Mutation
  error : (message : String) → Mutation

-- The state of a row, and the keys that it has invalidated, the latest last.
pub record Row : Type 0 where
  pub pending_action : Option Decision
  pub justification : String
  pub cancelling : Mutation
  pub approving : Mutation
  pub rejecting : Mutation
  pub invalidated : List QueryKey

-- `mutationFn` of the mutation for a decision.
unfoldable pub request : Decision → String → RunAction
request to_cancel justification = cancel
request to_approve justification = approve justification
request to_reject justification = reject justification

unfoldable pub set_mutation : Decision → Mutation → Row → Row
set_mutation to_cancel m r = record r { cancelling = m }
set_mutation to_approve m r = record r { approving = m }
set_mutation to_reject m r = record r { rejecting = m }

unfoldable pub get_mutation : Decision → Row → Mutation
get_mutation to_cancel r = r.cancelling
get_mutation to_approve r = r.approving
get_mutation to_reject r = r.rejecting

fallback : Decision → String
fallback to_cancel = "Failed to cancel run."
fallback _ = "Action failed."

-- `setJustification("")`, which the cancellation leaves out.
unfoldable pub clear : Decision → Row → Row
clear to_cancel r = r
clear _ r = record r { justification = "" }

-- `onSuccess` of the three mutations, and the error that a mutation keeps.
unfoldable pub settled : Decision → Outcome Json → Row → Row
unfolding failure fallback clear set_mutation
settled d o r = elim (failure (fallback d) o) [
  | none ↦ clear d (record (set_mutation d success r) {
    pending_action = none;
    invalidated = r.invalidated ++ ("runs" ∷ []) ∷ [];
  })
  | some message ↦ set_mutation d (error message) r
]

-- What a click in the row asks for.
pub data Click : Type 0 where
  toggle : Click
  open_dialog : Decision → Click

unfoldable pub open_for : Decision → Row → Row
open_for d r = record r { pending_action = some d }

-- The buttons of the opened row.
unfoldable pub row_controls : Run → View Click
unfolding approval_states cancellable_states terminal_states
row_controls run =
    let is_awaiting : Bool = has approval_states run.state in
    when is_awaiting (
      button "Approve" false (open_dialog to_approve)
      ∷ button "Reject" false (open_dialog to_reject)
      ∷ [])
    ++ when (not is_awaiting && has cancellable_states run.state)
        (button "Cancel Run" false (open_dialog to_cancel) ∷ [])
    ++ when (has terminal_states run.state) (text "Terminal state — no further actions." ∷ [])
    ++ link ("/runs/" <> run.id) "Open run →" ∷ []

-- The row.
unfoldable pub row_view :
    (locale : String → String) → Run → (project_name : String) → Bool → View Click
unfolding row_controls state_label
row_view locale run project_name expanded =
    button
      ((run.title or_else "Untitled run")
        <> (project_name <> " · " <> locale run.created_at)
        <> state_label run.state)
      false toggle
    ∷ when expanded (
        text ("Agent profile: " <> ((run.agent_profile or_null "") or_else "—"))
          ∷ text ("Updated: " <> locale run.updated_at)
          ∷ when (not (is_empty run.failure_reason)) (text run.failure_reason ∷ [])
        ++ row_controls run)

is_to : Option Decision → Decision → Bool
is_to (some to_cancel) to_cancel = true
is_to (some to_approve) to_approve = true
is_to (some to_reject) to_reject = true
is_to _ _ = false

unfoldable pub is_pending : Mutation → Bool
is_pending pending = true
is_pending _ = false

unfoldable pub shown_error : Mutation → Option String
shown_error (error message) = some message
shown_error _ = none

-- The dialog for the cancellation.
unfoldable pub cancel_dialog : Run → Row → View Answer
unfolding is_to is_pending shown_error dialog
cancel_dialog run r =
    dialog
      (record {
        «open» = is_to r.pending_action to_cancel;
        title = "Cancel run";
        description =
            "Cancel \""
            <> (run.title or_else "this run")
            <> "\"? This will move it to the CANCELLED terminal state.";
        confirm_label = "Cancel Run";
        loading = is_pending r.cancelling;
        error = shown_error r.cancelling;
      })
      []

-- `activeMutation`
unfoldable pub active_mutation : Row → Mutation
active_mutation r = elim r.pending_action [
  | some to_cancel ↦ r.cancelling
  | some to_approve ↦ r.approving
  | some to_reject ↦ r.rejecting
  | none ↦ r.rejecting
]

-- The dialog for an approval and a rejection.
unfoldable pub decision_dialog : Row → View Answer
unfolding is_to is_pending shown_error dialog active_mutation
decision_dialog r =
    let approves : Bool = is_to r.pending_action to_approve in
    dialog
      (record {
        «open» = approves || is_to r.pending_action to_reject;
        title = if approves then "Approve run" else "Reject run";
        description =
            if approves
            then "Approving will advance this run to the next state."
            else "Rejecting will move this run to CANCELLED.";
        confirm_label = if approves then "Approve" else "Reject";
        loading = is_pending (active_mutation r);
        error = shown_error (active_mutation r);
      })
      (text "Justification (optional)" ∷ input r.justification ∷ [])

-- `onConfirm` and `onCancel` of the two dialogs: what is asked for, and the row after it.
unfoldable pub answer : Decision → Answer → Row → Option RunAction × Row
unfolding request set_mutation clear
answer d Answer.confirm r = (some (request d r.justification), set_mutation d pending r)
answer d Answer.cancel r = (none, clear d (record r { pending_action = none }))

-- The page: `none` is the filter "all".
in_state : RunState → Run → Bool
in_state s run = same run.state s

unfoldable pub filtered_runs : List Run → Option RunState → List Run
unfolding in_state
filtered_runs runs none = runs
filtered_runs runs (some s) = filter (in_state s) runs

-- A click on a row: `expandedId`
unfoldable pub on_toggle : String → Option String → Option String
on_toggle id none = some id
on_toggle id (some e) = if e == id then none else some id

-- `projectNameById.get(…) ?? "Unknown project"`: of two projects with one id the later one counts.
later_name : String → List Project → Option String
later_name id [] = none
later_name id (p ∷ ps) = later_name id ps <|> (if p.id == id then some p.name else none)

unfoldable pub project_name : String → List Project → String
unfolding later_name
project_name id ps = later_name id ps or_null "Unknown project"
