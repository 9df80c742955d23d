-- ===== src/Web/Approvals.antt =====
-- apps/web/src/pages/Approvals.tsx: the runs that await a decision, and the card of each with its dialog.
-- The queries are the query library's: what they hold is an argument.
pub mod Laws
use morphia.Common.{
  String, Bool, true, false, Option, none, some, List, [], ◌∷◌, ◌++◌, filter, to_lower, is_some,
  ◌<>◌, ◌or_else◌, if◌then◌else◌,
}
use morphia.Common.Json.{Json}
use morphia.Common.View.{View, text, button, input}
use morphia.RunState.{RunState, awaiting_plan_approval, same, has}
use morphia.Types.{Run, Project, approval_states}
use morphia.Web.Api.{Outcome}
use morphia.Web.Requests.{RunAction, approve, reject, QueryKey, failure}
use morphia.Web.ConfirmDialog.{Answer, Props, dialog}
use morphia.Web.Runs.{Mutation, idle, pending, success, error, project_name}

pub data Decision : Type 0 where
  to_approve to_reject : Decision

-- The state of a card, and the keys that it has invalidated, the latest last.
pub record Card : Type 0 where
  pub decision : Option Decision
  pub justification : String
  pub approving : Mutation
  pub rejecting : Mutation
  pub invalidated : List QueryKey

-- `mutationFn` of the two mutations.
unfoldable pub request : Decision → String → RunAction
request to_approve justification = approve justification
request to_reject justification = reject justification

unfoldable pub set_mutation : Decision → Mutation → Card → Card
set_mutation to_approve m c = record c { approving = m }
set_mutation to_reject m c = record c { rejecting = m }

-- `onSuccess` of the two mutations, and the error that a mutation keeps.
unfoldable pub settled : Decision → Outcome Json → Card → Card
unfolding failure set_mutation
settled d o c = elim (failure "Action failed." o) [
  | none ↦ record (set_mutation d success c) {
    decision = none;
    justification = "";
    invalidated = c.invalidated ++ ("runs" ∷ []) ∷ [];
  }
  | some message ↦ set_mutation d (error message) c
]

-- `setDecision` of the two buttons.
unfoldable pub decide : Decision → Card → Card
decide d c = record c { decision = some d }

approves : Option Decision → Bool
approves (some to_approve) = true
approves _ = false

-- `activeMutation`
unfoldable pub active_mutation : Card → Mutation
unfolding approves
active_mutation c = if approves c.decision then c.approving else c.rejecting

-- `onConfirm` and `onCancel`: what is asked for, and the card after it.
unfoldable pub answer : Answer → Card → Option RunAction × Card
unfolding approves request set_mutation
answer Answer.confirm c =
    let d : Decision = if approves c.decision then to_approve else to_reject in
    (some (request d c.justification), set_mutation d pending c)
answer Answer.cancel c = (none, record c { decision = none; justification = "" })

approval_type : Run → String
approval_type run = if same run.state awaiting_plan_approval then "Plan" else "Action"

is_pending : Mutation → Bool
is_pending pending = true
is_pending _ = false

shown_error : Mutation → Option String
shown_error (error message) = some message
shown_error _ = none

description : Bool → Run → String
unfolding approval_type
description is_approval run =
    (if is_approval then "Approve the " else "Reject the ")
    <> to_lower (approval_type run)
    <> " for \""
    <> (run.title or_else "this run")
    <> (if is_approval
        then "\"? This advances it to the next state."
        else "\"? This moves it to CANCELLED.")

-- The dialog over the card.
unfoldable pub card_dialog : Run → Card → View Answer
unfolding description approves is_pending shown_error active_mutation dialog
card_dialog run c =
    dialog
      (record {
        «open» = is_some c.decision;
        title = if approves c.decision then "Approve run" else "Reject run";
        description = description (approves c.decision) run;
        confirm_label = if approves c.decision then "Approve" else "Reject";
        loading = is_pending (active_mutation c);
        error = shown_error (active_mutation c);
      })
      (text "Justification (required — recorded in audit trail)" ∷ input c.justification ∷ [])

-- `pendingRuns`
unfoldable pub pending_runs : List Run → List Run
unfolding approval_states
pending_runs runs = filter (λ (r : Run). has approval_states r.state) runs

-- A query of the query library: no answer yet, an answer, or an error with the text that is shown for it.
pub data Query : Type 0 where
  is_loading : Query
  is_error : (message : String) → Query
  data_of : List Run → Query

-- What a click on the page asks for: another try, or a decision on the run with an id.
pub data Click : Type 0 where
  retry : Click
  on_card : (run_id : String) → Decision → Click

cards : (locale : String → String) → List Project → List Run → View Click
unfolding approval_type
cards locale projects [] = []
cards locale projects (run ∷ runs) =
    text (run.title or_else "Untitled run")
    ∷ text (approval_type run <> " approval")
    ∷ text (
        project_name run.project_id projects
        <> " · requested by "
        <> run.created_by
        <> " · "
        <> locale run.updated_at)
    ∷ button "Approve" false (on_card run.id to_approve)
    ∷ button "Reject" false (on_card run.id to_reject)
    ∷ cards locale projects runs

-- The list, or what stands in its place where it is empty.
listed : (locale : String → String) → List Project → List Run → View Click
unfolding cards
listed locale projects [] = text "No pending approvals" ∷ []
listed locale projects (r ∷ rs) = cards locale projects (r ∷ rs)

-- The page.
unfoldable pub view : (locale : String → String) → List Project → Query → View Click
unfolding pending_runs listed
view locale projects q =
    text "Approvals" ∷ text "Runs currently awaiting plan or action approval" ∷ elim q [
      | is_loading ↦ []
      | is_error message ↦ text message ∷ button "Retry" false retry ∷ []
      | data_of runs ↦ listed locale projects (pending_runs runs)
    ]
