-- ===== src/Web/ProjectDetail/Tabs.antt =====
-- apps/web/src/pages/ProjectDetail.tsx: what the four tabs show.
use morphia.Common.{
  ℕ, String, Bool, false, not, ◌&&◌, Option, none, some, List, [], ◌∷◌, ◌++◌, filter, head?, length,
  opt_map, show, is_empty, ◌==◌, ◌<>◌, ◌or_else◌, ◌or_null◌,
}
use morphia.Common.View.{View, text, button, link, when}
use morphia.RunState.{failed, same, has}
use morphia.Types.{
  Run, Engagement, ScopeRule, ScopeRuleType, include, exclude, cancellable_states, approval_states,
  terminal_states,
}
use morphia.Web.StateBadge.{state_label}
use morphia.Web.ConfirmDialog.{Answer, dialog}
use morphia.Web.Runs.{
  to_cancel, to_approve, to_reject, Click, open_dialog, Row, cancel_dialog, decision_dialog,
}

-- `projectRuns` of the tabs.
unfoldable pub project_runs : (project_id : String) → List Run → List Run
project_runs project_id runs = filter (λ (r : Run). r.project_id == project_id) runs

-- `stats`; a query that has not answered yet, `none`, shows a dash, and one that failed counts as empty.
stat : String → Option ℕ → View Click
unfolding show
stat label none = text label ∷ text "—" ∷ []
stat label (some n) = text label ∷ text (show n) ∷ []

unfoldable pub overview_tab :
    (project_id : String) → Option (List Engagement) → Option (List Run) → View Click
unfolding stat project_runs
overview_tab project_id engagements runs =
    stat "Engagements" (opt_map length engagements)
    ++ stat "Runs" (opt_map (λ rs. length (project_runs project_id rs)) runs)
    ++ stat "Findings" (some 0)

-- The list of engagements.
unfoldable pub engagement_rows :
    {A : Type 0} → (locale : String → String) → List Engagement → View A
engagement_rows locale [] = []
engagement_rows locale (e ∷ es) =
    (text e.program_name
      ∷ text (e.authorization_basis or_else "No authorization basis recorded.")
      ∷ when (not (is_empty e.notes)) (text e.notes ∷ []))
    ++ text e.status ∷ text (locale e.created_at) ∷ engagement_rows locale es

-- `activeEngagementId` of the tab for the scope.
unfoldable pub active_engagement_id : (selected : String) → List Engagement → String
active_engagement_id selected engagements =
    selected or_else (opt_map (λ (e : Engagement). e.id) (head? engagements) or_null "")

rule_type_name : ScopeRuleType → String
rule_type_name include = "include"
rule_type_name exclude = "exclude"

-- The row of a rule; its button opens the dialog.
unfoldable pub rule_row : ScopeRule → View ScopeRule
unfolding rule_type_name
rule_row r =
    (text (rule_type_name r.rule_type)
      ∷ text r.target_type
      ∷ text r.pattern
      ∷ when r.is_wildcard (text "wildcard" ∷ []))
    ++ button "Remove" false r ∷ []

-- The dialog of a rule.
unfoldable pub rule_dialog : ScopeRule → (is_open is_pending : Bool) → Option String → View Answer
unfolding rule_type_name dialog
rule_dialog r is_open is_pending error =
    dialog
      (record {
        «open» = is_open;
        title = "Remove scope rule";
        description =
            "Remove the "
            <> rule_type_name r.rule_type
            <> " rule for \""
            <> r.pattern
            <> "\"? This action is logged in the audit trail.";
        confirm_label = "Remove";
        loading = is_pending;
        error = error;
      })
      []

-- The buttons of a run's row.
unfoldable pub run_controls : Run → View Click
unfolding approval_states cancellable_states terminal_states
run_controls run =
    let is_awaiting : Bool = has approval_states run.state in
    when is_awaiting (
      button "Approve" false (open_dialog to_approve)
      ∷ button "Reject" false (open_dialog to_reject)
      ∷ [])
    ++ when (not is_awaiting && has cancellable_states run.state)
        (button "Cancel" false (open_dialog to_cancel) ∷ [])
    ++ when (has terminal_states run.state) (text "no actions" ∷ [])

-- The row of a run.
unfoldable pub run_row : (locale : String → String) → Run → View Click
unfolding run_controls state_label
run_row locale run =
    (link ("/runs/" <> run.id) (run.title or_else "Untitled run")
      ∷ text (
          ((run.agent_profile or_null "") or_else "no agent profile")
          <> " · "
          <> locale run.created_at)
      ∷ when (same run.state failed && not (is_empty run.failure_reason))
          (text run.failure_reason ∷ []))
    ++ text (state_label run.state) ∷ run_controls run

-- The two dialogs of a run's row.
unfoldable pub run_dialogs : Run → Row → View Answer
unfolding cancel_dialog decision_dialog
run_dialogs run row = cancel_dialog run row ++ decision_dialog row
