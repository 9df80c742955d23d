-- ===== src/Web/ProjectDetail/Frames.antt =====
-- apps/web/src/pages/ProjectDetail.tsx: the tabs for engagements, scope and runs around their forms and rows.
use morphia.Common.{
  String, Bool, false, not, ◌&&◌, Option, none, some, List, [], ◌∷◌, ◌++◌, find, null?, is_some,
  opt_map, ◌==◌, ◌or_null◌, if◌then◌else◌,
}
use morphia.Common.View.{View, text, button, input, when, embed}
use morphia.Types.{Run, Engagement, ScopeRule}
use morphia.Web.ConfirmDialog.{Answer}
use morphia.Web.ListStates.{Query, query_error, empty_state}
use morphia.Web.Runs.{Row, is_pending, shown_error, Click as RowClick}
use morphia.Web.AuthorizationBoundary.{Evaluator}
use morphia.Web.AuthorizationBoundary.View.{Action, view as boundary_view}
use morphia.Web.ProjectDetail.Forms.{
  EngagementForm, RuleForm, Click as FormClick, engagement_form, rule_form,
}
use morphia.Web.ProjectDetail.RunForm.{RunForm, run_form}
use morphia.Web.ProjectDetail.Tabs.{
  project_runs, engagement_rows, active_engagement_id, rule_row, rule_dialog, run_row, run_dialogs,
}
use morphia.Web.ProjectDetail.Rows.{RuleRow}

-- What a click in a tab asks for; a row is named by its key.
pub data Click : Type 0 where
  show_form retry : Click
  in_form : FormClick → Click
  in_boundary : Action → Click
  in_rule : (rule_id : String) → Click
  in_rule_dialog : (rule_id : String) → Answer → Click
  in_row : (run_id : String) → RowClick → Click
  in_row_dialog : (run_id : String) → Answer → Click

-- `setShowForm(true)` and `onDone`: a form that is opened is a new one.
unfoldable pub form_shown : {F : Type 0} → (new : F) → Option F → Option F
form_shown new f = some (f or_null new)

unfoldable pub form_done : {F : Type 0} → Option F → Option F
form_done f = none

open_button : {F : Type 0} → String → Option F → View Click
open_button label f = when (not (is_some f)) (button label false show_form ∷ [])

-- `EngagementsTab`
unfoldable pub engagements_tab :
    (date : String → String) → Query (List Engagement) → Option EngagementForm → View Click
unfolding open_button engagement_form engagement_rows query_error empty_state
engagements_tab date q f =
    let ready : Bool = not q.is_loading && not (is_some q.error) && is_some q.data_of in
    let engagements : List Engagement = q.data_of or_null [] in
    (text "Engagements" ∷ open_button "New Engagement" f)
    ++ ((opt_map (λ g. embed in_form (engagement_form g)) f or_null [])
        ++ (query_error "Failed to load engagements." retry q.error
            ++ (when (ready && null? engagements) (
                  empty_state "No engagements yet"
                    "Engagements group scope rules and assets under an authorized program." [])
                ++ when (ready && not (null? engagements)) (engagement_rows date engagements))))

-- The rows of the rules with their dialogs.
rule_rows : (String → RuleRow) → List ScopeRule → View Click
unfolding rule_row rule_dialog is_pending shown_error
rule_rows rows [] = []
rule_rows rows (r ∷ rs) =
    let row : RuleRow = rows r.id in
    embed (λ (q : ScopeRule). in_rule q.id) (rule_row r)
    ++ (embed (in_rule_dialog r.id)
          (rule_dialog r row.confirm_open (is_pending row.mutation) (shown_error row.mutation))
        ++ rule_rows rows rs)

-- What `ScopeTab` shows of the rules of the engagement `active_id`.
rules_view :
    (active_id : String)
    → List Engagement
    → Query (List ScopeRule)
    → (String → RuleRow)
    → Evaluator
    → View Click
unfolding rule_rows query_error empty_state
rules_view active_id engagements q rows e =
    let ready : Bool = not q.is_loading && not (is_some q.error) && is_some q.data_of in
    let rules : List ScopeRule = q.data_of or_null [] in
    query_error "Failed to load scope rules." retry q.error
    ++ (when (ready && null? rules) (
          empty_state "No scope rules yet"
            "Add include/exclude rules to define what is in bounds for this engagement." [])
        ++ when (ready && not (null? rules)) (
            embed in_boundary (
              boundary_view (find (λ (g : Engagement). g.id == active_id) engagements) rules none e)
            ++ text "RULES — MANAGE" ∷ rule_rows rows rules))

-- `ScopeTab`: without an engagement there is nothing but a placeholder, also where their query failed.
unfoldable pub scope_tab :
    Query (List Engagement)
    → (selected : String) → Query (List ScopeRule)
    → Option RuleForm
    → (String → RuleRow)
    → Evaluator
    → View Click
unfolding rules_view open_button rule_form active_engagement_id empty_state
scope_tab eq selected q f rows e =
    let engagements : List Engagement = eq.data_of or_null [] in
    let active_id : String = active_engagement_id selected engagements in
    if eq.is_loading
    then []
    else if null? engagements
    then empty_state "No engagements to scope"
        "Create an engagement first, then define its scope rules here." []
    else (text "Engagement" ∷ input active_id ∷ open_button "Add Scope Rule" f)
      ++ ((opt_map (λ g. embed in_form (rule_form g)) f or_null [])
          ++ rules_view active_id engagements q rows e)

run_rows : (locale : String → String) → (String → Row) → List Run → View Click
unfolding run_row run_dialogs
run_rows locale rows [] = []
run_rows locale rows (r ∷ rs) =
    embed (in_row r.id) (run_row locale r)
    ++ (embed (in_row_dialog r.id) (run_dialogs r (rows r.id)) ++ run_rows locale rows rs)

-- `RunsTab`; the form reads the engagements of the project.
unfoldable pub runs_tab :
    (locale : String → String) (project_id : String)
    → Query (List Run)
    → List Engagement
    → Option RunForm
    → (String → Row)
    → View Click
unfolding open_button run_form run_rows project_runs query_error empty_state
runs_tab locale project_id q engagements f rows =
    let ready : Bool = not q.is_loading && not (is_some q.error) in
    let runs : List Run = project_runs project_id (q.data_of or_null []) in
    (text "Runs" ∷ open_button "New Run" f)
    ++ ((opt_map (λ g. embed in_form (run_form engagements g)) f or_null [])
        ++ (query_error "Failed to load runs." retry q.error
            ++ (when (ready && null? runs) (
                  empty_state "No runs yet"
                    "Runs execute the agentic research workflow for this project." [])
                ++ when (ready && not (null? runs)) (run_rows locale rows runs))))
