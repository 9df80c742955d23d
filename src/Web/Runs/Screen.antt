-- ===== src/Web/Runs/Screen.antt =====
-- apps/web/src/pages/Runs.tsx: the list of runs, for what its queries hold.
use morphia.Common.{
  String, Bool, false, not, ◌&&◌, Option, none, some, List, [], ◌∷◌, ◌++◌, null?, is_some, opt_map,
  ◌==◌, ◌<>◌, ◌or_null◌,
}
use morphia.Common.View.{View, text, input, when, embed}
use morphia.RunState.{RunState, awaiting_plan_approval, awaiting_action_approval, name}
use morphia.Types.{Run, Project}
use morphia.Web.ConfirmDialog.{Answer}
use morphia.Web.ListStates.{Query, query_error, empty_state}
use morphia.Web.Runs.{
  Row, Click as RowClick, row_view, cancel_dialog, decision_dialog, filtered_runs, project_name,
}

-- `s.replace(/_/g, " ")`
unfoldable pub spaced : RunState → String
spaced awaiting_plan_approval = "AWAITING PLAN APPROVAL"
spaced awaiting_action_approval = "AWAITING ACTION APPROVAL"
spaced s = name s

-- `Runs`; no state stands for "all".
pub record Page : Type 0 where
  pub state_filter : Option RunState
  pub expanded_id : Option String

pub data Click : Type 0 where
  set_state_filter : Option RunState → Click
  in_row : (run_id : String) → RowClick → Click
  in_dialog : (run_id : String) → Answer → Click
  retry : Click

is_expanded : Option String → String → Bool
is_expanded none id = false
is_expanded (some e) id = e == id

rows_view :
    (locale : String → String)
    → List Project
    → (String → Row)
    → Option String
    → List Run
    → View Click
unfolding row_view cancel_dialog decision_dialog project_name is_expanded
rows_view locale projects rows expanded [] = []
rows_view locale projects rows expanded (r ∷ rs) =
    embed (in_row r.id)
      (row_view locale r (project_name r.project_id projects) (is_expanded expanded r.id))
    ++ (embed (in_dialog r.id) (cancel_dialog r (rows r.id) ++ decision_dialog (rows r.id))
        ++ rows_view locale projects rows expanded rs)

-- Why the list is empty.
no_runs : Option RunState → String
unfolding spaced
no_runs none = "Create a run from within a project to get started."
no_runs (some s) = "No runs currently in the " <> spaced s <> " state."

-- The page.
unfoldable pub view :
    (locale : String → String)
    → Query (List Run)
    → List Project
    → (String → Row)
    → Page
    → View Click
unfolding rows_view no_runs filtered_runs query_error empty_state
view locale q projects rows p =
    let ready : Bool = not q.is_loading && not (is_some q.error) in
    let runs : List Run = filtered_runs (q.data_of or_null []) p.state_filter in
    (text "Runs"
      ∷ text "All orchestration runs across every project"
      ∷ input (opt_map name p.state_filter or_null "all")
      ∷ query_error "Failed to load runs." retry q.error)
    ++ (when (ready && null? runs) (empty_state "No runs found" (no_runs p.state_filter) [])
        ++ when (ready && not (null? runs)) (rows_view locale projects rows p.expanded_id runs))
