-- ===== src/Web/Workflows/View.antt =====
-- apps/web/src/pages/Workflows.tsx: the cards of the workflows, and the page. The query is the query library's:
-- what it holds is an argument, and so is the state of each card.
use morphia.Common.{
  ℕ, String, Bool, true, false, not, ◌&&◌, Option, none, some, List, [], ◌∷◌, ◌++◌, length, null?,
  nat_eq, is_some, is_empty, show, ◌<>◌, ◌or_null◌, if◌then◌else◌,
}
use morphia.Common.View.{View, text, button, when}
use morphia.Types.{
  WorkflowNode, WorkflowNodeType, entry, step, approval_gate, exit, Workflow, WorkflowStatus,
  active, draft, archived,
}
use morphia.Web.Workflows.{default_workflows, linearize, step_count, gate_count}

-- What a click asks for: another try, a card opened or closed, or nothing (a button with no handler).
pub data Click : Type 0 where
  retry : Click
  toggle : (workflow_id : String) → Click
  no_handler : Click

-- The labels of `NODE_TYPE_STYLE`
type_label : WorkflowNodeType → String
type_label entry = "Entry"
type_label step = "Step"
type_label approval_gate = "Approval Gate"
type_label exit = "Exit"

status_name : WorkflowStatus → String
status_name active = "active"
status_name draft = "draft"
status_name archived = "archived"

node_rows : List WorkflowNode → View Click
unfolding type_label
node_rows [] = []
node_rows (n ∷ ns) =
    text (type_label n.type) ∷ text n.name ∷ when (not (null? ns)) (text "→" ∷ []) ++ node_rows ns

-- `WorkflowGraph`; nothing where the loop has no fuel left.
unfoldable pub graph : List WorkflowNode → View Click
unfolding linearize node_rows
graph nodes = node_rows (linearize nodes or_null [])

last_run : (locale : String → String) → Option String → String
last_run locale none = "Never run"
last_run locale (some at) = if is_empty at then "Never run" else "Last run " <> locale at

-- `WorkflowCard`
unfoldable pub card : (locale : String → String) (expanded : Bool) → Workflow → View Click
unfolding status_name step_count gate_count last_run graph show
card locale expanded w =
    text w.name
    ∷ text ("v" <> show w.version)
    ∷ text w.description
    ∷ text (status_name w.status)
    ∷ text (show (length w.nodes) <> " nodes")
    ∷ text (show (step_count w) <> " steps")
    ∷ text (show (gate_count w) <> " approval gates")
    ∷ text (last_run locale w.last_run_at)
    ∷ button (if expanded then "Hide structure" else "View structure") false (toggle w.id)
    ∷ when expanded (graph w.nodes)

cards : (locale : String → String) (expanded : String → Bool) → List Workflow → View Click
unfolding card
cards locale expanded [] = []
cards locale expanded (w ∷ ws) = card locale (expanded w.id) w ++ cards locale expanded ws

-- The error of the query: an ApiError, or another.
pub data Error : Type 0 where
  api_error : (status : ℕ) (message : String) → Error
  other_error : Error

-- What the query holds; an error can stand beside data of an earlier request.
pub record Query : Type 0 where
  pub is_loading : Bool
  pub error : Option Error
  pub data_of : Option (List Workflow)

-- `notImplemented`
unfoldable pub not_implemented : Option Error → Bool
not_implemented (some (api_error status message)) = nat_eq status 404
not_implemented _ = false

-- `workflows`
unfoldable pub workflows : Query → List Workflow
unfolding default_workflows not_implemented
workflows q = if not_implemented q.error then default_workflows else q.data_of or_null []

error_text : Option Error → View Click
error_text none = []
error_text (some (api_error status message)) = text message ∷ button "Retry" false retry ∷ []
error_text (some other_error) = text "Failed to load workflows." ∷ button "Retry" false retry ∷ []

-- `Workflows`; while the query is under way there is only the skeleton below the notice.
unfoldable pub view : (locale : String → String) (expanded : String → Bool) → Query → View Click
unfolding workflows not_implemented error_text cards
view locale expanded q =
    (text "Workflows"
      ∷ text "Orchestration templates defining how runs move from entry to exit"
      ∷ button "Create Workflow" true no_handler
      ∷ text
          "Reference view. These are the built-in orchestration templates; authoring and a GET /api/v1/workflows endpoint are on the roadmap."
      ∷ [])
    ++ (if not_implemented q.error then [] else error_text q.error)
    ++ when (not q.is_loading && not (is_some q.error) && null? (workflows q)) (
        text "No workflows defined"
        ∷ text "Workflows describe the entry, step, approval-gate, and exit nodes a run traverses."
        ∷ [])
    ++ when (not q.is_loading && not (null? (workflows q))) (cards locale expanded (workflows q))
