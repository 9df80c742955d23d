-- ===== src/Web/Reports.antt =====
-- apps/web/src/pages/Reports.tsx: the list of reports with their exports, and the form for a new one.
use morphia.Common.{
  String, Bool, true, false, not, ◌&&◌, ◌||◌, Option, none, some, List, [], ◌∷◌, ◌++◌, null?, trim,
  is_empty, is_some, prefix, show, opt_map, ◌==◌, ◌<>◌, ◌or_null◌, if◌then◌else◌,
}
use morphia.Common.Json.{Json}
use morphia.Common.View.{View, text, button, link, input, when}
use morphia.Types.System.{
  Report, ReportStatus, draft, review, final, submitted, acknowledged, ReportFormat, markdown, html,
  json, report_formats,
}
use morphia.Web.Api.{Outcome}
use morphia.Web.Requests.{failure}
use morphia.Web.ListStates.{Query, query_error, empty_state}

format_name : ReportFormat → String
format_name markdown = "markdown"
format_name html = "html"
format_name json = "json"

status_name : ReportStatus → String
status_name draft = "draft"
status_name review = "review"
status_name final = "final"
status_name submitted = "submitted"
status_name acknowledged = "acknowledged"

-- `GenerateReportForm`, and how its mutation stands.
pub record Form : Type 0 where
  pub project_id : String
  pub title : String
  pub is_pending : Bool
  pub error : Option String

-- The path and the title that are posted.
pub record Post : Type 0 where
  pub path : String
  pub title : String

-- The handler of the button: nothing without a project.
unfoldable pub submit : Form → Option Post
unfolding trim
submit f =
    if is_empty f.project_id
    then none
    else some
        (record { path = "/api/v1/projects/" <> f.project_id <> "/reports"; title = trim f.title })

-- `Reports`: the form where it is shown, the reports whose menu is open, and the queries that were invalidated.
pub record Page : Type 0 where
  pub form : Option Form
  pub open_menus : String → Bool
  pub invalidated : List String

unfoldable pub new_form : Form
new_form = record { project_id = ""; title = ""; is_pending = false; error = none }

-- `onSuccess` and what the mutation keeps of a failure, where the form that posted is still the one shown.
unfoldable pub settled : Outcome Json → Page → Page
unfolding failure
settled o p = elim (failure "Failed to create report." o) [
  | none ↦ record p { form = none; invalidated = p.invalidated ++ "reports" ∷ [] }
  | some message ↦ record p {
    form = opt_map (λ (f : Form). record f { is_pending = false; error = some message }) p.form;
  }
]

-- The button of `ExportMenu`, and what a choice in it does.
unfoldable pub menu_toggled : String → Page → Page
menu_toggled id p = record p {
  open_menus = λ k. if k == id then not (p.open_menus k) else p.open_menus k;
}

unfoldable pub menu_closed : String → Page → Page
menu_closed id p = record p { open_menus = λ k. if k == id then false else p.open_menus k }

pub data Click : Type 0 where
  show_form cancel submit_form retry : Click
  toggle_menu choose_format : (report_id : String) → Click
  set_project_id set_title : String → Click

posting : Form → Option Post × Option Form
unfolding submit
posting f = elim (submit f) [
  | none ↦ (none, some f)
  | some b ↦ (some b, some (record f { is_pending = true; error = none }))
]

-- What is posted, and the page then; a form that is opened is a new one.
unfoldable pub clicked : Click → Page → Option Post × Page
unfolding posting menu_toggled menu_closed
clicked show_form p = (none, record p { form = some (p.form or_null new_form) })
clicked cancel p = (none, record p { form = none })
clicked submit_form p = elim p.form [
  | none ↦ (none, p)
  | some f ↦ ((posting f).0, record p { form = (posting f).1 })
]
clicked retry p = (none, p)
clicked (toggle_menu id) p = (none, menu_toggled id p)
clicked (choose_format id) p = (none, menu_closed id p)
clicked (set_project_id s) p =
    (none, record p { form = opt_map (λ (f : Form). record f { project_id = s }) p.form })
clicked (set_title s) p =
    (none, record p { form = opt_map (λ (f : Form). record f { title = s }) p.form })

export_links : (report_id : String) → List ReportFormat → View Click
unfolding format_name
export_links id [] = []
export_links id (f ∷ fs) =
    link ("/api/v1/reports/" <> id <> "/export?format=" <> format_name f) (format_name f)
    ∷ export_links id fs

-- `ExportMenu`
unfoldable pub export_menu : (is_open : Bool) → Report → View Click
unfolding export_links report_formats
export_menu is_open r =
    button "Export ▾" false (toggle_menu r.id) ∷ when is_open (export_links r.id report_formats)

error_text : Option String → View Click
error_text none = []
error_text (some message) = text message ∷ []

unfoldable pub form_view : Form → View Click
unfolding error_text trim
form_view f =
    (text "New Report" ∷ error_text f.error)
    ++ text "Project"
      ∷ input f.project_id
      ∷ text "Title"
      ∷ input f.title
      ∷ button "Cancel" false cancel
      ∷ button (if f.is_pending then "Creating..." else "Create Report")
          (f.is_pending || is_empty f.project_id || is_empty (trim f.title)) submit_form
      ∷ []

form_of : Option Form → View Click
unfolding form_view
form_of none = button "New Report" false show_form ∷ []
form_of (some f) = form_view f

report_rows : (date : String → String) → (String → Bool) → List Report → View Click
unfolding status_name export_menu show
report_rows date opened [] = []
report_rows date opened (r ∷ rs) =
    text r.title
      ∷ text (r.project_name or_null prefix 8 r.project_id)
      ∷ text (status_name r.status)
      ∷ text (show (r.finding_count or_null 0))
      ∷ text (date r.created_at)
      ∷ export_menu (opened r.id) r
    ++ report_rows date opened rs

-- The page.
unfoldable pub view : (date : String → String) → Query (List Report) → Page → View Click
unfolding form_of report_rows query_error empty_state
view date q p =
    let ready : Bool = not q.is_loading && not (is_some q.error) in
    let reports : List Report = q.data_of or_null [] in
    (text "Reports"
      ∷ text
          "Disclosure-ready summaries of verified findings, exportable as Markdown, HTML, or JSON"
      ∷ form_of p.form)
    ++ (query_error "Failed to load reports." retry q.error
        ++ (when (ready && null? reports) (
              empty_state "No reports yet"
                "Create a report from a project's verified findings to produce a shareable, disclosure-style summary."
                [])
            ++ when (ready && not (null? reports)) (
                text "Title"
                ∷ text "Project"
                ∷ text "Status"
                ∷ text "Findings"
                ∷ text "Date"
                ∷ report_rows date p.open_menus reports)))
