-- ===== src/Web/Projects.antt =====
-- apps/web/src/pages/Projects.tsx: the list of projects and the form for a new one.
use morphia.Common.{
  String, Bool, true, false, not, ◌&&◌, ◌||◌, Option, none, some, List, [], ◌∷◌, ◌++◌, null?, trim,
  is_empty, is_some, opt_map, ◌<>◌, ◌or_else◌, ◌or_null◌, if◌then◌else◌,
}
use morphia.Common.Json.{Json}
use morphia.Common.View.{View, text, button, link, input, when}
use morphia.Types.{Project}
use morphia.Web.Api.{Outcome}
use morphia.Web.Requests.{failure}
use morphia.Web.ListStates.{Query, query_error, empty_state}

-- `NewProjectForm`, and how its mutation stands.
pub record Form : Type 0 where
  pub name : String
  pub description : String
  pub is_pending : Bool
  pub error : Option String

pub record Body : Type 0 where
  pub name : String
  pub description : String

-- `handleSubmit`: what is posted, or nothing for a name that is blank.
unfoldable pub submit : Form → Option Body
unfolding trim
submit f =
    if is_empty (trim f.name)
    then none
    else some (record { name = trim f.name; description = trim f.description })

-- `Projects`: the form where it is shown, and the queries that were invalidated.
pub record Page : Type 0 where
  pub form : Option Form
  pub invalidated : List String

unfoldable pub new_form : Form
new_form = record { name = ""; description = ""; is_pending = false; error = none }

-- `onSuccess` and what the mutation keeps of a failure, where the form that posted is still the one shown.
unfoldable pub settled : Outcome Json → Page → Page
unfolding failure
settled o p = elim (failure "Failed to create project." o) [
  | none ↦ record { form = none; invalidated = p.invalidated ++ "projects" ∷ [] }
  | some message ↦ record p {
    form = opt_map (λ (f : Form). record f { is_pending = false; error = some message }) p.form;
  }
]

pub data Click : Type 0 where
  show_form cancel submit_form retry : Click
  set_name set_description : String → Click

posting : Form → Option Body × Option Form
unfolding submit
posting f = elim (submit f) [
  | none ↦ (none, some f)
  | some b ↦ (some b, some (record f { is_pending = true; error = none }))
]

-- What is posted, and the page then; a form that is opened is a new one.
unfoldable pub clicked : Click → Page → Option Body × Page
unfolding posting
clicked show_form p = (none, record p { form = some (p.form or_null new_form) })
clicked cancel p = (none, record p { form = none })
clicked submit_form p = elim p.form [
  | none ↦ (none, p)
  | some f ↦ ((posting f).0, record p { form = (posting f).1 })
]
clicked retry p = (none, p)
clicked (set_name s) p =
    (none, record p { form = opt_map (λ (f : Form). record f { name = s }) p.form })
clicked (set_description s) p =
    (none, record p { form = opt_map (λ (f : Form). record f { description = s }) p.form })

error_text : Option String → View Click
error_text none = []
error_text (some message) = text message ∷ []

unfoldable pub form_view : Form → View Click
unfolding error_text trim
form_view f =
    (text "New Project" ∷ error_text f.error)
    ++ text "Name"
      ∷ input f.name
      ∷ text "Description"
      ∷ input f.description
      ∷ button "Cancel" false cancel
      ∷ button (if f.is_pending then "Creating..." else "Create Project")
          (f.is_pending || is_empty (trim f.name)) submit_form
      ∷ []

form_of : Option Form → View Click
unfolding form_view
form_of none = button "New Project" false show_form ∷ []
form_of (some f) = form_view f

project_rows : (date : String → String) → List Project → View Click
project_rows date [] = []
project_rows date (p ∷ ps) =
    link ("/projects/" <> p.id) p.name
    ∷ text (p.description or_else "—")
    ∷ text p.status
    ∷ text (date p.created_at)
    ∷ project_rows date ps

-- The page; the empty list is shown only once there is an answer.
unfoldable pub view : (date : String → String) → Query (List Project) → Page → View Click
unfolding form_of project_rows query_error empty_state
view date q p =
    let ready : Bool = not q.is_loading && not (is_some q.error) && is_some q.data_of in
    let projects : List Project = q.data_of or_null [] in
    (text "Projects" ∷ text "Manage research engagements and their scope" ∷ form_of p.form)
    ++ (query_error "Failed to load projects." retry q.error
        ++ (when (ready && null? projects) (
              empty_state "No projects yet"
                "Create your first project to start orchestrating research engagements."
                (when (not (is_some p.form))
                  (button "Create your first project" false show_form ∷ [])))
            ++ when (ready && not (null? projects)) (
                text "Name"
                ∷ text "Description"
                ∷ text "Status"
                ∷ text "Created"
                ∷ project_rows date projects)))
