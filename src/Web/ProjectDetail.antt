-- ===== src/Web/ProjectDetail.antt =====
-- apps/web/src/pages/ProjectDetail.tsx: the page of a project with its tabs. The queries are the query
-- library's: what they hold is an argument.
pub mod Forms
pub mod RunForm
pub mod Tabs
pub mod Rows
pub mod Frames
pub mod Laws
use morphia.Common.{
  String, Bool, true, false, Option, none, some, List, [], ◌∷◌, ◌++◌, ◌or_else◌, if◌then◌else◌,
}
use morphia.Common.View.{View, text, button, link}
use morphia.Types.{Project}

pub data Tab : Type 0 where
  overview engagements scope runs : Tab

-- `TABS`
unfoldable pub tabs : List (Tab × String)
tabs =
    (overview, "Overview") ∷ (engagements, "Engagements") ∷ (scope, "Scope") ∷ (runs, "Runs") ∷ []

-- What a click on the page asks for: another tab, another try, or what the tab that is shown asks for.
pub data Click (A : Type 0) : Type 0 where
  set_tab : Tab → Click A
  retry : Click A
  in_tab : A → Click A

tab_buttons : {A : Type 0} → List (Tab × String) → View (Click A)
tab_buttons [] = []
tab_buttons ((t, label) ∷ ts) = button label false (set_tab t) ∷ tab_buttons ts

-- The query for the project: no answer yet, an error with the text that is shown for it, or an answer.
pub data Query : Type 0 where
  is_loading : Query
  is_error : (message : String) → Query
  data_of : Option Project → Query

-- The page around the tab that is shown, `inside`; `id` is the one in the path.
unfoldable pub page : {A : Type 0} → (id : Option String) → Query → View (Click A) → View (Click A)
unfolding tabs tab_buttons
page none q inside = []
page (some id) is_loading inside = []
page (some id) (is_error message) inside = text message ∷ button "Retry" false retry ∷ []
page (some id) (data_of none) inside = []
page (some id) (data_of (some project)) inside =
    link "/projects" "← Back to Projects"
      ∷ text project.name
      ∷ text project.status
      ∷ text (project.description or_else "No description provided.")
      ∷ tab_buttons tabs
    ++ inside
