-- ===== src/Web/Routes.antt =====
-- apps/web/src/App.tsx, pages/NotFound.tsx and components/ErrorBoundary.tsx: which page a path leads to, and what stands
-- for a page that is not there or that failed. The router matches a whole path, as texts between slashes, in any case.
pub mod Laws
use morphia.Common.{
  String, Bool, true, false, Option, none, some, List, [], ◌∷◌, ◌==◌, ◌or_else◌, ◌or_null◌, opt_map,
  to_lower, if◌then◌else◌,
}
use morphia.Common.View.{View, text, button, link}

-- What a `Route` renders.
pub data Element : Type 0 where
  sign_in operations dashboard projects runs agents evidence findings reports workflows : Element
  approvals audit_log settings not_found : Element
  project_detail run_detail : (id : String) → Element
  navigate : (to : String) → Element

-- Where a page stands: inside the guard of the layout, or outside of it.
pub data Place : Type 0 where
  guarded open_to_all : Element → Place

-- The routes with a single segment inside the guard.
unfoldable pub sections : List (String × Element)
sections =
    ("operations", operations)
    ∷ ("dashboard", dashboard)
    ∷ ("projects", projects)
    ∷ ("runs", runs)
    ∷ ("agents", agents)
    ∷ ("evidence", evidence)
    ∷ ("findings", findings)
    ∷ ("reports", reports)
    ∷ ("workflows", workflows)
    ∷ ("approvals", approvals)
    ∷ ("audit", audit_log)
    ∷ ("settings", settings)
    ∷ []

lookup_section : String → List (String × Element) → Option Element
lookup_section k [] = none
lookup_section k ((s, e) ∷ es) = if s == to_lower k then some e else lookup_section k es

-- `Routes`, on the segments of a path.
unfoldable pub route : List String → Place
unfolding sections lookup_section
route [] = guarded (navigate "/operations")
route (s ∷ []) =
    if to_lower s == "sign-in"
    then open_to_all sign_in
    else opt_map guarded (lookup_section s sections) or_null open_to_all not_found
route (s ∷ id ∷ []) =
    if to_lower s == "projects"
    then guarded (project_detail id)
    else if to_lower s == "runs"
    then guarded (run_detail id)
    else open_to_all not_found
route (s ∷ t ∷ u ∷ rest) = open_to_all not_found

-- `NotFound`
unfoldable pub not_found_view : View ⊥
not_found_view =
    text "404"
    ∷ text "Page not found"
    ∷ text "The page you requested does not exist."
    ∷ link "/dashboard" "Back to Dashboard"
    ∷ []

-- The state of `ErrorBoundary`; an error is its message.
pub record State : Type 0 where
  pub has_error : Bool
  pub error : Option String

unfoldable pub initial : State
initial = record { has_error = false; error = none }

-- `getDerivedStateFromError` and `handleRetry`
unfoldable pub derived_state_from_error : String → State
derived_state_from_error message = record { has_error = true; error = some message }

unfoldable pub handle_retry : State → State
handle_retry s = record { has_error = false; error = none }

pub data Click (A : Type 0) : Type 0 where
  retry : Click A
  in_child : A → Click A

-- `render`
unfoldable pub render :
    {A : Type 0}
    → (fallback : Option (View (Click A))) → State
    → (children : View (Click A)) → View (Click A)
render fallback s children =
    if s.has_error
    then fallback
      or_null (text "⚠"
          ∷ text "Something went wrong"
          ∷ text ((s.error or_null "") or_else "An unexpected error occurred.")
          ∷ button "Try again" false retry
          ∷ [])
    else children
