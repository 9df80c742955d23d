-- ===== src/Web/Layout.antt =====
-- apps/web/src/components/Layout.tsx: the guard around every page that needs a signed-in user, and the
-- frame that it draws.
pub mod Laws
use morphia.Common.{
  ℕ, String, Bool, true, false, Option, none, some, List, [], ◌∷◌, ◌++◌, map, to_upper, prefix,
  opt_map, ◌or_null◌, ◌<>◌, starts_with, if◌then◌else◌,
}
use morphia.Common.Json.{Json}
use morphia.Common.View.{View, text, button, link, when}
use morphia.Types.{User}
use morphia.Web.Session.{get_current_user}
use morphia.Web.Api.{Reply, Outcome, resolved, resolved_undefined, Client, set_unauthorized_handler}
use morphia.Web.Auth.{logout, fetch_current_user}

pub data AuthState : Type 0 where
  checking authed anon : AuthState

-- The state of the component, the place of the router and the keys in the query client's cache.
-- `unmounted` is the flag that the clean-up of the second effect sets.
pub record App : Type 0 where
  pub auth_state : AuthState
  pub user : Option User
  pub nav_open : Bool
  pub location : String
  pub cache : List String
  pub unmounted : Bool

-- The handler that the first effect gives to the API client.
unfoldable pub on_unauthorized : App → App
on_unauthorized w = record w { auth_state = anon; cache = []; location = "/sign-in" }

-- The second effect where a user is known: no request is made.
known_user : Option User → App → App
known_user none w = w
known_user (some u) w = record w { user = some u; auth_state = authed }

initial : Option User → AuthState
initial none = checking
initial (some u) = authed

-- The component's first render and its effects, up to the request of the second one.
unfoldable pub mount : Client App → Client App
unfolding known_user initial
mount c =
    let known : Option User = get_current_user c.session in
    let fresh : App = record c.app {
      auth_state = initial known;
      user = known;
      nav_open = false;
      unmounted = false;
    } in
    set_unauthorized_handler on_unauthorized (record c { app = known_user known fresh })

unfoldable pub unmount : Client App → Client App
unmount c = record c { app = record c.app { unmounted = true } }

arrived : Option User → App → App
arrived none w = record w { auth_state = anon; location = "/sign-in" }
arrived (some u) w = record w { user = some u; auth_state = authed }

-- The callback of the second effect.
unfoldable pub user_arrived : Option User → App → App
unfolding arrived
user_arrived u w = if w.unmounted then w else arrived u w

-- The rest of the second effect where no user is known.
unfoldable pub check_user : Reply User → Client App → Client App
unfolding user_arrived
check_user reply c =
    let (u, c') = fetch_current_user reply c in record c' { app = user_arrived u c'.app }

-- The third effect: the drawer closes where the router goes elsewhere.
unfoldable pub path_changed : String → App → App
path_changed to w = record w { location = to; nav_open = false }

-- The lines of `handleLogout` after the await; an error of `logout` ends it before them.
unfoldable pub logged_out : Outcome (Unit {0}) → App → App
logged_out (resolved _) w = record w { cache = []; location = "/sign-in" }
logged_out resolved_undefined w = record w { cache = []; location = "/sign-in" }
logged_out _ w = w

unfoldable pub handle_logout : Reply Json → Client App → Client App
unfolding logged_out
handle_logout reply c = let (o, c') = logout reply c in record c' { app = logged_out o c'.app }

pub record NavItem : Type 0 where
  pub to : String
  pub label : String
  pub icon : String

pub record NavSection : Type 0 where
  pub label : String
  pub items : List NavItem

item : String → String → String → NavItem
item to label icon = record { to = to; label = label; icon = icon }

unfoldable pub nav_sections : List NavSection
unfolding item
nav_sections =
    record {
      label = "Operations";
      items = item "/operations" "Operations" "◉" ∷ item "/dashboard" "Overview" "⬡" ∷ [];
    }
    ∷ record {
      label = "Work";
      items =
          item "/projects" "Engagements" "◫"
          ∷ item "/runs" "Runs" "▶"
          ∷ item "/approvals" "Approvals" "✓"
          ∷ [];
    }
    ∷ record {
      label = "Evidence & Analysis";
      items =
          item "/evidence" "Evidence" "◧"
          ∷ item "/findings" "Findings" "⚑"
          ∷ item "/reports" "Reports" "◱"
          ∷ [];
    }
    ∷ record {
      label = "Governance";
      items =
          item "/audit" "Audit Log" "◎"
          ∷ item "/agents" "Agents" "◈"
          ∷ item "/workflows" "Workflows" "⬢"
          ∷ item "/settings" "System" "⬣"
          ∷ [];
    }
    ∷ []

-- What the frame's buttons do, and an event of the page inside it.
pub data Action (P : Type 0) : Type 0 where
  close_nav open_nav log_out : Action P
  page : P → Action P

nav_links : {P : Type 0} → List NavItem → View (Action P)
nav_links [] = []
nav_links (i ∷ is) = link i.to (i.icon <> i.label) ∷ nav_links is

unfoldable pub nav_view : {P : Type 0} → List NavSection → View (Action P)
unfolding nav_links
nav_view [] = []
nav_view (s ∷ ss) = text (to_upper s.label) ∷ nav_links s.items ++ nav_view ss

-- The frame; `today` is the date of the clock in UTC, and `outlet` the page.
unfoldable pub frame : {P : Type 0} → String → App → View (Action P) → View (Action P)
unfolding nav_view
frame today w outlet =
    when w.nav_open (button "Close navigation" false close_nav ∷ [])
    ++ (text "MORPHIA"
        ∷ text "v0.2 α"
        ∷ text "HUMAN-GOVERNED ORCHESTRATION"
        ∷ text "scope → plan → approval → execution → evidence"
        ∷ nav_view nav_sections)
    ++ (text "OPERATION STATUS"
        ∷ text (
            if starts_with w.location "/operations"
            then "●  Command center active"
            else "○  Standby")
        ∷ text "Nothing executes without approval"
        ∷ text (initial_of w.user)
        ∷ text (opt_map (λ (u : User). u.display_name) w.user or_null "")
        ∷ text (opt_map (λ (u : User). u.role) w.user or_null "")
        ∷ button "Exit" false log_out
        ∷ button "☰" false open_nav
        ∷ text "AUTHORIZATION BOUNDARY ENFORCED · DUAL VALIDATION · AUDIT TRAIL ACTIVE"
        ∷ text (today <> " · " <> (opt_map (λ (u : User). u.email) w.user or_null ""))
        ∷ outlet)
  where
    first : String → String
    first String.[] = "?"
    first s = to_upper (prefix 1 s)

    initial_of : Option User → String
    initial_of none = "?"
    initial_of (some u) = first u.display_name

-- The component: a page is drawn for a signed-in user alone.
unfoldable pub layout : {P : Type 0} → String → App → View (Action P) → View (Action P)
unfolding frame
layout today w outlet = elim w.auth_state [
  | checking ↦ text "Loading..." ∷ []
  | anon ↦ []
  | authed ↦ frame today w outlet
]
