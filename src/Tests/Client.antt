-- ===== src/Tests/Client.antt =====
-- apps/web/src/lib and the frame of components/Layout.tsx, on a session of one user's.
use morphia.Common.{
  Option, ℕ, ◌≤◌, ◌≢◌, String, ◌≡◌, refl, ◌⊎◌, false, not, ◌&&◌, none, some, [], ◌∷◌, if◌then◌else◌,
  is_empty,
}
use morphia.Common.Json.{Json, Fields, string, object, array, cons, nil, field, end}
use morphia.Common.View.{View, text}
use morphia.Types.{User}
use morphia.Web.Session.{Storage, Session, get_csrf_token, get_current_user}
use morphia.Web.Api.{
  Reply, response, unreachable, Client, lookup, prepare, init, receive, outcome_of, is_ok, get,
  post, call, request,
}
use morphia.Web.Api.Laws.{is_get, prepare-csrf, unauthorized_lem}
use morphia.Web.Auth.{LoginResponse, login, signed_in}
use morphia.Web.Auth.Laws.{login-csrf}
use morphia.Web.Requests.{failure}
use morphia.Web.SignIn.{Form, to_login, send, handle_submit}
use morphia.Web.SignIn.Laws.{handle_submit_lem}
use morphia.Web.Layout.{App, authed, anon, mount, check_user, handle_logout, layout, Action}
use morphia.Web.Layout.Laws.{expired_lem, check_user-settles, handle_logout_lem}

abbrev user : User
user = record { id = "u1"; email = "ada@example.org"; display_name = "Ada"; role = "owner" }

abbrev storage : Storage
storage = record { item = some "old"; disabled = false; full = false }

abbrev session : Session
session = record {
  csrf_token = some "token";
  current_user = some user;
  listeners = 0 ∷ 1 ∷ [];
  storage = storage;
  notified = [];
}

abbrev app : App
app = record {
  auth_state = authed;
  user = some user;
  nav_open = false;
  location = "/runs";
  cache = "runs" ∷ [];
  unmounted = false;
}

abbrev leave : App → App
leave w = record w { location = "/sign-in" }

abbrev client : Client App
client = record { session = session; on_unauthorized = some leave; app = app; sent = [] }

abbrev answered : Reply String
answered = response 200 (some "run") none

abbrev denied : Reply String
denied = response 401 none (some (object end))

abbrev problem : Fields
problem = field "msg" (string "String should have at least 10 characters") end

abbrev refused : Reply String
refused = response 422 none (some (object (field "detail" (array (cons (object problem) nil)) end)))

prepare-csrf_example :
    (lookup "X-CSRF-Token" (prepare "/api/v1/runs/r1/cancel" (init post none) session).headers
      ≡ some "token")
    × (lookup "Content-Type" (prepare "/api/v1/runs/r1/cancel" (init post none) session).headers
        ≡ some "application/json")
unfolding get_csrf_token
prepare-csrf_example = prepare-csrf post "/api/v1/runs/r1/cancel" none session

unauthorized_lem_example :
    let c' = (receive denied client).1 in
    (get_csrf_token c'.session ≡ none)
    × (get_current_user c'.session ≡ none)
    × (c'.app ≡ leave app)
    × (lookup "X-CSRF-Token" (prepare "/api/v1/runs" (init post none) c'.session).headers ≡ none)
unauthorized_lem_example =
    unauthorized_lem {T = String} none (some (object end)) leave client post "/api/v1/runs" none
      refl

abbrev login_reply : Reply LoginResponse
login_reply = response 200 (some (record { user = user; csrf_token = "fresh" })) none

login-csrf_example :
    let session' = (login "ada@example.org" "secret" login_reply client).1.session in
    (res : LoginResponse) × (status : ℕ) × (error : Option Json) × (login_reply
      ≡ response status (some res) error)
    × (200 ≤ status)
    × (status ≤ 299)
    × (status ≢ 204)
    × (res.user ≡ user)
    × (get_current_user session' ≡ some user)
    × (lookup "X-CSRF-Token" (prepare "/api/v1/runs" (init post none) session').headers ≡ (
        if not (is_get post) && not (is_empty res.csrf_token) then some res.csrf_token else none))
unfolding login signed_in receive outcome_of is_ok call request
login-csrf_example =
    login-csrf "ada@example.org" "secret" login_reply client {u = user} post "/api/v1/runs" none
      refl

abbrev outlet : View (Action (Unit {0}))
outlet = text "Runs" ∷ []

expired_lem_example :
    let c' = (call get "/api/v1/runs" none denied (mount client)).1 in
    (layout "2026-08-01" c'.app outlet ≡ [])
    × (c'.app.cache ≡ [])
    × (c'.app.location ≡ "/sign-in")
    × (get_csrf_token c'.session ≡ none)
expired_lem_example =
    expired_lem client get "/api/v1/runs" none none (some (object end)) "2026-08-01" outlet

check_user-settles_example :
    let c' = check_user (response 200 (some user) none) (mount client) in
    ((c'.app.auth_state ≡ authed)
      × ((u : User) × (c'.app.user ≡ some u) × (get_current_user c'.session ≡ some u)))
    ⊎ ((c'.app.auth_state ≡ anon) × (c'.app.location ≡ "/sign-in"))
check_user-settles_example = check_user-settles (response 200 (some user) none) client

handle_logout_lem_example :
    let done = handle_logout (response 200 (some (object end)) none) client in
    let failed = handle_logout unreachable client in
    (done.app.cache ≡ [])
    × (done.app.location ≡ "/sign-in")
    × (get_csrf_token done.session ≡ none)
    × (get_csrf_token failed.session ≡ none)
    × (failed.app ≡ app)
handle_logout_lem_example = handle_logout_lem (object end) client

abbrev form : Form
form = record {
  mode = to_login;
  email = "ada@example.org";
  password = "secret";
  display_name = "";
  error = "";
  loading = false;
  location = "/sign-in";
}

handle_submit_lem_example :
    let (f', c') = handle_submit unreachable unreachable form client in
    (f'.loading ≡ false)
    × (((f'.location ≡ "/operations")
          × (f'.error ≡ "")
          × ((u : User) × (get_current_user c'.session ≡ some u)))
        ⊎ ((f'.location ≡ form.location)
            × (failure "Network error. Please try again."
                  (send unreachable unreachable form client).0
                ≡ some f'.error)))
handle_submit_lem_example = handle_submit_lem unreachable unreachable form client
