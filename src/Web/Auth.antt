-- ===== src/Web/Auth.antt =====
-- apps/web/src/lib/auth.ts: signing in and out. Each action is a function of the replies that its
-- requests get; a value that TypeScript casts to a type is taken to have it.
pub mod Laws
use morphia.Common.{ℕ, String, Option, none, some, List}
use morphia.Common.Json.{Json, string, object, field, end}
use morphia.Types.{User}
use morphia.Web.Session.{set_csrf_token, set_current_user, clear_session}
use morphia.Web.Api.{
  Reply, Outcome, resolved, resolved_undefined, api_error, type_error, syntax_error, network_error,
  Client, get, post, call,
}

pub record LoginResponse : Type 0 where
  pub user : User
  pub csrf_token : String

-- An await whose promise was rejected throws on.
unfoldable pub rethrow : {T U : Type 0} → Outcome T → Outcome U → Outcome U
rethrow (resolved t) o = o
rethrow resolved_undefined o = o
rethrow (api_error status code message) o = api_error status code message
rethrow type_error o = type_error
rethrow syntax_error o = syntax_error
rethrow network_error o = network_error

-- The lines of `login` after the await; the fields of an undefined reply cannot be read.
unfoldable pub signed_in : {W : Type 0} → Outcome LoginResponse → Client W → Outcome User × Client W
unfolding rethrow
signed_in (resolved res) c = (
  resolved res.user,
  record c {
    session = set_current_user (some res.user) (set_csrf_token (some res.csrf_token) c.session);
  },
)
signed_in resolved_undefined c = (type_error, c)
signed_in o c = (rethrow o type_error, c)

unfoldable pub login :
    {W : Type 0}
    → (email password : String) → Reply LoginResponse
    → Client W
    → Outcome User × Client W
unfolding signed_in
login email password reply c =
    let body : Json =
      object (field "email" (string email) (field "password" (string password) end)) in
    let (o, c') = call post "/api/auth/login" (some body) reply c in signed_in o c'

-- The lines of `register` after the await of the first request.
unfoldable pub registered :
    {W : Type 0}
    → Outcome User
    → (Client W → Outcome User × Client W)
    → Client W
    → Outcome User × Client W
registered (resolved u) log_in c = log_in c
registered resolved_undefined log_in c = log_in c
registered (api_error status code message) log_in c = (api_error status code message, c)
registered type_error log_in c = (type_error, c)
registered syntax_error log_in c = (syntax_error, c)
registered network_error log_in c = (network_error, c)

unfoldable pub register :
    {W : Type 0}
    → (email password display_name : String) → Reply User
    → Reply LoginResponse
    → Client W
    → Outcome User × Client W
unfolding registered
register email password display_name reply login_reply c =
    let body : Json = object (
      field "email" (string email)
        (field "password" (string password) (field "display_name" (string display_name) end))) in
    let (o, c') = call post "/api/auth/register" (some body) reply c in
    registered o (login email password login_reply) c'

-- `logout`: the session is cleared however the request ends.
unfoldable pub logout : {W : Type 0} → Reply Json → Client W → Outcome (Unit {0}) × Client W
unfolding rethrow
logout reply c =
    let (o, c') = call post "/api/auth/logout" none reply c in
    (rethrow o (resolved tt), record c' { session = clear_session c'.session })

-- The lines of `fetchCurrentUser` after the await.
unfoldable pub fetched : {W : Type 0} → Outcome User → Client W → Option User × Client W
fetched (resolved u) c = (some u, record c { session = set_current_user (some u) c.session })
fetched resolved_undefined c = (none, record c { session = set_current_user none c.session })
fetched _ c = (none, c)

unfoldable pub fetch_current_user : {W : Type 0} → Reply User → Client W → Option User × Client W
unfolding fetched
fetch_current_user reply c = let (o, c') = call get "/api/auth/me" none reply c in fetched o c'
