-- ===== src/Web/Auth/Laws.antt =====
-- apps/web/src/lib/auth.ts: what a sign-in leaves behind, and that a sign-out always clears it.
use morphia.Common.{
  ℕ, ◌≤◌, ◌≢◌, String, ◌≡◌, refl, ◌∙◌, not, ◌&&◌, Option, none, some, [], ◌∷◌, ◌++◌, is_empty,
  if◌then◌else◌,
}
use morphia.Common.Json.{Json}
use morphia.Types.{User}
use morphia.Web.Session.{get_csrf_token, get_current_user, set_csrf_token, set_current_user}
use morphia.Web.Session.Laws.{clear_session-memory}
use morphia.Web.Api.{
  Reply, response, Outcome, resolved, resolved_undefined, api_error, type_error, syntax_error,
  network_error, Client, Method, post, call, request, init, prepare, lookup,
}
use morphia.Web.Api.Laws.{prepare-csrf, is_get, receive-sent, receive-eq-resolved}
use morphia.Web.Auth.{LoginResponse, signed_in, login, logout}

-- A sign-in that resolves to a user leaves that user and the token of the server's reply in the session,
-- and every later request that changes something carries that token.
pub signed_in_lem :
    {W : Type 0} (o : Outcome LoginResponse) (c : Client W) {u : User}
    → (signed_in o c).0 ≡ resolved u
    → (res : LoginResponse) × (o ≡ resolved res)
      × (res.user ≡ u)
      × (get_current_user (signed_in o c).1.session ≡ some u)
      × (get_csrf_token (signed_in o c).1.session ≡ some res.csrf_token)
unfolding signed_in get_current_user get_csrf_token set_current_user set_csrf_token
signed_in_lem (resolved res) c h = (res, refl, cc, cc, refl)
signed_in_lem resolved_undefined c h = cc
signed_in_lem (api_error s d m) c h = cc
signed_in_lem type_error c h = cc
signed_in_lem syntax_error c h = cc
signed_in_lem network_error c h = cc

-- A sign-in resolves only for a reply of success, with status 200 to 299 other than 204 and the user in its body;
-- then each later request that changes something carries the token of that body (an empty one is left
-- out), while `get` carries none.
pub login-csrf :
    {W : Type 0} (email password : String) (reply : Reply LoginResponse) (c : Client W) {u : User}
    (method : Method) (path : String) (body : Option Json)
    → (login email password reply c).0 ≡ resolved u
    → let session = (login email password reply c).1.session in
      (res : LoginResponse) × (status : ℕ) × (error : Option Json) × (reply
        ≡ response status (some res) error)
      × (200 ≤ status)
      × (status ≤ 299)
      × (status ≢ 204)
      × (res.user ≡ u)
      × (get_current_user session ≡ some u)
      × (lookup "X-CSRF-Token" (prepare path (init method body) session).headers ≡ (
          if not (is_get method) && not (is_empty res.csrf_token)
          then some res.csrf_token
          else none))
unfolding login call request
login-csrf email password reply c method path body h =
    let (res, resolves, its_user, current, token) = signed_in_lem _ _ h in
    let (status, error, is, low, high, filled) = receive-eq-resolved reply _ resolves in
    (
      res,
      status,
      error,
      is,
      low,
      high,
      filled,
      its_user,
      current,
      (prepare-csrf method path body _).0 ∙ rw token,
    )

-- However the request ends, a sign-out leaves neither token nor user, and it makes one request, with
-- the token that there was.
pub logout_lem :
    {W : Type 0} (reply : Reply Json) (c : Client W)
    → let c' = (logout reply c).1 in
      (get_csrf_token c'.session ≡ none)
      × (get_current_user c'.session ≡ none)
      × (c'.sent ≡ c.sent ++ prepare "/api/auth/logout" (init post none) c.session ∷ [])
unfolding logout call request
logout_lem reply c =
    let (token, user) = clear_session-memory _ in (token, user, receive-sent reply _)
