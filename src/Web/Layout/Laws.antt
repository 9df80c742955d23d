-- ===== src/Web/Layout/Laws.antt =====
-- apps/web/src/components/Layout.tsx: no page without a signed-in user, and what ends a session.
use morphia.Common.{
  String, ◌≡◌, ◌≢◌, refl, ◌∙◌, ap, ◌⊎◌, inl, inr, false, Option, none, some, [], arith,
}
use morphia.Common.Json.{Json}
use morphia.Common.View.{View, offered}
use morphia.Types.{User}
use morphia.Web.Session.{get_csrf_token, get_current_user, set_current_user}
use morphia.Web.Session.Laws.{clear_session-memory}
use morphia.Web.Api.{
  Reply, response, unreachable, Outcome, resolved, resolved_undefined, api_error, type_error,
  syntax_error, network_error, Client, Method, get, call, request, receive, end_session, is_ok,
  set_unauthorized_handler,
}
use morphia.Web.Auth.{logout, fetched, fetch_current_user}
use morphia.Web.Layout.{
  authed, anon, App, on_unauthorized, mount, user_arrived, check_user, logged_out, handle_logout,
  Action, layout,
}

-- Nothing of a page is drawn, and no action offered, unless a user is signed in.
pub layout_guarded :
    {P : Type 0} (today : String) (w : App) (outlet : View (Action P))
    → w.auth_state ≢ authed
    → offered (layout today w outlet) ≡ []
unfolding layout
layout_guarded today w outlet h = ground arith

-- A reply with status 401 to any request of a mounted frame ends the session everywhere: nothing is
-- drawn any more, what was cached of the user's is gone, the router is at the sign-in page, and the
-- token is gone.
pub expired_lem :
    {P T : Type 0} (c : Client App) (method : Method) (path : String) (body : Option Json)
    (value : Option T) (error : Option Json) (today : String) (outlet : View (Action P))
    → let c' = (call method path body (response 401 value error) (mount c)).1 in
      (layout today c'.app outlet ≡ [])
      × (c'.app.cache ≡ [])
      × (c'.app.location ≡ "/sign-in")
      × (get_csrf_token c'.session ≡ none)
unfolding call request receive end_session mount set_unauthorized_handler layout on_unauthorized
expired_lem c method path body value error today outlet =
    (refl, refl, refl, (clear_session-memory _).0)

-- What the request for the current user gives, where the handler of the frame is in place.
fetched_lem :
    (o : Outcome User) (c : Client App)
    → ((fetched o c).0 ≡ none)
      ⊎ ((u : User) × ((fetched o c).0 ≡ some u)
          × (get_current_user (fetched o c).1.session ≡ some u))
unfolding fetched get_current_user set_current_user
fetched_lem (resolved u) c = inr (u, refl, refl)
fetched_lem resolved_undefined c = inl refl
fetched_lem (api_error s d m) c = inl refl
fetched_lem type_error c = inl refl
fetched_lem syntax_error c = inl refl
fetched_lem network_error c = inl refl

fetched-app : (o : Outcome User) (c : Client App) → (fetched o c).1.app ≡ c.app
unfolding fetched
fetched-app (resolved u) c = refl
fetched-app _ c = refl

-- A reply to a mounted frame does not unmount it.
stays_mounted :
    {T : Type 0} (method : Method) (path : String) (body : Option Json) (reply : Reply T)
    (c : Client App)
    → (call method path body reply (mount c)).1.app.unmounted ≡ false
unfolding call request receive end_session mount set_unauthorized_handler on_unauthorized
stays_mounted method path body unreachable c = ground arith
stays_mounted method path body (response status value error) c = ground arith

user_arrived-none :
    (w : App)
    → w.unmounted ≡ false
    → ((user_arrived none w).auth_state ≡ anon) × ((user_arrived none w).location ≡ "/sign-in")
unfolding user_arrived
user_arrived-none w h = rw h (refl, refl)

user_arrived-some :
    (u : User) (w : App)
    → w.unmounted ≡ false
    → ((user_arrived (some u) w).auth_state ≡ authed) × ((user_arrived (some u) w).user ≡ some u)
unfolding user_arrived
user_arrived-some u w h = rw h (refl, refl)

-- The check of a frame that was mounted always comes to an end with its reply, or without one: either
-- the user of the session is signed in and shown, or the router is sent to the sign-in page.
pub check_user-settles :
    (reply : Reply User) (c : Client App)
    → let c' = check_user reply (mount c) in
      ((c'.app.auth_state ≡ authed)
        × ((u : User) × (c'.app.user ≡ some u) × (get_current_user c'.session ≡ some u)))
      ⊎ ((c'.app.auth_state ≡ anon) × (c'.app.location ≡ "/sign-in"))
unfolding check_user fetch_current_user
check_user-settles reply c =
    let r = call get "/api/auth/me" none reply (mount c) in
    let still : (fetched r.0 r.1).1.app.unmounted ≡ false =
      ap (λ (w : App). w.unmounted) (fetched-app r.0 r.1)
      ∙ stays_mounted get "/api/auth/me" none reply c in
    elim (fetched_lem r.0 r.1) [
      | inl gone ↦ inr (rw gone (user_arrived-none _ still))
      | inr (u, found, session) ↦
          let shown = user_arrived-some u (fetched r.0 r.1).1.app still in
          inl (rw found (shown.0, (u, shown.1, session)))
    ]

-- A sign-out that the server takes empties the cache, leaves the page and clears the session; one that
-- the server never hears of clears the session, and leaves the frame and what was cached as they were.
pub handle_logout_lem :
    (value : Json) (c : Client App)
    → let done = handle_logout (response 200 (some value) none) c in
      let failed = handle_logout unreachable c in
      (done.app.cache ≡ [])
      × (done.app.location ≡ "/sign-in")
      × (get_csrf_token done.session ≡ none)
      × (get_csrf_token failed.session ≡ none)
      × (failed.app ≡ c.app)
unfolding handle_logout logout logged_out call request receive is_ok
handle_logout_lem value c =
    (refl, refl, (clear_session-memory _).0, (clear_session-memory _).0, refl)
