-- ===== src/Web/Api/Laws.antt =====
-- apps/web/src/lib/api.ts: which requests carry the session's token, and how a reply is taken.
use morphia.Common.{
  not, ℕ, String, ◌≡◌, ◌≢◌, refl, ◌∙◌, ◌or_null◌, inl, inr, ◌≤◌, Bool, true, false, ◌&&◌, Option,
  none, some, List, [], ◌∷◌, arith, eq_iff, ◌==◌, is_empty, if◌then◌else◌, Bool-cases,
}
use morphia.Common.Json.{
  Json, Fields, null, string, array, object, cons, nil, end, field, is_truthy, field_or, print,
}
use morphia.Web.Session.{Session, is_token, get_csrf_token, get_current_user, clear_session}
use morphia.Web.Session.Laws.{clear_session-memory}
use morphia.Web.Api.{
  Reply, response, unreachable, resolved, api_error, Client, mutating, has, set_header, lookup,
  spread, is_mutating, add_token, prepare, end_session, throw_api_error, error_message, outcome_of,
  receive, Method, get, post, put, patch, delete, init, is_ok,
}

lookup-set_header :
    (k j v : String) (hs : List (String × String))
    → lookup j (set_header k v hs) ≡ (if k == j then some v else lookup j hs)
unfolding lookup set_header
lookup-set_header k j v [] = refl
lookup-set_header k j v ((i, w) ∷ hs) =
    ground (arith, eq_iff k j, eq_iff i k, eq_iff i j, lookup-set_header k j v hs)

lookup-add_token :
    (token : Option String) (hs : List (String × String))
    → lookup "X-CSRF-Token" hs ≡ none
    → lookup "X-CSRF-Token" (add_token true token hs) ≡ (if is_token token then token else none)
unfolding add_token
lookup-add_token none hs h = h
lookup-add_token (some t) hs h = elim (Bool-cases (is_empty t)) [
  | inl blank ↦ rw blank h
  | inr filled ↦ rw filled (rw lookup-set_header refl)
]

content_type-add_token :
    (b : Bool) (token : Option String) (hs : List (String × String))
    → lookup "Content-Type" (add_token b token hs) ≡ lookup "Content-Type" hs
unfolding add_token
content_type-add_token false token hs = refl
content_type-add_token true none hs = refl
content_type-add_token true (some t) hs =
    ground (arith, lookup-set_header "X-CSRF-Token" "Content-Type" t hs)

abbrev pub is_get : Method → Bool
is_get get = true
is_get _ = false

-- `post`, `put`, `patch` and `delete` send the token of the session where it has one, and no other
-- value in its place; `get` sends none. All five are requests with a JSON body.
pub prepare-csrf :
    (method : Method) (path : String) (body : Option Json) (s : Session)
    → let headers = (prepare path (init method body) s).headers in
      (lookup "X-CSRF-Token" headers
        ≡ (if not (is_get method) && is_token (get_csrf_token s) then get_csrf_token s else none))
      × (lookup "Content-Type" headers ≡ some "application/json")
unfolding prepare init spread is_mutating has mutating lookup add_token
prepare-csrf get path body s = (refl, refl)
prepare-csrf post path body s =
    (lookup-add_token (get_csrf_token s) _ refl, content_type-add_token true (get_csrf_token s) _)
prepare-csrf put path body s =
    (lookup-add_token (get_csrf_token s) _ refl, content_type-add_token true (get_csrf_token s) _)
prepare-csrf patch path body s =
    (lookup-add_token (get_csrf_token s) _ refl, content_type-add_token true (get_csrf_token s) _)
prepare-csrf delete path body s =
    (lookup-add_token (get_csrf_token s) _ refl, content_type-add_token true (get_csrf_token s) _)

throw-ne-resolved :
    {T : Type 0} (status : ℕ) (body : Json) {v : T} → throw_api_error status body ≡ resolved v → ⊥
unfolding throw_api_error
throw-ne-resolved status null h = cc
throw-ne-resolved status _ h = cc

-- A promise resolves to a value only for a reply with a status from 200 to 299 other than 204, whose
-- body is that value.
pub receive-eq-resolved :
    {W T : Type 0} (reply : Reply T) (c : Client W) {v : T}
    → (receive reply c).0 ≡ resolved v
    → (status : ℕ) × (error : Option Json) × (reply ≡ response status (some v) error)
      × (200 ≤ status)
      × (status ≤ 299)
      × (status ≢ 204)
unfolding receive outcome_of is_ok throw_api_error
receive-eq-resolved unreachable c h = cc
receive-eq-resolved (response status none error) c {v} h =
    absurd (ground (arith, throw-ne-resolved status (error or_null object end) {v = v}))
receive-eq-resolved (response status (some w) error) c {v} h =
    let failed = throw-ne-resolved status (error or_null object end) {v = v} in
    (
      status,
      error,
      ground (arith, failed),
      ground (arith, failed),
      ground (arith, failed),
      ground (arith, failed),
    )

-- A reply with status 401 ends the session, whatever its body: token and user are gone, the handler
-- of the app has run once, and the next request, of any method, carries no token.
pub unauthorized_lem :
    {W T : Type 0} (value : Option T) (error : Option Json) (fn : W → W) (c : Client W)
    (method : Method) (path : String) (body : Option Json)
    → c.on_unauthorized ≡ some fn
    → let c' = (receive (response 401 value error) c).1 in
      (get_csrf_token c'.session ≡ none)
      × (get_current_user c'.session ≡ none)
      × (c'.app ≡ fn c.app)
      × (lookup "X-CSRF-Token" (prepare path (init method body) c'.session).headers ≡ none)
unfolding receive end_session
unauthorized_lem value error fn c method path body handler =
    let (token, user) = clear_session-memory c.session in
    (
      token,
      user,
      rw handler,
      (prepare-csrf method path body (clear_session c.session)).0 ∙ rw token (ground arith),
    )

-- The log of requests is changed by sending alone.
pub receive-sent :
    {W T : Type 0} (reply : Reply T) (c : Client W) → (receive reply c).1.sent ≡ c.sent
unfolding receive end_session
receive-sent unreachable c = refl
receive-sent (response status value error) c = ground arith

-- The message of a refused form: where `detail` is a list of one object, as FastAPI sends for a body that
-- fails validation, the message is "[object Object]", whatever the object says.
pub validation_message :
    {W T : Type 0} (status : ℕ) (value : Option T) (problem : Fields) (c : Client W)
    → is_ok status ≡ false
    → (receive
        (response status value
          (some (object (field "detail" (array (cons (object problem) nil)) end))))
        c).0
      ≡ api_error status (string "UNKNOWN") "[object Object]"
unfolding receive outcome_of throw_api_error error_message field_or is_truthy print
validation_message status value problem c failed = rw failed
