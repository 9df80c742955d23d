-- ===== src/Web/Api.antt =====
-- apps/web/src/lib/api.ts: the client through which every request goes. `fetch` itself and the server
-- are not modelled: a request is what `request` hands to `fetch`, and its reply is an argument.
pub mod Laws
use morphia.Common.{
  ℕ, String, Bool, true, false, not, ◌&&◌, ◌||◌, Option, none, some, List, [], ◌∷◌, ◌++◌, any,
  to_upper, ◌==◌, ◌<>◌, ◌or_null◌, show, nat_eq, leb, is_empty, if◌then◌else◌,
}
use morphia.Common.Json.{Json, null, string, object, end, is_truthy, field_or, print}
use morphia.Web.Session.{Session, get_csrf_token, clear_session}

-- `RequestInit`, of which the source uses three fields
pub record RequestInit : Type 0 where
  pub method : Option String
  pub headers : List (String × String)
  pub body : Option Json

-- What `fetch` is called with; credentials are always included, and a body is the JSON text of a value.
pub record FetchCall : Type 0 where
  pub path : String
  pub method : Option String
  pub headers : List (String × String)
  pub body : Option Json

-- What comes back. `value` is the body of a success, read as the caller's type, and `error` that of a
-- failure; either is `none` where the body is no JSON.
pub data Reply (T : Type 0) : Type 0 where
  response : (status : ℕ) (value : Option T) (error : Option Json) → Reply T
  unreachable : Reply T

-- How the promise of a request ends. `code` of an ApiError is any value that the server sent.
pub data Outcome (T : Type 0) : Type 0 where
  resolved : T → Outcome T
  resolved_undefined : Outcome T
  api_error : (status : ℕ) (code : Json) (message : String) → Outcome T
  type_error syntax_error network_error : Outcome T

-- The module's variables, with those of the session and the state of the app, `W`, which the handler
-- of an ended session changes. `sent` holds the requests made, the latest last.
pub record Client (W : Type 0) : Type 0 where
  pub session : Session
  pub on_unauthorized : Option (W → W)
  pub app : W
  pub sent : List FetchCall

unfoldable pub mutating : List String
mutating = "POST" ∷ "PUT" ∷ "PATCH" ∷ "DELETE" ∷ []

unfoldable pub has : List String → String → Bool
has set s = any (λ t. t == s) set

-- `headers[k] = v`
unfoldable pub set_header : String → String → List (String × String) → List (String × String)
set_header k v [] = (k, v) ∷ []
set_header k v ((j, w) ∷ hs) = if j == k then (k, v) ∷ hs else (j, w) ∷ set_header k v hs

unfoldable pub lookup : String → List (String × String) → Option String
lookup k [] = none
lookup k ((j, w) ∷ hs) = if j == k then some w else lookup k hs

-- `{...into, ...from}`
unfoldable pub spread : List (String × String) → List (String × String) → List (String × String)
spread [] into = into
spread ((k, v) ∷ from) into = spread from (set_header k v into)

unfoldable pub is_mutating : RequestInit → Bool
is_mutating options = has mutating (to_upper (options.method or_null "GET"))

-- The token of the session, on a request that changes something.
unfoldable pub add_token : Bool → Option String → List (String × String) → List (String × String)
add_token false token headers = headers
add_token true none headers = headers
add_token true (some t) headers =
    if is_empty t then headers else set_header "X-CSRF-Token" t headers

-- The first half of `request`, up to `fetch`.
unfoldable pub prepare : String → RequestInit → Session → FetchCall
prepare path options s = record {
  path = path;
  method = options.method;
  headers =
      add_token (is_mutating options) (get_csrf_token s)
        (spread options.headers (("Content-Type", "application/json") ∷ []));
  body = options.body;
}

-- `setUnauthorizedHandler`
unfoldable pub set_unauthorized_handler : {W : Type 0} → (W → W) → Client W → Client W
set_unauthorized_handler fn c = record c { on_unauthorized = some fn }

call_handler : {W : Type 0} → Option (W → W) → W → W
call_handler none w = w
call_handler (some fn) w = fn w

-- What a reply with status 401 does before anything else.
unfoldable pub end_session : {W : Type 0} → Client W → Client W
unfolding call_handler
end_session c = record c {
  session = clear_session c.session;
  app = call_handler c.on_unauthorized c.app;
}

-- `body.detail || body.message || "Request failed (…)"`, as the text of the Error
unfoldable pub error_message : (status : ℕ) → Json → String
unfolding show
error_message status body = print (
    field_or body "detail"
      (field_or body "message" (string ("Request failed (" <> show status <> ")"))))

-- The ApiError of a body; `body.code` on null throws.
unfoldable pub throw_api_error : {T : Type 0} → ℕ → Json → Outcome T
throw_api_error status null = type_error
throw_api_error status body =
    api_error status (field_or body "code" (string "UNKNOWN")) (error_message status body)

-- `res.json()` of a success
json_value : {T : Type 0} → Option T → Outcome T
json_value none = syntax_error
json_value (some v) = resolved v

-- `res.ok`
unfoldable pub is_ok : ℕ → Bool
is_ok status = leb 200 status && leb status 299

unfoldable pub outcome_of : {T : Type 0} → ℕ → Option T → Option Json → Outcome T
unfolding json_value
outcome_of status value error =
    if is_ok status
    then (if nat_eq status 204 then resolved_undefined else json_value value)
    else throw_api_error status (error or_null object end)

-- The second half of `request`, from the reply on.
unfoldable pub receive : {W T : Type 0} → Reply T → Client W → Outcome T × Client W
unfolding outcome_of
receive unreachable c = (network_error, c)
receive (response status value error) c =
    (outcome_of status value error, if nat_eq status 401 then end_session c else c)

unfoldable pub request :
    {W T : Type 0} → String → RequestInit → Reply T → Client W → Outcome T × Client W
request path options reply c =
    receive reply (record c { sent = c.sent ++ prepare path options c.session ∷ [] })

-- `body ? JSON.stringify(body) : undefined`
body_of : Option Json → Option Json
body_of none = none
body_of (some v) = if is_truthy v then some v else none

-- The methods of `api`, and the options with which each calls `request`.
pub data Method : Type 0 where
  get post put patch delete : Method

unfoldable pub init : Method → Option Json → RequestInit
unfolding body_of
init get body = record { method = none; headers = []; body = none }
init post body = record { method = some "POST"; headers = []; body = body_of body }
init put body = record { method = some "PUT"; headers = []; body = body_of body }
init patch body = record { method = some "PATCH"; headers = []; body = body_of body }
init delete body = record { method = some "DELETE"; headers = []; body = none }

-- `api.get`, `api.post`, `api.put`, `api.patch` and `api.delete`
unfoldable pub call :
    {W T : Type 0} → Method → String → Option Json → Reply T → Client W → Outcome T × Client W
call method path body reply c = request path (init method body) reply c
