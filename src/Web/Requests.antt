-- ===== src/Web/Requests.antt =====
-- The requests about a run that the pages RunDetail.tsx, Runs.tsx, Approvals.tsx and the component
-- ApprovalGate.tsx under apps/web/src make, and what their mutations do with the outcome.
use morphia.Common.{String, Option, none, some, List, ◌<>◌}
use morphia.Common.Json.{Json, string, object, end, field}
use morphia.RunState.{RunState, name}
use morphia.Web.Api.{
  Outcome, resolved, resolved_undefined, api_error, type_error, syntax_error, network_error, Reply,
  Client, call, post,
}

-- What a click on a control asks the server for.
pub data RunAction : Type 0 where
  transition : (target : RunState) → RunAction
  cancel : RunAction
  approve reject : (justification : String) → RunAction

unfoldable pub path : String → RunAction → String
path id (transition t) = "/api/v1/runs/" <> id <> "/transition"
path id cancel = "/api/v1/runs/" <> id <> "/cancel"
path id (approve why) = "/api/v1/runs/" <> id <> "/approve"
path id (reject why) = "/api/v1/runs/" <> id <> "/reject"

unfoldable pub body : RunAction → Option Json
body (transition t) = some (object (field "target_state" (string (name t)) end))
body cancel = none
body (approve why) = some (object (field "justification" (string why) end))
body (reject why) = some (object (field "justification" (string why) end))

-- `mutationFn`
unfoldable pub mutate :
    {W : Type 0} → String → RunAction → Reply Json → Client W → Outcome Json × Client W
unfolding path body
mutate id a reply c = call post (path id a) (body a) reply c

-- `e instanceof ApiError ? e.message : fallback`, and nothing for a promise that is fulfilled
unfoldable pub failure : {T : Type 0} → String → Outcome T → Option String
failure fallback (resolved v) = none
failure fallback resolved_undefined = none
failure fallback (api_error status code message) = some message
failure fallback type_error = some fallback
failure fallback syntax_error = some fallback
failure fallback network_error = some fallback

-- A key of the query cache.
abbrev pub QueryKey : Type 0
QueryKey = List String
