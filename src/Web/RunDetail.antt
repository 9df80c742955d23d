-- ===== src/Web/RunDetail.antt =====
-- apps/web/src/pages/RunDetail.tsx: the page of a run. The queries are the query library's: what they
-- hold is an argument, and an invalidation is the key that is given to it. Dates are printed by a
-- function that stands for `toLocaleString`.
pub mod Panels
pub mod Screen
use morphia.Common.{
  ℕ, String, Bool, true, false, not, ◌&&◌, ◌||◌, Option, none, some, List, [], ◌∷◌, ◌++◌, ◌<>◌,
  ◌or_else◌, ◌or_null◌, opt_map, opt_bind, find, filter, prefix, ◌==◌, is_empty, if◌then◌else◌,
}
use morphia.Common.Json.{Json}
use morphia.Common.View.{View, text, button, link, when}
use morphia.RunState.{
  RunState, draft, planning, awaiting_plan_approval, queued, running, awaiting_action_approval,
  paused, failed, name, same, has,
}
use morphia.Types.{Run, Project, terminal_states, EvidenceArtifact}
use morphia.Web.Api.{Outcome}
use morphia.Web.Requests.{RunAction, transition, cancel, QueryKey, failure}
use morphia.Web.StateBadge.{state_label}

-- `NEXT_STEP`
unfoldable pub next_step : RunState → Option (String × RunState)
next_step draft = some ("Start planning", planning)
next_step planning = some ("Submit plan for approval", awaiting_plan_approval)
next_step paused = some ("Resume", queued)
next_step failed = some ("Retry (new draft)", draft)
next_step _ = none

unfoldable pub is_live_state : RunState → Bool
is_live_state state = same state queued || same state running

-- `refetchInterval` of the queries for the run, its steps and its events, in milliseconds
unfoldable pub refetch_interval : Option Run → Option ℕ
unfolding is_live_state
refetch_interval none = none
refetch_interval (some run) = if is_live_state run.state then some 1500 else none

unfoldable pub is_approval_state : RunState → Bool
is_approval_state state = same state awaiting_plan_approval || same state awaiting_action_approval

-- `actionError`, `prevState`, and the keys that the page has invalidated, the latest last.
pub record Page : Type 0 where
  pub action_error : Option String
  pub prev_state : Option RunState
  pub invalidated : List QueryKey

refreshed : String → List QueryKey
refreshed id = ("run-steps" ∷ id ∷ []) ∷ ("run-events" ∷ id ∷ []) ∷ ("evidence" ∷ []) ∷ []

-- The condition of the effect.
just_ended : Option RunState → Option RunState → Bool
unfolding terminal_states
just_ended (some p) (some s) = not (same p s) && has terminal_states s
just_ended _ _ = false

-- The effect on a change of the run's state: the lists are read once more when the run has ended.
unfoldable pub state_seen : String → Option RunState → Page → Page
unfolding refreshed just_ended
state_seen id s page = record page {
  invalidated = page.invalidated ++ (if just_ended page.prev_state s then refreshed id else []);
  prev_state = s;
}

-- `invalidate`
invalidate : String → List QueryKey
invalidate id =
    ("run" ∷ id ∷ []) ∷ ("run-steps" ∷ id ∷ []) ∷ ("run-events" ∷ id ∷ []) ∷ ("runs" ∷ []) ∷ []

-- `onSuccess` and `onError` of `act`
unfoldable pub acted : String → Outcome Json → Page → Page
unfolding failure invalidate
acted id o page = elim (failure "Action failed." o) [
  | none ↦ record page { action_error = none; invalidated = page.invalidated ++ invalidate id }
  | some message ↦ record page { action_error = some message }
]

unfoldable pub run_evidence : Run → List EvidenceArtifact → List EvidenceArtifact
run_evidence run es = filter (λ (e : EvidenceArtifact). opt_is e.run_id run.id) es
  where
    opt_is : Option String → String → Bool
    opt_is none id = false
    opt_is (some r) id = r == id

project_name : Run → List Project → String
project_name run ps =
    opt_map (λ (p : Project). p.name) (find (λ (p : Project). p.id == run.project_id) ps)
    or_null "project"

engagement_part : Option String → View RunAction
engagement_part none = []
engagement_part (some e) = when (not (is_empty e)) (text "·" ∷ text e ∷ [])

-- The header.
unfoldable pub header :
    (locale : String → String) → Run → List Project → Option String → View RunAction
unfolding is_live_state project_name engagement_part state_label
header locale run projects engagement =
    (link "/runs" "← All runs"
      ∷ text (run.title or_else "Untitled run")
      ∷ text (state_label run.state)
      ∷ when (is_live_state run.state) (text "● WORKER EXECUTING" ∷ []))
    ++ (text ((run.agent_profile or_null "") or_else "no agent profile")
        ∷ text "·"
        ∷ link ("/projects/" <> run.project_id) (project_name run projects)
        ∷ engagement_part engagement)
    ++ (text "·" ∷ text (locale run.created_at) ∷ text (prefix 8 run.id) ∷ [])
    ++ when (same run.state failed && not (is_empty run.failure_reason))
        (text ("EXECUTION PREVENTED / FAILED: " <> run.failure_reason) ∷ [])

next_button : Bool → Option (String × RunState) → View RunAction
next_button pending none = []
next_button pending (some (label, target)) = button label pending (transition target) ∷ []

error_text : Option String → View RunAction
error_text none = []
error_text (some e) = when (not (is_empty e)) (text e ∷ [])

-- The panel of controls for the moves that need no approval; `pending` is `act.isPending`.
unfoldable pub controls : Bool → Run → Page → View RunAction
unfolding terminal_states is_approval_state next_button next_step error_text is_live_state
controls pending run page =
    let is_terminal : Bool = has terminal_states run.state in
    when ((not is_terminal || same run.state failed) && not (is_approval_state run.state)) (
      text "CONTROLS" ∷ error_text page.action_error
      ++ next_button pending (next_step run.state)
      ++ when (not is_terminal) (button "Cancel run" pending cancel ∷ [])
      ++ when (is_live_state run.state) (text "worker executing — refreshing automatically…" ∷ [])
      ++ when (not is_terminal)
          (text "Transitions are enforced server-side via legal-transition table" ∷ []))

-- The panel that stands in its place once a run has ended.
unfoldable pub ended : Run → View RunAction
unfolding terminal_states
ended run =
    when (has terminal_states run.state && not (same run.state failed))
      (text "CONTROLS" ∷ text ("Terminal " <> name run.state <> " — no further actions.") ∷ [])
