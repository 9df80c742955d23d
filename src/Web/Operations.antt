-- ===== src/Web/Operations.antt =====
-- apps/web/src/pages/Operations.tsx: which engagement and which run the command center shows, and its counts.
-- The queries are the query library's: what they hold is an argument.
pub mod View
pub mod Page
pub mod Laws
use morphia.Common.{
  ℕ, String, Bool, true, false, not, ◌||◌, Option, none, some, List, [], ◌∷◌, ◌++◌, filter, find,
  head?, length, null?, is_some, opt_map, opt_bind, ◌==◌, ◌<|>◌, ◌or_null◌, if◌then◌else◌,
}
use morphia.RunState.{
  RunState, planning, awaiting_plan_approval, queued, running, awaiting_action_approval, failed,
  same,
}
use morphia.Types.{
  Run, Project, Engagement, EvidenceArtifact, Finding, FindingState, verified, DashboardSummary,
}

-- `activeEngagement`
unfoldable pub active_engagement : List Engagement → Option Engagement
active_engagement es = find (λ (e : Engagement). e.status == "active") es <|> head? es

unfoldable pub is_awaiting : Run → Bool
is_awaiting r = same r.state awaiting_plan_approval || same r.state awaiting_action_approval

unfoldable pub is_live : Run → Bool
is_live r = same r.state queued || same r.state running

-- The order in which a run is looked for where none is selected.
unfoldable pub first_choice : List Run → Option Run
unfolding is_awaiting is_live
first_choice runs = find is_awaiting runs <|> (find is_live runs <|> head? runs)

-- `activeRun`; an id that is empty counts as none.
unfoldable pub active_run : List Run → (selected_run_id : Option String) → Option Run
unfolding first_choice
active_run runs none = first_choice runs
active_run runs (some id) =
    if id == "" then first_choice runs else find (λ (r : Run). r.id == id) runs

-- `pendingApprovals`, `activeRuns` and `blockedRuns`
unfoldable pub pending_approvals : List Run → List Run
unfolding is_awaiting
pending_approvals runs = filter is_awaiting runs

is_active : Run → Bool
unfolding is_live
is_active r = is_live r || same r.state planning

unfoldable pub active_runs : List Run → List Run
unfolding is_active
active_runs runs = filter is_active runs

is_blocked : Run → Bool
is_blocked r = same r.state failed

unfoldable pub blocked_runs : List Run → List Run
unfolding is_blocked
blocked_runs runs = filter is_blocked runs

is_verified : FindingState → Bool
is_verified verified = true
is_verified _ = false

-- The strip of numbers, with the counts of the server where they have come.
pub record Metrics : Type 0 where
  pub active_engagement : ℕ
  pub engagement_project : String
  pub pending_approval : ℕ
  pub active_runs : ℕ
  pub blocked : ℕ
  pub evidence : ℕ
  pub verified_findings : ℕ

unfoldable pub metrics :
    List Project
    → List Engagement
    → List Run
    → List EvidenceArtifact
    → List Finding
    → Option DashboardSummary
    → Metrics
unfolding active_engagement pending_approvals active_runs blocked_runs is_verified
metrics projects engagements runs evidence findings summary =
    let engagement : Option Engagement = active_engagement engagements in
    let project : Option Project =
      opt_bind engagement (λ e. find (λ (p : Project). p.id == e.project_id) projects) in
    record {
      active_engagement = if is_some engagement then 1 else 0;
      engagement_project = opt_map (λ (p : Project). p.name) project or_null "—";
      pending_approval = length (pending_approvals runs);
      active_runs = length (active_runs runs);
      blocked = length (blocked_runs runs);
      evidence = opt_map (λ (s : DashboardSummary). s.evidence) summary or_null length evidence;
      verified_findings =
          opt_map (λ (s : DashboardSummary). s.verified_findings) summary
          or_null length (filter (λ (f : Finding). is_verified f.state) findings);
    }

-- `hasData`
unfoldable pub has_data : List Project → List Engagement → List Run → Bool
has_data projects engagements runs =
    not (null? projects) || (not (null? engagements) || not (null? runs))
