-- ===== src/Web/Operations/View.antt =====
-- apps/web/src/pages/Operations.tsx: what the command center draws. Its components keep states of their own.
use morphia.Common.{
  String, Bool, false, not, ◌&&◌, Option, none, some, List, [], ◌∷◌, ◌++◌, take, length, null?,
  prefix, ltb, is_empty, show, opt_map, ◌==◌, ◌<>◌, ◌or_null◌, if◌then◌else◌,
}
use morphia.Common.View.{View, text, button, link, when, embed}
use morphia.RunState.{failed, name, same}
use morphia.Types.{
  Run, RunEvent, RunStep, Project, Engagement, ScopeRule, EvidenceArtifact, Finding, AuditEvent,
  DashboardSummary,
}
use morphia.Web.Requests.{RunAction}
use morphia.Web.ApprovalGate.{Gate}
use morphia.Web.ApprovalGate
use morphia.Web.AuthorizationBoundary.{Evaluator}
use morphia.Web.AuthorizationBoundary.View.{Action, view as boundary_view}
use morphia.Web.ExecutionGraph.View.{Click as GraphClick, view as graph_view}
use morphia.Web.Operations.{is_awaiting, active_run, Metrics}

-- What the queries hold, with an empty list for one that has no data.
pub record Data : Type 0 where
  pub projects : List Project
  pub engagements : List Engagement
  pub runs : List Run
  pub summary : Option DashboardSummary
  pub evidence : List EvidenceArtifact
  pub findings : List Finding
  pub audit : List AuditEvent
  pub scope_rules : List ScopeRule
  pub run_events : List RunEvent
  pub run_steps : List RunStep

-- The selection of the page, and the states of the components in it.
pub record State : Type 0 where
  pub selected_run_id : Option String
  pub evaluator : Evaluator
  pub selected_node : Option String
  pub gate : Gate
  pub stream_filter : String

pub data Click : Type 0 where
  select_run : (run_id : String) → Click
  in_boundary : Action → Click
  in_graph : GraphClick → Click
  in_gate : RunAction → Click
  copy in_stream : String → Click

-- `queryFn` of the engagements: of each project, and none for one whose request fails.
unfoldable pub all_engagements :
    (request : String → Option (List Engagement)) → List Project → List Engagement
all_engagements request [] = []
all_engagements request (p ∷ ps) = (request p.id or_null []) ++ all_engagements request ps

-- `Stat`
unfoldable pub stat : (label value : String) → (sub : Option String) → View Click
stat label value none = text label ∷ text value ∷ []
stat label value (some sub) = text label ∷ text value ∷ when (not (is_empty sub)) (text sub ∷ [])

unfoldable pub header : Option Engagement → View Click
header engagement =
    text "OPERATIONS — COMMAND CENTER"
    ∷ text "Scope → Plan → Approval → Execution → Evidence → Finding → Report → Audit"
    ∷ text
        "Nothing executes merely because an agent requested it. Authorization, dual scope validation, and human approval are enforced server-side."
    ∷ text (
        (opt_map (λ (e : Engagement). e.program_name) engagement or_null "No engagement")
        <> " · "
        <> (opt_map (λ (e : Engagement). e.status) engagement or_null "—"))
    ∷ link "/projects" "Manage engagements"
    ∷ []

unfoldable pub strip : Metrics → View Click
unfolding stat show
strip m =
    stat "ACTIVE ENGAGEMENT" (show m.active_engagement) (some m.engagement_project)
    ++ (stat "PENDING APPROVAL" (show m.pending_approval) (some "human gate")
        ++ (stat "ACTIVE RUNS" (show m.active_runs) none
            ++ (stat "BLOCKED / FAILED" (show m.blocked) (some "policy denial")
                ++ (stat "EVIDENCE" (show m.evidence) (some "SHA-256 verified")
                    ++ stat "VERIFIED FINDINGS" (show m.verified_findings) none))))

-- What stands there while nothing was created yet.
unfoldable pub no_operation : View Click
no_operation =
    text "NO ACTIVE OPERATION"
    ∷ text
        "Create a project, define an engagement with explicit scope, and launch a run. Every run requires scope validation and human approval before execution. Evidence and findings appear here once produced."
    ∷ link "/projects" "Create engagement"
    ∷ link "/runs" "View runs"
    ∷ text
        "Thesis: Scope before execution · Evidence before conclusions · Humans before consequential actions"
    ∷ []

engagement_rows : (active_id : Option String) → List Engagement → View Click
engagement_rows active_id [] = []
engagement_rows active_id (e ∷ es) =
    text
      ((if opt_map (λ i. e.id == i) active_id or_null false then "● " else "○ ") <> e.program_name)
    ∷ engagement_rows active_id es

-- The rows that show a denial do not depend on any data.
blocked_demo : View Click
blocked_demo =
    text "BLOCKED EXECUTION — DEMO"
    ∷ text "TARGET: production.example.com → DENY"
    ∷ text "API validation"
    ∷ text "BLOCKED"
    ∷ text "Worker revalidation"
    ∷ text "BLOCKED"
    ∷ text "Execution"
    ∷ text "PREVENTED"
    ∷ text "Audit event"
    ∷ text "RECORDED"
    ∷ text "Explicit exclusion · reason recorded · run state FAILED · no evidence produced"
    ∷ []

boundary : Option Engagement → List ScopeRule → Evaluator → View Click
boundary none rules e = text "No engagement selected" ∷ []
boundary (some engagement) rules e =
    embed in_boundary (boundary_view (some engagement) rules none e)

-- The column of the authorization boundary.
unfoldable pub left : Option Engagement → Data → Evaluator → View Click
unfolding boundary engagement_rows blocked_demo
left engagement d e =
    (text "AUTHORIZATION BOUNDARY"
      ∷ link
          (opt_map (λ (g : Engagement). "/projects/" <> g.project_id) engagement
            or_null "/projects")
          "Details →"
      ∷ boundary engagement d.scope_rules e)
    ++ (when (ltb 1 (length d.engagements)) (
          text "ENGAGEMENTS"
          ∷ engagement_rows (opt_map (λ (g : Engagement). g.id) engagement) (take 5 d.engagements))
        ++ blocked_demo)

-- The selector: a button for each of the first eight runs.
run_buttons : List Run → View Click
run_buttons [] = []
run_buttons (r ∷ rs) =
    button (prefix 22 r.title <> " · " <> name r.state) false (select_run r.id) ∷ run_buttons rs

-- The run that is shown, with its graph and, where it awaits a decision, the gate.
unfoldable pub shown_run :
    (locale : String → String) (is_wide : Bool)
    → Option Engagement
    → Data
    → State
    → Option Run
    → View Click
unfolding is_awaiting
shown_run locale is_wide engagement d s none = text "Select a run to view its execution graph" ∷ []
shown_run locale is_wide engagement d s (some r) =
    (text r.title
      ∷ text (name r.state)
      ∷ text (r.agent_profile or_null "—")
      ∷ link ("/runs/" <> r.id) "Open run →"
      ∷ when (same r.state failed && not (is_empty r.failure_reason)) (text r.failure_reason ∷ []))
    ++ (embed in_graph (graph_view locale is_wide r d.run_events d.run_steps s.selected_node)
        ++ when (is_awaiting r) (
            embed in_gate (
              ApprovalGate.view locale r (opt_map (λ (e : Engagement). e.program_name) engagement)
                s.gate)))

run_links : List Run → View Click
run_links [] = []
run_links (r ∷ rs) = link ("/runs/" <> r.id) (r.title <> " " <> name r.state) ∷ run_links rs

-- The column of the runs.
unfoldable pub center :
    (locale : String → String) (is_wide : Bool) → Option Engagement → Data → State → View Click
unfolding run_buttons shown_run run_links active_run show
center locale is_wide engagement d s =
    (text "EXECUTION GRAPH — OPERATION TIMELINE"
      ∷ text (show (length d.runs) <> " runs")
      ∷ run_buttons (take 8 d.runs))
    ++ (when (null? d.runs) (text "No runs" ∷ [])
        ++ (shown_run locale is_wide engagement d s (active_run d.runs s.selected_run_id)
            ++ text "RUNS" ∷ run_links (take 10 d.runs)))
