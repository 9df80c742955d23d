-- ===== src/Web/Dashboard.antt =====
-- apps/web/src/pages/Dashboard.tsx: the overview. The queries are the query library's: what they hold is an argument.
pub mod Laws
use morphia.Common.{
  ℕ, ◌+◌, String, Bool, true, false, not, ◌&&◌, ◌||◌, Option, none, some, List, [], ◌∷◌, ◌++◌,
  filter, find, head?, take, length, null?, prefix, is_empty, nat_eq, ltb, show, opt_map, ◌<>◌,
  ◌or_else◌, ◌or_null◌, ◌<|>◌, if◌then◌else◌,
}
use morphia.Common.View.{View, text, link, when}
use morphia.RunState.{
  RunState, awaiting_plan_approval, queued, running, awaiting_action_approval, failed, name, same,
}
use morphia.Types.{
  Run, AuditEvent, EvidenceArtifact, Finding, FindingState, verified, DashboardSummary,
}
use morphia.Web.Findings.{same_state, state_name, severity_name}
use morphia.Web.EvidenceProvenance.{status_name}

-- `EMPTY`
unfoldable pub empty_summary : DashboardSummary
empty_summary = record {
  projects = 0;
  engagements = 0;
  runs = 0;
  active_runs = 0;
  pending_approvals = 0;
  evidence = 0;
  findings = 0;
  verified_findings = 0;
  reports = 0;
}

-- `pending`
unfoldable pub pending : List Run → List Run
pending runs =
    filter
      (λ (r : Run). same r.state awaiting_plan_approval || same r.state awaiting_action_approval)
      runs

-- `active`
unfoldable pub active : List Run → List Run
active runs = filter (λ (r : Run). same r.state queued || same r.state running) runs

-- The runs that the panel counts as blocked.
unfoldable pub blocked : List Run → List Run
blocked runs = filter (λ (r : Run). same r.state failed) runs

unfoldable pub is_verified : Finding → Bool
unfolding same_state
is_verified f = same_state f.state verified

-- `latestFinding`
unfoldable pub latest_finding : List Finding → Option Finding
unfolding is_verified
latest_finding findings = find is_verified findings <|> head? findings

-- `recentAudit`
unfoldable pub recent_audit : List AuditEvent → List AuditEvent
recent_audit audit = take 6 audit

plural : ℕ → String → String
unfolding show
plural n word = show n <> " " <> word <> (if nat_eq n 1 then "" else "s")

-- The panel for the runs that await a decision, where there is one.
unfoldable pub gate : List Run → View ⊥
unfolding show
gate [] = []
gate (r ∷ rs) =
    let n : ℕ = length (r ∷ rs) in
    text
      (show n <> " EXECUTION" <> (if ltb 1 n then "S" else "") <> " AWAITING HUMAN AUTHORIZATION")
    ∷ text (r.title <> " · " <> name r.state <> " · agent " <> (r.agent_profile or_null "—"))
    ∷ link ("/runs/" <> r.id) "Review gate →"
    ∷ []

run_rows : (date : String → String) → List Run → View ⊥
run_rows date [] = []
run_rows date (r ∷ rs) =
    link ("/runs/" <> r.id) (r.title <> " " <> name r.state <> " " <> date r.created_at)
    ∷ run_rows date rs

-- `CURRENT OPERATION`
unfoldable pub current_operation : (date : String → String) → List Run → View ⊥
unfolding run_rows show
current_operation date runs =
    text "CURRENT OPERATION"
    ∷ link "/runs" (show (length runs) <> " runs →")
    ∷ (if null? runs
        then text
            "No runs yet — create an engagement and launch a run to begin the Scope → Plan → Approval → Execution → Evidence flow"
          ∷ []
        else run_rows date (take 5 runs))

-- `SCOPE STATE`
unfoldable pub scope_state : DashboardSummary → List Run → View ⊥
unfolding active pending blocked show
scope_state s runs =
    text "SCOPE STATE"
    ∷ text "Active engagements"
    ∷ text (show s.engagements)
    ∷ text "Active runs"
    ∷ text (show (length (active runs)))
    ∷ text "Pending approvals"
    ∷ text (show (length (pending runs)))
    ∷ text "Blocked (policy)"
    ∷ text (show (length (blocked runs)))
    ∷ link "/operations" "Authorization boundary →"
    ∷ []

-- `LATEST EVIDENCE`
latest_evidence : (date : String → String) → Option EvidenceArtifact → View ⊥
unfolding status_name
latest_evidence date none = text "No evidence yet — appears after approved execution" ∷ []
latest_evidence date (some e) =
    text e.original_filename
    ∷ text ("sha256:" <> prefix 16 e.sha256_digest <> "…")
    ∷ text (status_name e.verification_status <> " · " <> date e.created_at)
    ∷ link "/evidence" "Provenance →"
    ∷ []

-- `LATEST VERIFIED FINDING`
unfoldable pub finding_panel : Option Finding → View ⊥
unfolding state_name severity_name
finding_panel none =
    text "LATEST VERIFIED FINDING"
    ∷ text "No findings yet — findings are created from evidence and move through verification"
    ∷ []
finding_panel (some f) =
    text "LATEST VERIFIED FINDING"
    ∷ text f.title
    ∷ text (severity_name f.severity)
    ∷ text (state_name f.state <> " · " <> (f.cwe_id or_null "—"))
    ∷ text (f.observation or_else (f.hypothesis or_else "—"))
    ∷ link "/findings" "Analyst workspace →"
    ∷ []

audit_rows : (time : String → String) → List AuditEvent → View ⊥
audit_rows time [] = []
audit_rows time (e ∷ es) = text (time e.created_at) ∷ text e.event_type ∷ audit_rows time es

-- `GOVERNANCE EVENTS`
governance : (time : String → String) → List AuditEvent → View ⊥
unfolding recent_audit audit_rows
governance time audit =
    text "GOVERNANCE EVENTS"
    ∷ link "/audit" "Audit →"
    ∷ (if null? (recent_audit audit)
        then text "No events" ∷ []
        else audit_rows time (recent_audit audit))

-- The page: it has links and no other control.
unfoldable pub view :
    (date time : String → String) (project_count : ℕ)
    → Option DashboardSummary
    → List Run
    → List EvidenceArtifact
    → List Finding
    → List AuditEvent
    → View ⊥
unfolding empty_summary gate pending current_operation scope_state latest_evidence finding_panel
    latest_finding governance plural show
view date time project_count summary runs evidence findings audit =
    let s : DashboardSummary = summary or_null empty_summary in
    (text "OVERVIEW"
      ∷ text (plural project_count "project" <> " · " <> plural s.engagements "engagement")
      ∷ link "/operations" "Open Operations Canvas →"
      ∷ text "Active engagement · current operation · scope state · pending decisions · governance"
      ∷ gate (pending runs))
    ++ (current_operation date runs
        ++ (scope_state s runs
            ++ ((text "LATEST EVIDENCE" ∷ latest_evidence date (head? evidence))
                ++ (finding_panel (latest_finding findings)
                    ++ (governance time audit
                        ++ text (
                            "Reports: "
                            <> show s.reports
                            <> " · Findings: "
                            <> show s.findings
                            <> " · Evidence: "
                            <> show s.evidence)
                          ∷ link "/reports" "Reports →"
                          ∷ text
                              "Scope before execution · Evidence before conclusions · Humans before consequential actions"
                          ∷ text "MORPHIA v0.2 α — Operations Intelligence Interface"
                          ∷ [])))))
