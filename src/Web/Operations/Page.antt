-- ===== src/Web/Operations/Page.antt =====
-- apps/web/src/pages/Operations.tsx: the column of evidence, findings and approvals, and the whole page.
use morphia.Common.{
  String, Bool, true, not, Option, none, some, List, [], ◌∷◌, ◌++◌, take, length, null?, prefix,
  show, opt_map, ◌<>◌, ◌or_null◌, if◌then◌else◌,
}
use morphia.Common.View.{View, text, link, when, embed}
use morphia.RunState.{name}
use morphia.Types.{Run, Engagement, EvidenceArtifact, Finding, DashboardSummary}
use morphia.Web.ApprovalGate.{set_pending}
use morphia.Web.AuditStream
use morphia.Web.AuthorizationBoundary.{handle_evaluate}
use morphia.Web.ExecutionGraph.View.{clicked as graph_clicked}
use morphia.Web.EvidenceProvenance
use morphia.Web.EvidenceProvenance.{status_name}
use morphia.Web.Findings.{severity_name, state_name}
use morphia.Web.Operations.{active_engagement, pending_approvals, metrics, has_data}
use morphia.Web.Operations.View.{
  Data, State, Click, select_run, in_boundary, in_graph, in_gate, copy, in_stream, header, strip,
  no_operation, left, center,
}

approval_rows : (locale : String → String) → List Run → View Click
approval_rows locale [] = []
approval_rows locale (r ∷ rs) =
    text r.title
    ∷ text (name r.state <> " · " <> locale r.updated_at)
    ∷ link ("/runs/" <> r.id) "Review →"
    ∷ approval_rows locale rs

evidence_rows : (date : String → String) → List EvidenceArtifact → View Click
unfolding status_name
evidence_rows date [] = []
evidence_rows date (e ∷ es) =
    text e.original_filename
    ∷ text ("sha256:" <> prefix 16 e.sha256_digest <> "…")
    ∷ text (status_name e.verification_status <> " · " <> date e.created_at)
    ∷ evidence_rows date es

finding_rows : List Finding → View Click
unfolding severity_name state_name
finding_rows [] = []
finding_rows (f ∷ fs) =
    text f.title ∷ text (severity_name f.severity) ∷ text (state_name f.state) ∷ finding_rows fs

-- `AWAITING HUMAN DECISION`
approvals : (locale : String → String) → List Run → View Click
unfolding approval_rows show
approvals locale pending =
    text "AWAITING HUMAN DECISION"
    ∷ text (show (length pending))
    ∷ (if null? pending
        then text "No pending approvals — operations are clear" ∷ []
        else approval_rows locale (take 3 pending))

-- `LATEST EVIDENCE`
latest_evidence : (date : String → String) → List EvidenceArtifact → View Click
unfolding evidence_rows show
latest_evidence date evidence =
    text "LATEST EVIDENCE"
    ∷ link "/evidence" (show (length evidence) <> " artifacts →")
    ∷ (if null? evidence
        then text "No artifacts yet" ∷ []
        else evidence_rows date (take 3 evidence))

-- `LATEST FINDINGS`
latest_findings : List Finding → View Click
unfolding finding_rows show
latest_findings findings =
    text "LATEST FINDINGS"
    ∷ link "/findings" (show (length findings) <> " →")
    ∷ (if null? findings then text "No findings yet" ∷ [] else finding_rows (take 3 findings))

-- `GOVERNANCE`
governance : Data → View Click
unfolding show
governance d =
    text "GOVERNANCE"
    ∷ text "Audit events"
    ∷ text (show (length d.audit))
    ∷ text "Reports"
    ∷ text (show (opt_map (λ (s : DashboardSummary). s.reports) d.summary or_null 0))
    ∷ text "Engagements"
    ∷ text (show (length d.engagements))
    ∷ link "/audit" "View audit trail →"
    ∷ []

right : (date locale : String → String) → Data → View Click
unfolding approvals latest_evidence latest_findings governance pending_approvals
right date locale d =
    text "EVIDENCE · FINDINGS · APPROVALS" ∷ approvals locale (pending_approvals d.runs)
    ++ (latest_evidence date d.evidence ++ (latest_findings d.findings ++ governance d))

-- The lineage of the first two artifacts.
provenance : (locale : String → String) → Data → View Click
unfolding EvidenceProvenance.view
provenance locale d = when (not (null? d.evidence)) (
    text "EVIDENCE PROVENANCE — TRACEABILITY"
    ∷ text "RUN → STEP → ARTIFACT → HASH → VERIFICATION → FINDING → REPORT"
    ∷ embed copy (EvidenceProvenance.view locale true (take 2 d.evidence) (some d.findings)))

-- The page.
unfoldable pub view :
    (date locale time : String → String) (is_wide : Bool) → Data → State → View Click
unfolding header strip no_operation left center right provenance active_engagement metrics has_data
    AuditStream.view
view date locale time is_wide d s =
    let engagement : Option Engagement = active_engagement d.engagements in
    let top : View Click =
      header engagement
      ++ strip (metrics d.projects d.engagements d.runs d.evidence d.findings d.summary) in
    if has_data d.projects d.engagements d.runs
    then top
      ++ (left engagement d s.evaluator
          ++ (center locale is_wide engagement d s
              ++ (right date locale d
                  ++ (provenance locale d
                      ++ embed in_stream
                          (AuditStream.view time "Live audit stream" 10 d.audit s.stream_filter)))))
    else top ++ no_operation

-- What a click changes: the selection of the page, or the state of the component that it is in.
unfoldable pub clicked : Data → Click → State → State
unfolding active_engagement handle_evaluate graph_clicked set_pending
clicked d (select_run id) s = record s { selected_run_id = some id }
clicked d (in_boundary a) s = record s {
  evaluator = handle_evaluate none (active_engagement d.engagements) d.scope_rules s.evaluator;
}
clicked d (in_graph c) s = record s { selected_node = graph_clicked c s.selected_node }
clicked d (in_gate a) s = record s { gate = set_pending a true s.gate }
clicked d (copy t) s = s
clicked d (in_stream f) s = record s { stream_filter = f }
