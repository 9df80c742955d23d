-- ===== src/Web/Findings.antt =====
-- apps/web/src/pages/Findings.tsx: the list of findings, its filter and the pane beside it.
pub mod Laws
use morphia.Common.{
  ℕ, String, Bool, true, false, not, ◌&&◌, Option, none, some, List, [], ◌∷◌, ◌++◌, filter, find,
  take, null?, prefix, is_empty, is_some, opt_map, ◌==◌, ◌<>◌, ◌or_else◌, ◌or_null◌, if◌then◌else◌,
}
use morphia.Common.View.{View, text, button, input, when}
use morphia.Types.{
  Finding, FindingSeverity, critical, high, medium, low, info, FindingState, candidate,
  needs_evidence, needs_reproduction, verified, duplicate, report_ready, submitted, triaged,
  resolved, EvidenceArtifact,
}
use morphia.Web.ListStates.{Query, query_error, empty_state}

-- The values of the two enumerations, and `stateLabel`
unfoldable pub severity_name : FindingSeverity → String
severity_name critical = "critical"
severity_name high = "high"
severity_name medium = "medium"
severity_name low = "low"
severity_name info = "info"

unfoldable pub state_name : FindingState → String
state_name candidate = "candidate"
state_name needs_evidence = "needs_evidence"
state_name needs_reproduction = "needs_reproduction"
state_name verified = "verified"
state_name FindingState.rejected = "rejected"
state_name duplicate = "duplicate"
state_name report_ready = "report_ready"
state_name submitted = "submitted"
state_name triaged = "triaged"
state_name resolved = "resolved"

state_label : FindingState → String
state_label candidate = "Candidate"
state_label needs_evidence = "Needs Evidence"
state_label needs_reproduction = "Needs Reproduction"
state_label verified = "Verified"
state_label FindingState.rejected = "Rejected"
state_label duplicate = "Duplicate"
state_label report_ready = "Report Ready"
state_label submitted = "Submitted"
state_label triaged = "Triaged"
state_label resolved = "Resolved"

unfoldable pub same_state : FindingState → FindingState → Bool
unfolding state_name
same_state s t = state_name s == state_name t

-- `Findings`; no state stands for "all".
pub record Page : Type 0 where
  pub state_filter : Option FindingState
  pub selected_id : Option String

unfoldable pub initial : Page
initial = record { state_filter = none; selected_id = none }

-- `filtered`
unfoldable pub filtered : List Finding → Option FindingState → List Finding
unfolding same_state
filtered items none = items
filtered items (some s) = filter (λ (f : Finding). same_state f.state s) items

unfoldable pub is_id : Option String → String → Bool
is_id none id = false
is_id (some a) id = id == a

-- `selected`
unfoldable pub selected : List Finding → Page → Option Finding
unfolding filtered is_id
selected items s = find (λ (f : Finding). is_id s.selected_id f.id) (filtered items s.state_filter)

-- `linkedEvidence`
unfoldable pub linked_evidence : Option Finding → List EvidenceArtifact → List EvidenceArtifact
linked_evidence none evidence = []
linked_evidence (some f) evidence =
    take 3 (filter (λ (e : EvidenceArtifact). e.project_id == f.project_id) evidence)

pub data Click : Type 0 where
  set_state_filter : Option FindingState → Click
  row : (finding_id : String) → Click
  close retry : Click

unfoldable pub clicked : Click → Page → Page
unfolding is_id
clicked (set_state_filter f) s = record s { state_filter = f }
clicked (row id) s = record s { selected_id = if is_id s.selected_id id then none else some id }
clicked close s = record s { selected_id = none }
clicked retry s = s

-- A row is a control of its own: a click on any of its cells selects it.
finding_rows : (locale : String → String) → List Finding → View Click
unfolding severity_name state_label
finding_rows locale [] = []
finding_rows locale (f ∷ fs) =
    button f.title false (row f.id)
    ∷ text (severity_name f.severity)
    ∷ text ((f.cwe_id or_null "") or_else "—")
    ∷ text (state_label f.state)
    ∷ text (locale f.created_at)
    ∷ finding_rows locale fs

shown_text : Option String → View Click
shown_text none = []
shown_text (some s) = when (not (is_empty s)) (text s ∷ [])

titled : (title body : String) → View Click
titled title body = when (not (is_empty body)) (text title ∷ text body ∷ [])

evidence_rows : List EvidenceArtifact → View Click
evidence_rows [] = []
evidence_rows (e ∷ es) =
    text e.original_filename
    ∷ text ("sha256:" <> prefix 10 e.sha256_digest <> "…")
    ∷ evidence_rows es

-- The pane for the selected finding.
unfoldable pub detail : (locale : String → String) → List EvidenceArtifact → Finding → View Click
unfolding linked_evidence evidence_rows titled shown_text severity_name state_label
detail locale evidence f =
    let linked : List EvidenceArtifact = linked_evidence (some f) evidence in
    (text "FINDING DETAIL"
      ∷ button "Close" false close
      ∷ text f.title
      ∷ text (severity_name f.severity)
      ∷ text (state_label f.state)
      ∷ shown_text f.cwe_id)
    ++ (shown_text f.cvss_vector
        ++ ((text "Affected scope"
              ∷ text (f.affected_scope or_else "—")
              ∷ text "Disclosure"
              ∷ text (f.disclosure_status or_else "—")
              ∷ text "Confidence / uncertainty"
              ∷ text (f.uncertainty or_else "—")
              ∷ text "Created"
              ∷ text (locale f.created_at)
              ∷ titled "OBSERVATION" f.observation)
            ++ (titled "HYPOTHESIS" f.hypothesis
                ++ (titled "VERIFICATION METHOD" f.verification_method
                    ++ (titled "ACTUAL RESULT" f.actual_result
                        ++ (titled "SECURITY IMPACT" f.security_impact
                            ++ (titled "REMEDIATION" f.remediation
                                ++ text "LINKED EVIDENCE"
                                  ∷ (if null? linked
                                      then text
                                          "No linked evidence in this project — findings require evidence for verification"
                                        ∷ []
                                      else evidence_rows linked))))))))

pane : (locale : String → String) → List EvidenceArtifact → Option Finding → View Click
unfolding detail
pane locale evidence none = []
pane locale evidence (some f) = detail locale evidence f

-- The page.
unfoldable pub view :
    (date locale : String → String)
    → Query (List Finding)
    → List EvidenceArtifact
    → Page
    → View Click
unfolding filtered selected finding_rows pane query_error empty_state state_name
view date locale q evidence s =
    let items : List Finding = filtered (q.data_of or_null []) s.state_filter in
    let settled : Bool = not q.is_loading && not (is_some q.error) in
    (text "FINDINGS"
      ∷ text "Analyst workspace · evidence-linked · verification lifecycle"
      ∷ input (opt_map state_name s.state_filter or_null "all")
      ∷ query_error "Failed to load findings." retry q.error)
    ++ (when (settled && null? items) (
          empty_state "No findings yet"
            "Findings identified by runs appear here as candidates, then move through verification to a final disposition. Evidence must be linked before verification."
            [])
        ++ when (settled && not (null? items)) (
            (text "Title"
              ∷ text "Severity"
              ∷ text "CWE"
              ∷ text "State"
              ∷ text "Date"
              ∷ finding_rows date items)
            ++ pane locale evidence (selected (q.data_of or_null []) s)))
