-- ===== src/Types/Analysis.antt =====
-- apps/web/src/lib/types.ts: findings, evidence, the dashboard's counts and workflows.
use morphia.Common.{ℕ, String, Option, List, [], ◌∷◌}

pub data FindingSeverity : Type 0 where
  critical high medium low info : FindingSeverity

pub data FindingState : Type 0 where
  candidate needs_evidence needs_reproduction verified rejected : FindingState
  duplicate report_ready submitted triaged resolved : FindingState

pub record Finding : Type 0 where
  pub id : String
  pub project_id : String
  pub title : String
  pub observation : String
  pub hypothesis : String
  pub verification_method : String
  pub actual_result : String
  pub expected_result : String
  pub affected_scope : String
  pub security_impact : String
  pub uncertainty : String
  pub severity : FindingSeverity
  pub suggested_severity : Option String
  pub cwe_id : Option String
  pub cvss_vector : Option String
  pub remediation : String
  pub disclosure_status : String
  pub state : FindingState
  pub creator_id : String
  pub reviewer_id : Option String
  pub created_at : String
  pub updated_at : String

pub data VerificationStatus : Type 0 where
  unreviewed source_captured integrity_verified manually_reproduced : VerificationStatus
  contradicted inconclusive rejected : VerificationStatus

pub record EvidenceArtifact : Type 0 where
  pub id : String
  pub project_id : String
  pub engagement_id : Option String
  pub run_id : Option String
  pub run_step_id : Option String
  pub creator_id : String
  pub source : String
  pub acquisition_timestamp : Option String
  pub content_type : String
  pub original_filename : String
  pub storage_path : String
  pub file_size : ℕ
  pub sha256_digest : String
  pub sensitivity : String
  pub verification_status : VerificationStatus
  pub reviewer_id : Option String
  pub notes : String
  pub created_at : String
  pub updated_at : String

pub record DashboardSummary : Type 0 where
  pub projects : ℕ
  pub engagements : ℕ
  pub runs : ℕ
  pub active_runs : ℕ
  pub pending_approvals : ℕ
  pub evidence : ℕ
  pub findings : ℕ
  pub verified_findings : ℕ
  pub reports : ℕ

pub data WorkflowNodeType : Type 0 where
  entry step approval_gate exit : WorkflowNodeType

pub record WorkflowNode : Type 0 where
  pub id : String
  pub type : WorkflowNodeType
  pub name : String
  pub next : List String

pub data WorkflowStatus : Type 0 where
  active draft archived : WorkflowStatus

pub record Workflow : Type 0 where
  pub id : String
  pub name : String
  pub description : String
  pub version : ℕ
  pub status : WorkflowStatus
  pub nodes : List WorkflowNode
  pub last_run_at : Option String
  pub created_at : String

-- `FINDING_STATES`
unfoldable pub finding_states : List FindingState
finding_states =
    candidate ∷ needs_evidence ∷ needs_reproduction ∷ verified ∷ FindingState.rejected ∷ duplicate
    ∷ report_ready ∷ submitted ∷ triaged ∷ resolved ∷ []

-- `EVIDENCE_VERIFICATION_STATUSES`
unfoldable pub evidence_verification_statuses : List VerificationStatus
evidence_verification_statuses =
    unreviewed ∷ source_captured ∷ integrity_verified ∷ manually_reproduced ∷ contradicted
    ∷ inconclusive ∷ VerificationStatus.rejected ∷ []
