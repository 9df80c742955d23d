-- ===== src/Types/System.antt =====
-- apps/web/src/lib/types.ts: reports, the status of the system and agent profiles. A cost is a whole number of dollars,
-- as all that the client has are.
use morphia.Common.{ℕ, String, Bool, Option, List, [], ◌∷◌}
use morphia.Common.Json.{Items}

pub data ReportStatus : Type 0 where
  draft review final submitted acknowledged : ReportStatus

pub data ReportFormat : Type 0 where
  markdown html json : ReportFormat

-- `REPORT_FORMATS`
unfoldable pub report_formats : List ReportFormat
report_formats = markdown ∷ html ∷ json ∷ []

pub record Report : Type 0 where
  pub id : String
  pub project_id : String
  pub project_name : Option String
  pub title : String
  pub summary : String
  pub affected_asset : String
  pub scope_confirmation : String
  pub prerequisites : String
  pub reproduction_steps : String
  pub expected_result : String
  pub actual_result : String
  pub impact : String
  pub severity_rationale : String
  pub cwe_id : Option String
  pub cvss_vector : Option String
  pub remediation : String
  pub limitations : String
  pub disclosure_timeline : Option Items
  pub status : ReportStatus
  pub format : ReportFormat
  pub creator_id : String
  pub created_at : String
  pub updated_at : String
  pub finding_count : Option ℕ

pub data HealthState : Type 0 where
  health_ok degraded unknown : HealthState

pub record HealthCheck : Type 0 where
  pub status : HealthState
  pub detail : String

pub record SystemStatus : Type 0 where
  pub version : String
  pub environment : String
  pub debug : Bool
  pub provider : String
  pub storage_backend : String
  pub session_lifetime_hours : ℕ
  pub database : HealthCheck
  pub redis : HealthCheck
  pub worker : HealthCheck
  pub migration : HealthCheck
  pub checked_at : String

pub data ApprovalLevel : Type 0 where
  no_approval plan_only action_level full : ApprovalLevel

pub record AgentProfile : Type 0 where
  pub id : String
  pub name : String
  pub purpose : String
  pub allowed_tools : List String
  pub max_cost_usd : ℕ
  pub approval_level : ApprovalLevel
