-- ===== src/Types/Entities.antt =====
-- apps/web/src/lib/types.ts: users, projects, engagements, scope rules, runs, approvals and audit
-- events. A field of type `string | null`, or one that may be missing, is an Option; a time stamp is
-- the text that the API sends.
use morphia.Common.{ℕ, String, Bool, Option, List}
use morphia.Common.Json.{Fields}
use morphia.RunState.{RunState}

pub record User : Type 0 where
  pub id : String
  pub email : String
  pub display_name : String
  pub role : String

pub record Project : Type 0 where
  pub id : String
  pub name : String
  pub description : String
  pub status : String
  pub owner_id : String
  pub created_at : String
  pub updated_at : String

pub record Engagement : Type 0 where
  pub id : String
  pub project_id : String
  pub program_name : String
  pub authorization_basis : String
  pub start_date : Option String
  pub end_date : Option String
  pub status : String
  pub notes : String
  pub created_at : String
  pub updated_at : String

pub data ScopeRuleType : Type 0 where
  include exclude : ScopeRuleType

pub record ScopeRule : Type 0 where
  pub id : String
  pub engagement_id : String
  pub rule_type : ScopeRuleType
  pub target_type : String
  pub pattern : String
  pub is_wildcard : Bool
  pub notes : String
  pub created_at : String

pub record RunPlanStep : Type 0 where
  pub action : String
  pub target : String
  pub prompt : String

pub record RunPlan : Type 0 where
  pub steps : List RunPlanStep

pub record Run : Type 0 where
  pub id : String
  pub project_id : String
  pub engagement_id : Option String
  pub state : RunState
  pub title : String
  pub plan : Option RunPlan
  pub agent_profile : Option String
  pub failure_reason : String
  pub created_by : String
  pub created_at : String
  pub updated_at : String

pub record RunStep : Type 0 where
  pub id : String
  pub run_id : String
  pub step_number : ℕ
  pub action : String
  pub status : String
  pub input_data : Option Fields
  pub output_data : Option Fields
  pub error : String
  pub created_at : String

pub record RunEvent : Type 0 where
  pub id : String
  pub run_id : String
  pub event_type : String
  pub from_state : Option String
  pub to_state : Option String
  pub actor_id : Option String
  pub payload : Option Fields
  pub created_at : String

pub record AuditEvent : Type 0 where
  pub id : String
  pub event_type : String
  pub actor_id : Option String
  pub target_type : Option String
  pub target_id : Option String
  pub action : String
  pub metadata_json : Option Fields
  pub ip_address : Option String
  pub created_at : String
