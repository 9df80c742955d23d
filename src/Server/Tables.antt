-- ===== src/Server/Tables.antt =====
-- apps/api/app/models: the tables of the runs together with those of scope rules and steps, as lists,
-- oldest row first. Columns that no route below reads, and those that the database fills, are left out.
use morphia.Common.{ℕ, String, Option, List}
use morphia.Common.Json.{Fields}
use morphia.Server.Store.{Store}

pub record ScopeRule : Type 0 where
  pub engagement_id : String
  pub rule_type : String
  pub pattern : String

pub record RunStep : Type 0 where
  pub id : String
  pub run_id : String
  pub step_number : ℕ
  pub action : String
  pub status : String
  pub input_data : Option Fields
  pub output_data : Option Fields
  pub error : String
  pub idempotency_key : Option String

pub record Tables : Type 0 where
  pub store : Store
  pub scope_rules : List ScopeRule
  pub steps : List RunStep
