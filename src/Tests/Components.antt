-- ===== src/Tests/Components.antt =====
-- The components and pages under apps/web/src on small inputs.
use morphia.Common.{
  any, null?, String, ◌≡◌, refl, true, not, ◌&&◌, ◌||◌, none, some, List, [], ◌∷◌, map, is_some,
  ◌==◌, arith,
}
use morphia.Common.Json.{Json, object, end}
use morphia.Common.View.{shown}
use morphia.RunState.{failed, running, awaiting_plan_approval}
use morphia.Types.{
  Run, AuditEvent, ScopeRule, ScopeRuleType, include, exclude, EvidenceArtifact, contradicted,
  WorkflowNode, entry, step, exit,
}
use morphia.Web.Api.{Outcome, api_error}
use morphia.Web.AuditStream.{filtered}
use morphia.Web.AuditStream.Laws.{filtered-human}
use morphia.Web.AuthorizationBoundary.{evaluate, matches, is_include, is_exclude}
use morphia.Web.AuthorizationBoundary.Laws.{fits, evaluate-allowed, evaluate_within}
use morphia.Web.ExecutionGraph.{GraphNode, is_failed_scope}
use morphia.Web.ExecutionGraph.Stages.{derive_graph}
use morphia.Web.ExecutionGraph.Laws.{states_of, derive_graph-states}
use morphia.Web.Workflows.{linearize}
use morphia.Web.Workflows.Laws.{occurs, Yields, linearize-occurs}
use morphia.Web.Operations.{is_awaiting, is_live, first_choice}
use morphia.Web.Operations.Laws.{passes, first_choice_lem}
use morphia.Web.EvidenceProvenance.{artifact}
use morphia.Web.EvidenceProvenance.Laws.{artifact-verified}
use morphia.Tests.Agreement.{run, iso}

abbrev denied_run : Run
denied_run = record (run failed) { failure_reason = "Scope validation denied the target" }

derive_graph-states_example :
    map (λ (n : GraphNode). n.state) (derive_graph (run running) [] []) ≡ states_of running true
unfolding is_failed_scope
derive_graph-states_example = derive_graph-states (run running) [] [] refl

abbrev offline : Outcome Json
offline = api_error 0 (object end) "Offline"

abbrev audit_event : String → AuditEvent
audit_event type = record {
  id = "a1";
  event_type = type;
  actor_id = some "u1";
  target_type = none;
  target_id = none;
  action = type;
  metadata_json = none;
  ip_address = none;
  created_at = "2026-08-01T14:22:00Z";
}

abbrev pub audit_events : List AuditEvent
audit_events = audit_event "approval.decide" ∷ audit_event "auth.login" ∷ []

filtered-human_example : filtered audit_events "human" 12 ≡ []
filtered-human_example = filtered-human audit_events 12

abbrev rule : ScopeRuleType → String → ScopeRule
rule t pattern = record {
  id = "s1";
  engagement_id = "e1";
  rule_type = t;
  target_type = "domain";
  pattern = pattern;
  is_wildcard = true;
  notes = "";
  created_at = "2026-08-01T14:22:00Z";
}

abbrev rules : List ScopeRule
rules = rule include "*.example.com" ∷ rule exclude "prod.example.com" ∷ []

evaluate-allowed_example :
    (evaluate none rules "prod.example.com").allowed
    ≡ (fits is_include "prod.example.com" rules && not (fits is_exclude "prod.example.com" rules))
evaluate-allowed_example = evaluate-allowed none rules "prod.example.com"

evaluate_within_example : (evaluate none rules "example.com.attacker.org").allowed ≡ true
unfolding is_include is_exclude matches
evaluate_within_example =
    evaluate_within none (rule include "*.example.com") (rule exclude "prod.example.com" ∷ []) ""
      ".attacker.org" refl refl

-- A cycle, and a node that nothing leads to.
abbrev nodes : List WorkflowNode
nodes =
    record { id = "a"; type = entry; name = "A"; next = "b" ∷ [] }
    ∷ record { id = "b"; type = step; name = "B"; next = "a" ∷ [] }
    ∷ record { id = "c"; type = exit; name = "C"; next = [] }
    ∷ []

linearize-occurs_example :
    Yields (linearize nodes) (λ ordered. occurs ordered "c" ≡ occurs nodes "c")
linearize-occurs_example = linearize-occurs nodes "c" (omega arith)

abbrev runs : List Run
runs = run running ∷ run awaiting_plan_approval ∷ []

first_choice_lem_example :
    (passes is_awaiting (first_choice runs) ≡ any is_awaiting runs)
    × (passes (λ r. is_awaiting r || is_live r) (first_choice runs)
        ≡ any (λ r. is_awaiting r || is_live r) runs)
    × (is_some (first_choice runs) ≡ not (null? runs))
first_choice_lem_example = first_choice_lem runs

abbrev evidence : EvidenceArtifact
evidence = record {
  id = "e1";
  project_id = "p1";
  engagement_id = none;
  run_id = some "r1";
  run_step_id = none;
  creator_id = "u1";
  source = "worker";
  acquisition_timestamp = none;
  content_type = "application/json";
  original_filename = "headers.json";
  storage_path = "p1/headers.json";
  file_size = 1536;
  sha256_digest = "9f86d081884c7d659a2feaa0c55ad015a3bf4f1b2b0b822cd15d6c15b0f00a08";
  sensitivity = "internal";
  verification_status = contradicted;
  reviewer_id = none;
  notes = "";
  created_at = "2026-08-01T14:22:00Z";
  updated_at = "2026-08-01T14:22:00Z";
}

artifact-verified_example :
    any (λ s. s == "VERIFIED") (shown (artifact iso true evidence none)) ≡ true
artifact-verified_example = artifact-verified iso true evidence none
