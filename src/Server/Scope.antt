-- ===== src/Server/Scope.antt =====
-- apps/api/app/services/scope_validator.py: the checks that each action on a target goes through.
pub mod Laws
use morphia.Common.{
  ℕ, String, Bool, true, false, not, ◌&&◌, ◌||◌, Option, none, some, List, [], ◌∷◌, ◌++◌, any, find,
  filter, length, ltb, is_empty, is_some, includes, strip, opt_bind, ◌==◌, ◌<>◌, ◌or_null◌,
  if◌then◌else◌,
}
use morphia.Common.Json.{Fields, end, field, string, bool}
use morphia.RunState.{queued, running, awaiting_action_approval, has}
use morphia.Server.Store.{Engagement, Run, ApprovalRequest, Store, select_run}
use morphia.Server.Tables.{ScopeRule, Tables}

-- What the validator takes from elsewhere: `fnmatch.fnmatch`, `str.lower`, and whether the address that the target
-- denotes lies in the network that the pattern denotes (`none` for a ValueError) are Python's, and
-- `prohibited_target_reason` is that of services/target_safety.py, with the answers of its resolver.
pub record Environment : Type 0 where
  pub fnmatch : (name pat : String) → Bool
  pub lower : String → String
  pub in_network : (pattern target : String) → Option Bool
  pub prohibited_target_reason : String → Option String

pub record ScopeResult : Type 0 where
  pub allowed : Bool
  pub reason : String
  pub checks_passed : List String
  pub checks_failed : List String

-- `ACTIONS_REQUIRING_APPROVAL`
unfoldable pub requires_approval : String → Bool
requires_approval action =
    any (λ a. a == action)
      ("exploit" ∷ "active_scan" ∷ "destructive_test" ∷ "social_engineering" ∷ [])

-- `DEFAULT_MAX_CONCURRENT_ACTIONS_PER_ENGAGEMENT`
abbrev pub max_concurrent_actions : ℕ
max_concurrent_actions = 5

-- `_get_engagement`
unfoldable pub get_engagement : String → Tables → Option Engagement
get_engagement engagement_id t =
    find (λ (e : Engagement). e.id == engagement_id) t.store.engagements

-- `_get_scope_rules`
unfoldable pub get_scope_rules : String → Tables → List ScopeRule
get_scope_rules engagement_id t =
    filter (λ (r : ScopeRule). r.engagement_id == engagement_id) t.scope_rules

module _ (env : Environment) where
  -- `_pattern_matches`
  unfoldable pub pattern_matches : (pattern target : String) → Bool
  pattern_matches pattern target =
      let glob : Bool = env.fnmatch (env.lower target) (env.lower pattern) in
      if includes pattern "/" then env.in_network pattern target or_null glob else glob

  -- `_match_rule`
  unfoldable pub match_rule : List ScopeRule → (target rule_type : String) → Option ScopeRule
  unfolding pattern_matches
  match_rule rules target rule_type =
      find (λ (r : ScopeRule). r.rule_type == rule_type && pattern_matches r.pattern target) rules

-- `_check_concurrency`
unfoldable pub check_concurrency : String → Tables → Bool
unfolding get_engagement
check_concurrency engagement_id t = elim (get_engagement engagement_id t) [
  | none ↦ false
  | some e ↦
      ltb
        (length (
          filter
            (λ (r : Run).
              r.project_id == e.project_id
              && has (queued ∷ running ∷ awaiting_action_approval ∷ []) r.state)
            t.store.runs))
        max_concurrent_actions
]

-- The row of `ApprovalRequest` joined with that of its run.
unfoldable pub is_approval_in : String → Store → ApprovalRequest → Bool
unfolding select_run
is_approval_in project_id db a = elim (select_run a.run_id db.runs) [
  | none ↦ false
  | some r ↦ r.project_id == project_id && a.status == "approved"
]

-- `_has_approval`
unfoldable pub has_approval : String → Tables → Bool
unfolding get_engagement is_approval_in
has_approval engagement_id t = elim (get_engagement engagement_id t) [
  | none ↦ false
  | some e ↦ any (is_approval_in e.project_id t.store) t.store.approvals
]

-- `_write_audit`; the time of the check is left out.
unfoldable pub write_audit :
    (engagement_id target action actor : String) (allowed : Bool) (reason : String)
    → Tables
    → Tables
write_audit engagement_id target action actor allowed reason t =
    let metadata : Fields =
      field "target" (string target)
        (field "allowed" (bool allowed) (field "reason" (string reason) end)) in
    record t {
      store = record t.store {
        audit =
            t.store.audit
            ++ record {
              event_type = "scope.modify";
              actor_id = if is_empty actor then none else some actor;
              target_type = some "scope_target";
              target_id = some engagement_id;
              action = action;
              metadata_json = some metadata;
            }
              ∷ [];
      };
    }

-- How the checks end: a value to go on with, or the arguments of the call of `_deny`.
pub data Check {ℓ} (A : Type ℓ) : Type ℓ where
  passed : A → Check A
  denied : (reason : String) (checks_passed : List String) → Check A

infixl 5 ◌>>=◌ ◌>>◌
abbrev pub ◌>>=◌ {ℓ κ} : {A : Type ℓ} {B : Type κ} → Check A → (A → Check B) → Check B
passed a >>= k = k a
denied reason checks >>= k = denied reason checks

abbrev pub ◌>>◌ {κ} : {B : Type κ} → Check (Unit {0}) → Check B → Check B
passed a >> k = k
denied reason checks >> k = denied reason checks

abbrev pub deny_if : Bool → String → List String → Check (Unit {0})
deny_if true reason checks = denied reason checks
deny_if false reason checks = passed tt

abbrev pub found {ℓ} : {A : Type ℓ} → Option A → String → List String → Check A
found none reason checks = denied reason checks
found (some a) reason checks = passed a

-- A check that denies with what it finds.
abbrev pub deny_found {ℓ} : {A : Type ℓ} → Option A → (A → String) → List String → Check (Unit {0})
deny_found none reason checks = passed tt
deny_found (some a) reason checks = denied (reason a) checks

module _ (env : Environment) where
  -- The checks of `validate_target`, in their order.
  unfoldable pub run_checks :
      (engagement_id target action actor : String) → Tables → Check (Unit {0})
  unfolding match_rule get_engagement get_scope_rules requires_approval has_approval
      check_concurrency
  run_checks engagement_id target action actor t = do
    e ← found (get_engagement engagement_id t) "Engagement not found." []
    deny_if (not (e.status == "active")) ("Engagement is not active (status=" <> e.status <> ").")
        []
    deny_found (env.prohibited_target_reason target) (λ why. why) ("engagement_active" ∷ [])
    let rules = get_scope_rules engagement_id t
    deny_found (match_rule env rules target "exclude")
        (λ (r : ScopeRule).
          "Target '" <> target <> "' matches exclusion rule '" <> r.pattern <> "'.")
        ("engagement_active" ∷ "target_safe" ∷ [])
    _ ←
        found (match_rule env rules target "include")
          ("Target '" <> target <> "' does not match any allowed scope rule.")
          ("engagement_active" ∷ "target_safe" ∷ "no_exclusion_match" ∷ [])
    deny_if (is_empty action || is_empty (strip action)) "Action is required."
        ("engagement_active" ∷ "target_safe" ∷ "no_exclusion_match" ∷ "in_scope" ∷ [])
    deny_if (not (check_concurrency engagement_id t))
        "Concurrency limit exceeded for this engagement."
        ("engagement_active" ∷ "target_safe" ∷ "no_exclusion_match" ∷ "in_scope"
          ∷ "action_specified" ∷ [])
    deny_if (requires_approval action && not (has_approval engagement_id t))
        ("Action '" <> action <> "' requires an approved ApprovalRequest.")
        ("engagement_active" ∷ "target_safe" ∷ "no_exclusion_match" ∷ "in_scope"
          ∷ "action_specified" ∷ "concurrency_ok" ∷ [])
    deny_if (is_empty actor || is_empty (strip actor)) "Actor is required." (
        "engagement_active" ∷ "target_safe" ∷ "no_exclusion_match" ∷ "in_scope" ∷ "action_specified"
        ∷ "concurrency_ok" ∷ "approval_satisfied" ∷ [])

  -- `validate_target`: either way the decision is written to the audit table.
  unfoldable pub validate_target :
      (engagement_id target action actor : String) → Tables → ScopeResult × Tables
  unfolding run_checks write_audit
  validate_target engagement_id target action actor t =
      elim (run_checks engagement_id target action actor t) [
        | denied reason checks ↦ (
          record {
            allowed = false;
            reason = reason;
            checks_passed = checks;
            checks_failed = reason ∷ [];
          },
          write_audit engagement_id target action actor false reason t,
        )
        | passed _ ↦ (
          record {
            allowed = true;
            reason = "All scope checks passed.";
            checks_passed =
                "engagement_active" ∷ "target_safe" ∷ "no_exclusion_match" ∷ "in_scope"
                ∷ "action_specified" ∷ "concurrency_ok" ∷ "approval_satisfied" ∷ "actor_authorized"
                ∷ "audit_logged" ∷ [];
            checks_failed = [];
          },
          write_audit engagement_id target action actor true "Scope validation passed." t,
        )
      ]
