-- ===== src/Web/AuthorizationBoundary.antt =====
-- apps/web/src/components/AuthorizationBoundary.tsx: the evaluator of a target against the scope rules of
-- an engagement, as the browser runs it.
pub mod View
pub mod Laws
use morphia.Common.{
  String, Bool, true, false, ◌||◌, Option, none, some, List, filter, find, includes, remove_first,
  trim, is_empty, opt_map, ◌==◌, ◌<>◌, ◌<|>◌, ◌or_null◌, if◌then◌else◌,
}
use morphia.Types.{ScopeRule, Engagement, ScopeRuleType, include, exclude}

pub record PolicyDecision : Type 0 where
  pub target : String
  pub allowed : Bool
  pub reason : String
  pub matched_rule : Option ScopeRule
  pub engagement : Option Engagement

-- `input` and `localDecision`
pub record Evaluator : Type 0 where
  pub input : String
  pub local_decision : Option PolicyDecision

-- The first render, from the prop `decision`.
unfoldable pub initial : Option PolicyDecision → Evaluator
initial decision = record {
  input = opt_map (λ (d : PolicyDecision). d.target) decision or_null "";
  local_decision = decision;
}

is_exclude_type : ScopeRuleType → Bool
is_exclude_type exclude = true
is_exclude_type include = false

is_include_type : ScopeRuleType → Bool
is_include_type exclude = false
is_include_type include = true

unfoldable pub is_exclude : ScopeRule → Bool
unfolding is_exclude_type
is_exclude r = is_exclude_type r.rule_type

unfoldable pub is_include : ScopeRule → Bool
unfolding is_include_type
is_include r = is_include_type r.rule_type

-- The test of both searches; the one for include rules compares the pattern twice.
unfoldable pub matches : String → ScopeRule → Bool
matches target r = includes target (remove_first "*." r.pattern) || target == r.pattern

-- `handleEvaluate` after its guards: the local fallback.
unfoldable pub evaluate : Option Engagement → List ScopeRule → String → PolicyDecision
unfolding matches is_exclude is_include
evaluate engagement rules target = elim (find (matches target) (filter is_exclude rules)) [
  | some r ↦ record {
    target = target;
    allowed = false;
    reason = "Explicit exclusion matched: \"" <> r.pattern <> "\"";
    matched_rule = some r;
    engagement = engagement;
  }
  | none ↦ elim (find (matches target) (filter is_include rules)) [
    | some r ↦ record {
      target = target;
      allowed = true;
      reason = "Matched allow rule \"" <> r.pattern <> "\"";
      matched_rule = some r;
      engagement = engagement;
    }
    | none ↦ record {
      target = target;
      allowed = false;
      reason = "No matching allow rule — default deny";
      matched_rule = none;
      engagement = engagement;
    }
  ]
]

-- The prop `onEvaluate`, where it is given, takes the place of the local fallback.
decide :
    Option (String → PolicyDecision) → Option Engagement → List ScopeRule → String → PolicyDecision
unfolding evaluate
decide none engagement rules target = evaluate engagement rules target
decide (some on_evaluate) engagement rules target = on_evaluate target

-- `handleEvaluate`
unfoldable pub handle_evaluate :
    Option (String → PolicyDecision) → Option Engagement → List ScopeRule → Evaluator → Evaluator
unfolding trim decide
handle_evaluate on_evaluate engagement rules e =
    if is_empty (trim e.input)
    then e
    else record e { local_decision = some (decide on_evaluate engagement rules (trim e.input)) }

-- `activeDecision`
unfoldable pub active_decision : Option PolicyDecision → Evaluator → Option PolicyDecision
active_decision decision e = decision <|> e.local_decision
