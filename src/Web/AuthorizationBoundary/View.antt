-- ===== src/Web/AuthorizationBoundary/View.antt =====
-- apps/web/src/components/AuthorizationBoundary.tsx: what the component draws.
use morphia.Common.{
  String, false, Option, none, some, List, [], ◌∷◌, ◌++◌, filter, length, null?, opt_map, show,
  ◌<>◌, ◌or_else◌, ◌or_null◌, if◌then◌else◌,
}
use morphia.Common.View.{View, text, button, input, when}
use morphia.Types.{ScopeRule, Engagement, ScopeRuleType, include, exclude}
use morphia.Web.AuthorizationBoundary.{
  PolicyDecision, Evaluator, is_include, is_exclude, active_decision,
}

-- A click on the button, or Enter in the field.
pub data Action : Type 0 where
  evaluate : Action

rule_type_name : ScopeRuleType → String
rule_type_name include = "include"
rule_type_name exclude = "exclude"

matched : Option ScopeRule → View Action
unfolding rule_type_name
matched none = []
matched (some r) =
    text (
      "Matched rule: "
      <> r.pattern
      <> " · "
      <> rule_type_name r.rule_type
      <> " · "
      <> r.target_type)
    ∷ []

basis : Option Engagement → View Action
basis none = []
basis (some e) =
    text ("Authorization basis: " <> (e.authorization_basis or_else e.program_name)) ∷ []

-- The card of a decision.
unfoldable pub decision_card : Option PolicyDecision → View Action
unfolding matched basis
decision_card none = []
decision_card (some d) =
    (text (if d.allowed then "✓" else "✕")
      ∷ text ("POLICY DECISION — " <> (if d.allowed then "ALLOW" else "DENY"))
      ∷ text ("Target: “" <> d.target <> "”")
      ∷ text (if d.allowed then "EXECUTION PERMITTED" else "EXECUTION PREVENTED")
      ∷ text "EVALUATION"
      ∷ text d.reason
      ∷ matched d.matched_rule)
    ++ basis d.engagement
    ++ (text "ENFORCEMENT LAYERS"
        ∷ text "API scope validation"
        ∷ text (if d.allowed then "PASS" else "BLOCKED")
        ∷ text "Worker revalidation"
        ∷ text (if d.allowed then "PASS" else "BLOCKED")
        ∷ text "Execution"
        ∷ text (if d.allowed then "PERMITTED" else "PREVENTED")
        ∷ text "Dual validation · independent checks · reason recorded · audit event emitted"
        ∷ [])

allow_rows : List ScopeRule → View Action
allow_rows [] = []
allow_rows (r ∷ rs) =
    (text r.pattern ∷ text r.target_type ∷ when r.is_wildcard (text "wildcard" ∷ []))
    ++ text "ALLOW" ∷ allow_rows rs

deny_rows : List ScopeRule → View Action
deny_rows [] = []
deny_rows (r ∷ rs) = text r.pattern ∷ text r.target_type ∷ text "DENY" ∷ deny_rows rs

engagement_line : Option Engagement → View Action
engagement_line none = []
engagement_line (some e) =
    text (
      "Engagement: "
      <> e.program_name
      <> " · Authorization: "
      <> (e.authorization_basis or_else "—")
      <> " · Status: "
      <> e.status)
    ∷ []

-- The two tables of rules.
unfoldable pub rule_tables : Option Engagement → List ScopeRule → View Action
unfolding allow_rows deny_rows show
rule_tables engagement rules =
    let allowed : List ScopeRule = filter is_include rules in
    let denied : List ScopeRule = filter is_exclude rules in
    (text ("AUTHORIZED — " <> show (length allowed))
      ∷ text (opt_map (λ (e : Engagement). e.program_name) engagement or_null "engagement scope")
      ∷ (if null? allowed then text "No allow rules" ∷ [] else allow_rows allowed))
    ++ text ("EXCLUDED / DENIED — " <> show (length denied))
      ∷ text "explicit exclusions"
      ∷ (if null? denied then text "No exclusions" ∷ [] else deny_rows denied)

-- The component.
unfoldable pub view :
    Option Engagement → List ScopeRule → Option PolicyDecision → Evaluator → View Action
unfolding decision_card rule_tables engagement_line active_decision
view engagement rules decision e =
    (text "POLICY EVALUATOR — TRY A TARGET"
      ∷ input e.input
      ∷ button "Evaluate" false evaluate
      ∷ text "Checks engagement scope table · default-deny · independent worker revalidation"
      ∷ decision_card (active_decision decision e))
    ++ rule_tables engagement rules
    ++ engagement_line engagement
