-- ===== src/Web/ProjectDetail/Forms.antt =====
-- apps/web/src/pages/ProjectDetail.tsx: the forms for a new engagement and a new scope rule.
use morphia.Common.{
  String, Bool, false, Option, none, some, List, [], ◌∷◌, ◌++◌, ◌||◌, trim, is_empty, if◌then◌else◌,
}
use morphia.Common.View.{View, text, button, input}
use morphia.Types.{ScopeRuleType, include}
use morphia.Web.Api.{Outcome}
use morphia.Web.Requests.{QueryKey, failure}

-- `NewEngagementForm`, and whether its mutation is under way.
pub record EngagementForm : Type 0 where
  pub program_name : String
  pub authorization_basis : String
  pub notes : String
  pub is_pending : Bool
  pub error : Option String

pub record EngagementBody : Type 0 where
  pub program_name : String
  pub authorization_basis : String
  pub notes : String

-- `handleSubmit`: the body that is posted, or nothing for a name that is blank.
unfoldable pub submit_engagement : EngagementForm → Option EngagementBody
unfolding trim
submit_engagement f =
    if is_empty (trim f.program_name)
    then none
    else some (record {
      program_name = trim f.program_name;
      authorization_basis = trim f.authorization_basis;
      notes = trim f.notes;
    })

-- What a click in a form asks for.
pub data Click : Type 0 where
  cancel submit : Click

error_text : Option String → View Click
error_text none = []
error_text (some e) = text e ∷ []

unfoldable pub engagement_form : EngagementForm → View Click
unfolding trim error_text
engagement_form f =
    text "New Engagement" ∷ error_text f.error
    ++ (text "Program Name"
        ∷ input f.program_name
        ∷ text "Authorization Basis"
        ∷ input f.authorization_basis
        ∷ text "Notes"
        ∷ input f.notes
        ∷ button "Cancel" false cancel
        ∷ button (if f.is_pending then "Creating..." else "Create Engagement")
            (f.is_pending || is_empty (trim f.program_name)) submit
        ∷ [])

-- `TARGET_TYPES`
unfoldable pub target_types : List String
target_types = "domain" ∷ "ip" ∷ "api" ∷ "repo" ∷ "mobile_app" ∷ "webapp" ∷ []

-- `NewScopeRuleForm`
pub record RuleForm : Type 0 where
  pub rule_type : ScopeRuleType
  pub target_type : String
  pub pattern : String
  pub is_wildcard : Bool
  pub notes : String
  pub is_pending : Bool
  pub error : Option String

-- The first render.
unfoldable pub new_rule : RuleForm
new_rule = record {
  rule_type = include;
  target_type = "domain";
  pattern = "";
  is_wildcard = false;
  notes = "";
  is_pending = false;
  error = none;
}

pub record RuleBody : Type 0 where
  pub rule_type : ScopeRuleType
  pub target_type : String
  pub pattern : String
  pub is_wildcard : Bool
  pub notes : String

-- `handleSubmit`: the body that is posted, or nothing for a pattern that is blank.
unfoldable pub submit_rule : RuleForm → Option RuleBody
unfolding trim
submit_rule f =
    if is_empty (trim f.pattern)
    then none
    else some (record {
      rule_type = f.rule_type;
      target_type = f.target_type;
      pattern = trim f.pattern;
      is_wildcard = f.is_wildcard;
      notes = trim f.notes;
    })

unfoldable pub rule_form : RuleForm → View Click
unfolding trim error_text
rule_form f =
    (text "Rule"
      ∷ text "Target Type"
      ∷ text "Pattern"
      ∷ input f.pattern
      ∷ text "Wildcard"
      ∷ text "Notes"
      ∷ input f.notes
      ∷ error_text f.error)
    ++ (button "Cancel" false cancel
        ∷ button (if f.is_pending then "Adding..." else "Add Rule")
            (f.is_pending || is_empty (trim f.pattern)) submit
        ∷ [])

-- How a mutation of a form ends: the key that is invalidated where it succeeds and the form is closed, or
-- the error that the form shows.
pub data Ending : Type 0 where
  done : (invalidated : QueryKey) → Ending
  failed : (message : String) → Ending

ending : {T : Type 0} → QueryKey → String → Outcome T → Ending
unfolding failure
ending key fallback o = elim (failure fallback o) [
  | none ↦ done key
  | some message ↦ failed message
]

unfoldable pub engagement_ending : {T : Type 0} → (project_id : String) → Outcome T → Ending
unfolding ending
engagement_ending project_id o =
    ending ("engagements" ∷ project_id ∷ []) "Failed to create engagement." o

unfoldable pub rule_ending : {T : Type 0} → (engagement_id : String) → Outcome T → Ending
unfolding ending
rule_ending engagement_id o = ending ("scope" ∷ engagement_id ∷ []) "Failed to add scope rule." o

unfoldable pub run_ending : {T : Type 0} → Outcome T → Ending
unfolding ending
run_ending o = ending ("runs" ∷ []) "Failed to create run." o
