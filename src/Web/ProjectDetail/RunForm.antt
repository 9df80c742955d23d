-- ===== src/Web/ProjectDetail/RunForm.antt =====
-- apps/web/src/pages/ProjectDetail.tsx: the form for a new run.
use morphia.Common.{
  String, Bool, false, Option, none, some, List, [], ◌∷◌, ◌++◌, ◌||◌, null?, trim, is_empty, ◌<>◌,
  ◌or_else◌, if◌then◌else◌,
}
use morphia.Common.View.{View, text, button, input, when}
use morphia.Types.{Engagement, RunPlan, RunPlanStep}
use morphia.Web.ProjectDetail.Forms.{Click, cancel, submit}

-- `NewRunForm`
pub record RunForm : Type 0 where
  pub title : String
  pub agent_profile : String
  pub engagement_id : String
  pub action : String
  pub target : String
  pub prompt : String
  pub is_pending : Bool
  pub error : Option String

-- The first render.
unfoldable pub new_run : RunForm
new_run = record {
  title = "";
  agent_profile = "passive_recon";
  engagement_id = "";
  action = "http_header_review";
  target = "";
  prompt = "";
  is_pending = false;
  error = none;
}

pub record NewRunBody : Type 0 where
  pub title : String
  pub agent_profile : Option String
  pub engagement_id : Option String
  pub plan : RunPlan

-- `s || null`
or_null : String → Option String
or_null s = if is_empty s then none else some s

unfoldable pub new_run_step : RunForm → RunPlanStep
unfolding trim
new_run_step f = record {
  action = trim f.action or_else "http_header_review";
  target = trim f.target;
  prompt =
      trim f.prompt
      or_else "Review the HTTP response of "
        <> trim f.target
        <> " for hardening concerns. Passive only.";
}

unfoldable pub new_run_body : RunForm → NewRunBody
unfolding trim or_null new_run_step
new_run_body f = record {
  title = trim f.title or_else "Review of " <> trim f.target;
  agent_profile = or_null (trim f.agent_profile);
  engagement_id = or_null f.engagement_id;
  plan = record { steps = new_run_step f ∷ [] };
}

-- `handleSubmit`: the body that is posted, or nothing for a target that is blank.
unfoldable pub submit_run : RunForm → Option NewRunBody
unfolding trim new_run_body
submit_run f = if is_empty (trim f.target) then none else some (new_run_body f)

error_text : Option String → View Click
error_text none = []
error_text (some e) = text e ∷ []

unfoldable pub run_form : List Engagement → RunForm → View Click
unfolding trim error_text
run_form engagements f =
    text "New Run" ∷ error_text f.error
    ++ when (null? engagements) (
        text
          "This project has no engagement yet. A run needs an engagement so its target can be scope-checked — create one on the Engagements tab first."
        ∷ [])
    ++ (text "Title"
        ∷ input f.title
        ∷ text "Engagement"
        ∷ text "Agent profile"
        ∷ input f.agent_profile
        ∷ text "Step action"
        ∷ input f.action
        ∷ text "Step target (must be inside the engagement scope)"
        ∷ input f.target
        ∷ text "Step prompt"
        ∷ input f.prompt
        ∷ button "Cancel" false cancel
        ∷ button (if f.is_pending then "Creating..." else "Create Run")
            (f.is_pending || is_empty (trim f.target)) submit
        ∷ [])
