-- ===== src/Web/ApprovalGate/Laws.antt =====
-- apps/web/src/components/ApprovalGate.tsx: what the gate offers, and its error.
use morphia.Common.{
  ℕ, suc, String, ◌≡◌, refl, ◌∙◌, Bool, true, false, not, ◌&&◌, Option, none, List, [], ◌∷◌, null?,
  Bool-cases, inl, inr, arith, if◌then◌else◌, opt_map, ◌or_null◌,
}
use morphia.Common.Json.{Json}
use morphia.Common.View.{View, text, offered, offered-append}
use morphia.Types.{Run, RunPlan, RunPlanStep}
use morphia.Web.Requests.{RunAction, cancel, approve, reject}
use morphia.Web.ApprovalGate.{Gate, plan_rows, request, decision, view, busy, is_approval_state}

plan_rows-offered : (i : ℕ) (ss : List RunPlanStep) → offered (plan_rows i ss) ≡ []
unfolding plan_rows
plan_rows-offered i [] = refl
plan_rows-offered i (s ∷ ss) = plan_rows-offered (suc i) ss

plan-offered :
    (steps : List RunPlanStep)
    → offered (if null? steps then text "No plan steps" ∷ [] else plan_rows 0 steps) ≡ []
plan-offered [] = refl
plan-offered (s ∷ ss) = plan_rows-offered 0 (s ∷ ss)

request-offered :
    (locale : String → String) (run : Run) (engagement : Option String)
    → offered (request locale run engagement) ≡ []
unfolding request
request-offered locale run engagement =
    let steps : List RunPlanStep = opt_map (λ (p : RunPlan). p.steps) run.plan or_null [] in
    let rows : View RunAction =
      if null? steps then text "No plan steps" ∷ [] else plan_rows 0 steps in
    offered-append rows _ ∙ rw (plan-offered steps) refl

decision-offered :
    (g : Gate)
    → offered (decision g) ≡ (
        if not (busy g) then approve g.justification ∷ reject g.justification ∷ cancel ∷ [] else [])
unfolding decision busy
decision-offered g = ground arith

-- The gate offers the three decisions, with the text that stands in its field at that moment, exactly on
-- a run that awaits approval and while no request of its own is under way.
pub view-offered :
    (locale : String → String) (run : Run) (engagement : Option String) (g : Gate)
    → offered (view locale run engagement g) ≡ (
        if is_approval_state run && not (busy g)
        then approve g.justification ∷ reject g.justification ∷ cancel ∷ []
        else [])
unfolding view
view-offered locale run engagement g = elim (Bool-cases (is_approval_state run)) [
  | inl asked ↦ rw asked (
      offered-append (request locale run engagement) (decision g)
      ∙ rw (request-offered locale run engagement) (decision-offered g))
  | inr idle ↦ rw idle refl
]

-- The error that stays where an action succeeds: a cancellation leaves the one of an earlier decision.
abbrev pub kept_error : RunAction → Option String → Option String
kept_error cancel e = e
kept_error a e = none

abbrev pub is_approve : RunAction → Bool
is_approve (approve why) = true
is_approve a = false

abbrev pub is_reject : RunAction → Bool
is_reject (reject why) = true
is_reject a = false

abbrev pub is_cancellation : RunAction → Bool
is_cancellation cancel = true
is_cancellation a = false
