-- ===== src/Web/RunDetail/Panels.antt =====
-- apps/web/src/pages/RunDetail.tsx: the panels below the controls.
use morphia.Common.{
  ℕ, suc, ◌+◌, String, not, ◌&&◌, Option, none, some, List, [], ◌∷◌, ◌++◌, ◌<>◌, ◌or_null◌, opt_map,
  length, null?, nat_eq, is_empty, prefix, show, if◌then◌else◌,
}
use morphia.Common.Json.{Json, get_non_null, print}
use morphia.Common.View.{View, text, when}
use morphia.Types.{Run, RunPlan, RunPlanStep, RunStep, RunEvent, EvidenceArtifact}
use morphia.Web.Requests.{RunAction}
use morphia.Web.RunDetail.{run_evidence}
use morphia.Web.EvidenceProvenance.{status_name}

plural : ℕ → String → String
unfolding show
plural n word = show n <> " " <> word <> (if nat_eq n 1 then "" else "S")

unfoldable pub plan_rows : ℕ → List RunPlanStep → View RunAction
unfolding show
plan_rows i [] = []
plan_rows i (s ∷ ss) =
    text ("#" <> show (i + 1))
    ∷ text s.action
    ∷ text ("→ " <> s.target)
    ∷ text s.prompt
    ∷ plan_rows (suc i) ss

-- The plan.
unfoldable pub plan_panel : Run → View RunAction
unfolding plural plan_rows
plan_panel run =
    let steps : List RunPlanStep = opt_map (λ (p : RunPlan). p.steps) run.plan or_null [] in
    text ("PLAN — " <> plural (length steps) "STEP")
    ∷ (if null? steps then text "No plan attached" ∷ [] else plan_rows 0 steps)

-- `v != null && …`
shown_value : (String → String) → Option Json → View RunAction
shown_value f none = []
shown_value f (some v) = text (f (print v)) ∷ []

unfoldable pub step_rows : List RunStep → View RunAction
unfolding shown_value show
step_rows [] = []
step_rows (s ∷ ss) =
    (text ("#" <> show s.step_number) ∷ text s.action ∷ text s.status ∷ [])
    ++ shown_value (λ v. v) (get_non_null s.output_data "response")
    ++ when (not (is_empty s.error)) (text s.error ∷ [])
    ++ step_rows ss

-- The results of the steps.
unfoldable pub step_panel : List RunStep → View RunAction
unfolding step_rows
step_panel steps =
    text "STEP RESULTS — WORKER OUTPUT"
    ∷ (if null? steps
        then text "No steps executed yet. Steps appear after approval and worker execution." ∷ []
        else step_rows steps)

unfoldable pub evidence_rows : List EvidenceArtifact → View RunAction
unfolding status_name
evidence_rows [] = []
evidence_rows (e ∷ es) =
    text e.original_filename
    ∷ text ("sha256:" <> prefix 12 e.sha256_digest <> "…")
    ∷ text (status_name e.verification_status)
    ∷ evidence_rows es

-- The evidence of the run, where there is any; `es` is the evidence of all runs.
unfoldable pub evidence_panel : Run → List EvidenceArtifact → View RunAction
unfolding plural evidence_rows run_evidence
evidence_panel run es =
    let own : List EvidenceArtifact = run_evidence run es in
    when (not (null? own))
      (text ("EVIDENCE — " <> plural (length own) "ARTIFACT") ∷ evidence_rows own)

moved : Option String → Option String → View RunAction
moved (some a) (some b) = when (not (is_empty a) && not (is_empty b)) (text (a <> " → " <> b) ∷ [])
moved _ _ = []

unfoldable pub event_rows : (locale : String → String) → List RunEvent → View RunAction
unfolding moved shown_value
event_rows locale [] = []
event_rows locale (ev ∷ evs) =
    (text (locale ev.created_at) ∷ text ev.event_type ∷ moved ev.from_state ev.to_state)
    ++ text (ev.actor_id or_null "") ∷ shown_value (λ v. v) (get_non_null ev.payload "reason")
    ++ shown_value (λ v. "“" <> v <> "”") (get_non_null ev.payload "justification")
    ++ event_rows locale evs

-- The timeline.
unfoldable pub event_panel : (locale : String → String) → List RunEvent → View RunAction
unfolding event_rows
event_panel locale events =
    text "EVENT TIMELINE — AUDIT TRAIL" ∷ event_rows locale events
    ++ when (null? events) (text "No events yet" ∷ [])
