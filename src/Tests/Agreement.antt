-- ===== src/Tests/Agreement.antt =====
-- The web client's pages on a run of the signed-in user's, against the server's routes.
use morphia.Common.{String, ◌≡◌, refl, true, false, none, List, [], ◌∷◌, ◌++◌, All, any}
use morphia.Common.View.{offered}
use morphia.RunState.{RunState, awaiting_plan_approval, queued, running, has, paused}
use morphia.Types
use morphia.Contracts
use morphia.Server.States
use morphia.Server.Runs.Calls.{handle}
use morphia.Web.RunDetail.{Page, controls}
use morphia.Web.ApprovalGate.{Gate, view, busy}
use morphia.Agreement.{to_call, is_accepted, copies_agree}
use morphia.Agreement.Controls.{controls_accepted}
use morphia.Agreement.Gate.{cancel_offered, is_cancel}
use morphia.Web.ProjectDetail.RunForm.{RunForm, new_run}
use morphia.Tests.Server.{owner, row, db, why, got}

abbrev pub run : RunState → Types.Run
run s = record {
  id = "r1";
  project_id = "p1";
  engagement_id = none;
  state = s;
  title = "Scan";
  plan = none;
  agent_profile = none;
  failure_reason = "";
  created_by = "u1";
  created_at = "2026-08-01T14:22:00Z";
  updated_at = "2026-08-01T14:22:00Z";
}

abbrev page : Page
page = record { action_error = none; prev_state = none; invalidated = [] }

abbrev pub gate : Gate
gate = record {
  justification = why;
  error = none;
  approving = false;
  rejecting = false;
  cancelling = false;
  invalidated = [];
  decided = 0;
}

abbrev pub iso : String → String
iso s = s

copies_agree_example :
    (Contracts.legal_transitions paused ≡ States.legal_transitions paused)
    × (Types.legal_transitions paused ≡ States.legal_transitions paused)
    × (Contracts.cancellable_states ≡ States.cancellable_states)
    × (Types.cancellable_states ≡ States.cancellable_states)
    × (Contracts.approval_states ≡ States.approval_states)
    × (Types.approval_states ≡ States.approval_states)
    × (Contracts.terminal_states ≡ States.terminal_states)
    × (Types.terminal_states ≡ States.terminal_states)
    × (Contracts.run_states ≡ States.run_states)
    × (Types.run_states ≡ States.run_states)
copies_agree_example = copies_agree paused

controls_accepted_example :
    All
      (λ a. is_accepted (handle (to_call true "r1" a) owner (db paused)) ≡ true)
      (offered (controls false (run paused) page))
controls_accepted_example =
    controls_accepted true owner (db paused) (row paused) (run paused) page (got paused) refl

cancel_offered_example :
    any is_cancel
      (offered (controls false (run queued) page) ++ offered (view iso (run queued) none gate))
    ≡ has Contracts.cancellable_states queued
unfolding busy
cancel_offered_example = cancel_offered iso (run queued) none page gate refl

abbrev listed_runs : List Types.Run
listed_runs = run awaiting_plan_approval ∷ run running ∷ []

abbrev new_form : RunForm
new_form = record new_run { target = "https://example.com"; title = "Headers" }
