-- ===== src/Tests/Server.antt =====
-- apps/api/app/routers/runs.py on a run of one user's.
use morphia.Common.{String, ◌≡◌, refl, true, none, List, [], ◌∷◌}
use morphia.RunState.{RunState, draft, planning, awaiting_plan_approval, queued}
use morphia.Server.Store.{
  User, Project, Run, Store, Result, ok, http_exception, select_run, select_project,
}
use morphia.Server.Runs.{get_owned_run, owns, grant}
use morphia.Server.Runs.Calls.{Call, create, transition, approve}

abbrev pub owner : User
owner = record { id = "u1" }

abbrev pub project : Project
project = record { id = "p1"; owner_id = "u1" }

abbrev pub row : RunState → Run
row s = record {
  id = "r1";
  project_id = "p1";
  state = s;
  title = "Scan";
  engagement_id = none;
  plan = none;
  agent_profile = none;
  failure_reason = "";
  created_by = "u1";
}

abbrev pub db : RunState → Store
db s = record {
  projects = project ∷ [];
  engagements = [];
  runs = row s ∷ [];
  events = [];
  approvals = [];
  audit = [];
  jobs = [];
}

abbrev pub why : String
why = "In scope, passive only"

pub got : (s : RunState) → get_owned_run "r1" owner (db s) ≡ ok (row s)
unfolding get_owned_run select_run select_project owns
got s = refl

abbrev out : Result (Run × Store) → Run × Store
out (ok p) = p
out (http_exception c d) = (row draft, db draft)

abbrev calls : List (User × Call)
calls =
    (owner, create "r1" "p1" "Scan" none none none)
    ∷ (owner, transition "r1" planning "")
    ∷ (owner, transition "r1" awaiting_plan_approval "")
    ∷ (owner, approve true "r1" why)
    ∷ []

abbrev approved : Run × Store
approved =
    grant true "plan" queued why (row awaiting_plan_approval) owner (db awaiting_plan_approval)
