-- ===== src/Agreement/Decisions.antt =====
-- apps/web/src/pages/Approvals.tsx against apps/api/app/routers/runs.py: the decisions that the page offers.
use morphia.Common.{◌≡◌}
use morphia.RunState.{RunState}
use morphia.Types
use morphia.Server.States
use morphia.Server.Store.{User, Run, Store, ok}
use morphia.Server.Runs.{get_owned_run}

-- The rows that the page was drawn from are the user's and still in the state that the page has.
abbrev pub UpToDate : User → Store → Types.Run → Type 0
UpToDate user db run =
    (row : Run) × (get_owned_run run.id user db ≡ ok row) × (row.state ≡ run.state)
