-- ===== src/Agreement/Gate.antt =====
-- apps/web/src/components/ApprovalGate.tsx against apps/api/app/routers/runs.py: which decisions of the
-- gate the server takes.
use morphia.Common.{String, ◌≡◌, Bool, true, false, Option, ◌++◌, any, arith}
use morphia.Common.View.{offered}
use morphia.RunState.{RunState, has}
use morphia.Types
use morphia.Server.Store.{Run, Store}
use morphia.Web.Requests.{RunAction, cancel}
use morphia.Web.RunDetail.{Page, controls}
use morphia.Web.ApprovalGate.{Gate, view, busy, is_approval_state}
use morphia.Web.ApprovalGate.Laws.{view-offered}
use morphia.Contracts
use morphia.Agreement.Controls.{actions_of, offered-controls}

abbrev pub is_cancel : RunAction → Bool
is_cancel cancel = true
is_cancel a = false

-- While nothing is under way, the page of a run offers its cancellation, on the panel of controls or
-- on the gate, exactly in the states that the contracts package calls cancellable.
pub cancel_offered :
    (locale : String → String) (run : Types.Run) (engagement : Option String) (page : Page)
    (g : Gate)
    → busy g ≡ false
    → any is_cancel (offered (controls false run page) ++ offered (view locale run engagement g))
      ≡ has Contracts.cancellable_states run.state
unfolding Contracts.cancellable_states actions_of is_approval_state
cancel_offered locale run engagement page g idle =
    rw (offered-controls run page, view-offered locale run engagement g, idle) (ground arith)
