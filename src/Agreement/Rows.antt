-- ===== src/Agreement/Rows.antt =====
-- apps/web/src/pages/Runs.tsx against apps/api/app/routers/runs.py: the buttons of a row and what the server
-- makes of the requests behind them.
use morphia.Common.{String, Bool, true, not, ◌&&◌, ◌||◌}
use morphia.RunState.{RunState}
use morphia.Types.{terminal_states, cancellable_states}
use morphia.Types
use morphia.Server.States
use morphia.Server.Store.{User, Store}
use morphia.Server.Runs.Calls.{handle}
use morphia.Web.Runs.{to_cancel, to_approve, to_reject, Click, toggle, open_dialog, request}
use morphia.Agreement.{to_call, is_accepted}
use morphia.Agreement.Controls.{is_justified, is_within, takes}

-- The server takes the request behind a click, with the text that stands in the dialog; a decision
-- takes one of at most 2000 characters, and for the user who created the run, `own`, an approval needs a
-- justification too.
unfoldable pub row_takes : (own : Bool) (why : String) → Click → Bool
row_takes own why toggle = true
row_takes own why (open_dialog to_cancel) = true
row_takes own why (open_dialog to_approve) = is_within why && (not own || is_justified why)
row_takes own why (open_dialog to_reject) = is_within why && is_justified why

-- The request that a click leads to.
unfoldable pub accepted_click : (redis_up : Bool) (id why : String) → User → Store → Click → Bool
accepted_click redis_up id why user db toggle = true
accepted_click redis_up id why user db (open_dialog d) =
    is_accepted (handle (to_call redis_up id (request d why)) user db)

takes_click : RunState → (own : Bool) (why : String) → Click → Bool
takes_click s own why toggle = true
takes_click s own why (open_dialog d) = takes s own (request d why)
