-- ===== src/Web/ProjectDetail/Rows.antt =====
-- apps/web/src/pages/ProjectDetail.tsx: the states of the rows of runs and of scope rules. The row of a run has the
-- mutations and dialogs of the row in pages/Runs.tsx.
use morphia.Common.{String, Bool, true, false, Option, none, some, List, [], ◌∷◌, ◌++◌, ◌<>◌}
use morphia.Common.Json.{Json}
use morphia.Types.{ScopeRule}
use morphia.Web.Api.{Outcome}
use morphia.Web.Requests.{RunAction, QueryKey, failure}
use morphia.Web.ConfirmDialog.{Answer, confirm, cancel}
use morphia.Web.Runs.{Decision, Mutation, pending, success, error, Row, answer, settled}

-- What an answer of a dialog of a run's row asks for, with the row then, and how its request ends.
unfoldable pub run_answered : Decision → Answer → Row → Option RunAction × Row
unfolding answer
run_answered d a row = answer d a row

unfoldable pub run_settled : Decision → Outcome Json → Row → Row
unfolding settled
run_settled d o row = settled d o row

-- `ScopeRuleRow`, and the keys that it has invalidated, the latest last.
pub record RuleRow : Type 0 where
  pub confirm_open : Bool
  pub mutation : Mutation
  pub invalidated : List QueryKey

-- The path that is deleted.
unfoldable pub rule_path : ScopeRule → String
rule_path r = "/api/v1/scope/" <> r.id

unfoldable pub rule_opened : RuleRow → RuleRow
rule_opened row = record row { confirm_open = true }

-- The answer of the dialog: what is deleted, and the row then.
unfoldable pub rule_answered : ScopeRule → Answer → RuleRow → Option String × RuleRow
unfolding rule_path
rule_answered r confirm row = (some (rule_path r), record row { mutation = pending })
rule_answered r cancel row = (none, record row { confirm_open = false })

unfoldable pub rule_settled : (engagement_id : String) → Outcome Json → RuleRow → RuleRow
unfolding failure
rule_settled engagement_id o row = elim (failure "Failed to remove rule." o) [
  | none ↦ record {
    confirm_open = false;
    mutation = success;
    invalidated = row.invalidated ++ ("scope" ∷ engagement_id ∷ []) ∷ [];
  }
  | some message ↦ record row { mutation = error message }
]
