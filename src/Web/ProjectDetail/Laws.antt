-- ===== src/Web/ProjectDetail/Laws.antt =====
-- apps/web/src/pages/ProjectDetail.tsx: what the forms post and what the rows of runs offer.
use morphia.Common.{
  String, ◌≡◌, refl, false, not, arith, trim, is_empty, is_empty-append, is_some, ◌or_else◌,
}
use morphia.Common.View.{offered}
use morphia.Types.{Run, cancellable_states, approval_states, terminal_states}
use morphia.Web.Runs.{row_controls}
use morphia.Web.ProjectDetail.RunForm.{RunForm, new_run_step, new_run_body, submit_run}
use morphia.Web.ProjectDetail.Tabs.{run_controls}

is_empty-or_else : (s d : String) → is_empty d ≡ false → is_empty (s or_else d) ≡ false
is_empty-or_else s d filled = ground (arith, filled)

-- The form for a new run posts something exactly where the target is not blank, and then no text of the step
-- nor the title is empty, however the other fields were left.
pub submit_run-filled :
    (f : RunForm)
    → (is_some (submit_run f) ≡ not (is_empty (trim f.target)))
      × (is_empty (new_run_step f).action ≡ false)
      × (is_empty (new_run_step f).prompt ≡ false)
      × (is_empty (new_run_body f).title ≡ false)
unfolding submit_run new_run_step new_run_body
submit_run-filled f = (
  ground arith,
  is_empty-or_else (trim f.action) "http_header_review" refl,
  is_empty-or_else (trim f.prompt) _ (is_empty-append _ _ refl),
  is_empty-or_else (trim f.title) _ (is_empty-append _ _ refl),
)

-- The row of a run on the page of its project offers what its row in the list of all runs does.
pub run_controls_agree : (run : Run) → offered (run_controls run) ≡ offered (row_controls run)
unfolding run_controls row_controls approval_states cancellable_states terminal_states
run_controls_agree run = ground arith
