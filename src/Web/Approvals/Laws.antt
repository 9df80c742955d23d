-- ===== src/Web/Approvals/Laws.antt =====
-- apps/web/src/pages/Approvals.tsx: what the page offers.
use morphia.Common.{String, ◌≡◌, refl, List, [], ◌∷◌}
use morphia.Common.View.{offered}
use morphia.Types.{Run, Project}
use morphia.Web.Approvals.{
  to_approve, to_reject, pending_runs, data_of, Click, on_card, cards, listed, view,
}

-- The two decisions on each of the runs, in their order.
abbrev pub decisions : List Run → List Click
decisions [] = []
decisions (r ∷ rs) = on_card r.id to_approve ∷ on_card r.id to_reject ∷ decisions rs

cards-offered :
    (locale : String → String) (projects : List Project) (runs : List Run)
    → offered (cards locale projects runs) ≡ decisions runs
unfolding cards
cards-offered locale projects [] = refl
cards-offered locale projects (r ∷ rs) = rw (cards-offered locale projects rs) refl

listed-offered :
    (locale : String → String) (projects : List Project) (runs : List Run)
    → offered (listed locale projects runs) ≡ decisions runs
unfolding listed
listed-offered locale projects [] = refl
listed-offered locale projects (r ∷ rs) = cards-offered locale projects (r ∷ rs)

-- Once the runs are there, the page offers an approval and a rejection of each run that awaits a decision,
-- in the order of the list, and nothing on any other run.
pub view-decisions :
    (locale : String → String) (projects : List Project) (runs : List Run)
    → offered (view locale projects (data_of runs)) ≡ decisions (pending_runs runs)
unfolding view
view-decisions locale projects runs = listed-offered locale projects (pending_runs runs)
