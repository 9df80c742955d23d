-- ===== src/Web/Dashboard/Laws.antt =====
-- apps/web/src/pages/Dashboard.tsx: which finding and which runs the overview shows.
use morphia.Common.{
  ◌≤◌, ◌≡◌, refl, Bool, true, false, not, Option, none, some, List, [], ◌∷◌, any, find, length,
  null?, is_some, arith, ◌<|>◌, if◌then◌else◌, Bool-cases, inl, inr,
}
use morphia.Types.{Run, Finding}
use morphia.Web.Dashboard.{pending, active, is_verified, latest_finding}
use morphia.Web.Operations.{pending_approvals, active_runs}

-- The finding, where there is one, is verified.
abbrev pub shows_verified : Option Finding → Bool
shows_verified none = false
shows_verified (some f) = is_verified f

find-shows : (fs : List Finding) → shows_verified (find is_verified fs) ≡ any is_verified fs
find-shows [] = refl
find-shows (f ∷ fs) = elim (Bool-cases (is_verified f)) [
  | inl here ↦ rw here here
  | inr later ↦ rw later (find-shows fs)
]

find-none : (fs : List Finding) → is_some (find is_verified fs) ≡ any is_verified fs
find-none [] = refl
find-none (f ∷ fs) = ground (arith, find-none fs)

or-shows :
    (o : Option Finding) (f : Finding)
    → shows_verified (o <|> some f) ≡ (if is_some o then shows_verified o else is_verified f)
or-shows none f = refl
or-shows (some g) f = refl

or-is_some : (o : Option Finding) (f : Finding) → is_some (o <|> some f) ≡ true
or-is_some none f = refl
or-is_some (some g) f = refl

-- The finding under LATEST VERIFIED FINDING is verified exactly where some finding is, and there is one exactly
-- where there is any finding at all.
pub latest_finding_lem :
    (fs : List Finding)
    → (shows_verified (latest_finding fs) ≡ any is_verified fs)
      × (is_some (latest_finding fs) ≡ not (null? fs))
unfolding latest_finding
latest_finding_lem [] = (refl, refl)
latest_finding_lem (f ∷ fs) = elim (Bool-cases (is_verified f)) [
  | inl here ↦ rw here (here, refl)
  | inr later ↦ rw later (
      ground (
        arith,
        or-shows (find is_verified fs) f,
        find-shows fs,
        find-none fs,
        or-is_some (find is_verified fs) f,
      ))
]

active_le : (runs : List Run) → length (active runs) ≤ length (active_runs runs)
unfolding active active_runs
active_le [] = omega arith
active_le (r ∷ rs) = ground (arith, active_le rs)

-- The overview counts as pending just those runs that the command center does, and as active at most those.
pub dashboard_agrees :
    (runs : List Run)
    → (pending runs ≡ pending_approvals runs) × (length (active runs) ≤ length (active_runs runs))
unfolding pending pending_approvals active active_runs
dashboard_agrees runs = (refl, active_le runs)
