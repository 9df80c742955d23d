-- ===== src/Web/Findings/Laws.antt =====
-- apps/web/src/pages/Findings.tsx: which finding the pane shows, and with what evidence.
use morphia.Common.{
  ◌≤◌, ◌≡◌, refl, Bool, true, Option, none, some, List, [], ◌∷◌, filter, find, length, length-take,
  All, All-filter, All-take, ◌==◌, Bool-cases, inl, inr,
}
use morphia.Types.{Finding, FindingState, EvidenceArtifact}
use morphia.Web.Findings.{Page, filtered, same_state, selected, linked_evidence, is_id}

-- The finding passes the filter.
abbrev pub passes_filter : Option FindingState → Finding → Bool
passes_filter none f = true
passes_filter (some s) f = same_state f.state s

-- The finding, where there is one, passes the test.
abbrev pub Found : (Finding → Type 0) → Option Finding → Type 0
Found P none = Unit
Found P (some f) = P f

find-Found :
    (p : Finding → Bool) (P : Finding → Type 0) (fs : List Finding)
    → All P fs
    → Found (λ f. P f × (p f ≡ true)) (find p fs)
find-Found p P [] h = tt
find-Found p P (f ∷ fs) h = elim (Bool-cases (p f)) [
  | inl here ↦ rw here (h.0, here)
  | inr later ↦ rw later (find-Found p P fs h.1)
]

all_pass : (fs : List Finding) → All (λ (f : Finding). passes_filter none f ≡ true) fs
all_pass [] = tt
all_pass (f ∷ fs) = (refl, all_pass fs)

filtered-passes :
    (fs : List Finding) (o : Option FindingState)
    → All (λ f. passes_filter o f ≡ true) (filtered fs o)
unfolding filtered
filtered-passes fs none = all_pass fs
filtered-passes fs (some s) = All-filter (λ (f : Finding). same_state f.state s) fs

-- The pane shows no finding but one that the list shows, which is in the chosen state, and one that was
-- clicked.
pub selected-Found :
    (fs : List Finding) (s : Page)
    → Found
        (λ f. (passes_filter s.state_filter f ≡ true) × (is_id s.selected_id f.id ≡ true))
        (selected fs s)
unfolding selected
selected-Found fs s =
    find-Found (λ (f : Finding). is_id s.selected_id f.id) _ (filtered fs s.state_filter)
      (filtered-passes fs s.state_filter)

-- What stands there as linked evidence is at most three artifacts of the project of the finding, whether or not
-- they have to do with it.
pub linked_evidence_lem :
    (f : Finding) (es : List EvidenceArtifact)
    → (length (linked_evidence (some f) es) ≤ 3)
      × All
          (λ (e : EvidenceArtifact). (e.project_id == f.project_id) ≡ true)
          (linked_evidence (some f) es)
unfolding linked_evidence
linked_evidence_lem f es = (
  length-take 3 (filter (λ (e : EvidenceArtifact). e.project_id == f.project_id) es),
  All-take _ 3 _ (All-filter (λ (e : EvidenceArtifact). e.project_id == f.project_id) es),
)
