-- ===== src/Web/EvidenceProvenance.antt =====
-- apps/web/src/components/EvidenceProvenance.tsx: where each artifact of evidence comes from.
pub mod Laws
use morphia.Common.{
  ℕ, ◌+◌, ◌-◌, ◌*◌, ◌/◌, ◌%◌, String, Bool, true, false, not, ◌||◌, Option, none, some, List, [],
  ◌∷◌, ◌++◌, find, null?, size, prefix, suffix, show, is_empty, is_some, opt_map, opt_bind, ◌==◌,
  ◌<>◌, ◌or_else◌, ◌or_null◌, if◌then◌else◌,
}
use morphia.Common.View.{View, text, button, when}
use morphia.Types.{
  EvidenceArtifact, Finding, VerificationStatus, unreviewed, source_captured, integrity_verified,
  manually_reproduced, contradicted, inconclusive, rejected,
}

-- `truncateHash`
unfoldable pub truncate_hash : String → String
truncate_hash h = if is_empty h then "—" else prefix 12 h <> ("…" <> suffix (size h - 8) h)

-- `abbreviateId`, and what stands for an id that is missing or empty
unfoldable pub abbreviate_id : String → String
abbreviate_id id = prefix 8 id

id_or : Option String → String → String
unfolding abbreviate_id
id_or none d = d
id_or (some id) d = if is_empty id then d else abbreviate_id id

unfoldable pub status_name : VerificationStatus → String
status_name unreviewed = "unreviewed"
status_name source_captured = "source_captured"
status_name integrity_verified = "integrity_verified"
status_name manually_reproduced = "manually_reproduced"
status_name contradicted = "contradicted"
status_name inconclusive = "inconclusive"
status_name rejected = "rejected"

-- `(n / 1024).toFixed(1)`: tenths, a half rounded up; the quotient is exact in floating point.
unfoldable pub kilobytes : ℕ → String
unfolding show
kilobytes n =
    let tenths : ℕ = (n * 10 + 512) / 1024 in show (tenths / 10) <> ("." <> show (tenths % 10))

-- `linkedFinding`
unfoldable pub linked_finding : EvidenceArtifact → Option (List Finding) → Option Finding
linked_finding e findings =
    opt_bind findings
      (λ fs. find (λ (f : Finding). f.id == e.id || f.affected_scope == e.storage_path) fs)

-- The line of descent above an artifact.
unfoldable pub lineage : EvidenceArtifact → View String
unfolding id_or truncate_hash status_name
lineage e =
    text "run"
    ∷ text (id_or e.run_id "—")
    ∷ text "step"
    ∷ text (id_or e.run_step_id "—")
    ∷ text "artifact"
    ∷ text e.original_filename
    ∷ text "hash"
    ∷ text (truncate_hash e.sha256_digest)
    ∷ text (status_name e.verification_status)
    ∷ []

finding_line : Option Finding → View String
finding_line none = []
finding_line (some f) = text "Finding" ∷ text (prefix 24 f.title) ∷ []

-- An artifact; an action is the text that a button copies, and `can_copy` says whether `onCopy` is given.
-- The button beside the id is there in any case.
unfoldable pub artifact :
    (locale : String → String) (can_copy : Bool)
    → EvidenceArtifact
    → Option (List Finding)
    → View String
unfolding lineage kilobytes abbreviate_id id_or status_name finding_line linked_finding
artifact locale can_copy e findings =
    lineage e
    ++ (text e.original_filename
        ∷ text e.content_type
        ∷ text (kilobytes e.file_size <> " KB")
        ∷ text "SHA-256"
        ∷ text e.sha256_digest
        ∷ when can_copy (button "Copy" false e.sha256_digest ∷ []))
    ++ (text "VERIFIED"
        ∷ text "Evidence ID"
        ∷ text (abbreviate_id e.id)
        ∷ button "copy" false e.id
        ∷ text "Captured"
        ∷ text (locale e.created_at)
        ∷ text "Source"
        ∷ text (e.source or_else "worker capture")
        ∷ text "Sensitivity"
        ∷ text (e.sensitivity or_else "—")
        ∷ text "PROVENANCE"
        ∷ text "Originating run"
        ∷ text (id_or e.run_id "seeded demo")
        ∷ text "Step"
        ∷ text (id_or e.run_step_id "—")
        ∷ text "Integrity"
        ∷ text "SHA-256 recorded"
        ∷ text "Verification"
        ∷ text (status_name e.verification_status)
        ∷ finding_line (linked_finding e findings))
    ++ when (not (is_empty e.notes)) (text e.notes ∷ [])

artifacts :
    (locale : String → String) (can_copy : Bool)
    → List EvidenceArtifact
    → Option (List Finding)
    → View String
unfolding artifact
artifacts locale can_copy [] findings = []
artifacts locale can_copy (e ∷ es) findings =
    artifact locale can_copy e findings ++ artifacts locale can_copy es findings

-- The component.
unfoldable pub view :
    (locale : String → String) (can_copy : Bool)
    → List EvidenceArtifact
    → Option (List Finding)
    → View String
unfolding artifacts
view locale can_copy evidence findings =
    if null? evidence
    then text "NO EVIDENCE YET"
      ∷ text
          "Evidence appears here after an approved execution produces an artifact. Each artifact is SHA-256 hashed at capture with immutable provenance."
      ∷ []
    else text "RUN → STEP → ARTIFACT → HASH → VERIFICATION → FINDING → REPORT"
      ∷ artifacts locale can_copy evidence findings
