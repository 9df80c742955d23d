-- ===== src/Web/Evidence.antt =====
-- apps/web/src/pages/Evidence.tsx: the artifacts of evidence, by provenance or as a table.
use morphia.Common.{
  ℕ, ◌+◌, ◌-◌, ◌*◌, ◌/◌, ◌%◌, String, Bool, true, false, not, ◌&&◌, Option, none, some, List, [],
  ◌∷◌, ◌++◌, filter, null?, length, prefix, suffix, size, is_empty, is_some, ltb, leb, nat_eq, show,
  opt_map, ◌==◌, ◌<>◌, ◌or_else◌, ◌or_null◌, if◌then◌else◌,
}
use morphia.Common.View.{embed, View, text, button, input, when}
use morphia.Types.{
  EvidenceArtifact, Finding, VerificationStatus, unreviewed, source_captured, integrity_verified,
  manually_reproduced, contradicted, inconclusive,
}
use morphia.Web.EvidenceProvenance
use morphia.Web.EvidenceProvenance.{status_name}
use morphia.Web.ListStates.{Query, query_error, empty_state}

-- `statusLabel`
status_label : VerificationStatus → String
status_label unreviewed = "Unreviewed"
status_label source_captured = "Source Captured"
status_label integrity_verified = "Integrity Verified"
status_label manually_reproduced = "Manually Reproduced"
status_label contradicted = "Contradicted"
status_label inconclusive = "Inconclusive"
status_label VerificationStatus.rejected = "Rejected"

-- `truncateHash` of this page
unfoldable pub truncate_hash : String → String
truncate_hash h =
    if is_empty h
    then "—"
    else if leb (size h) 16
    then h
    else prefix 10 h <> ("…" <> suffix (size h - 6) h)

-- `x.toFixed(1)` for x = n / unit, exact in floating point: tenths, a half rounded up.
to_fixed : (n unit : ℕ) → String
unfolding show
to_fixed n unit =
    let tenths : ℕ = (n * 20 + unit) / (2 * unit) in
    show (tenths / 10) <> ("." <> show (tenths % 10))

-- `formatBytes`
unfoldable pub format_bytes : ℕ → String
unfolding to_fixed show
format_bytes n =
    if ltb n 1024
    then show n <> " B"
    else if ltb n 1048576
    then to_fixed n 1024 <> " KB"
    else to_fixed n 1048576 <> " MB"

pub data Layout : Type 0 where
  provenance table : Layout

-- `Evidence`; no status stands for "all".
pub record Page : Type 0 where
  pub status_filter : Option VerificationStatus
  pub layout : Layout

unfoldable pub initial : Page
initial = record { status_filter = none; layout = provenance }

same_status : VerificationStatus → VerificationStatus → Bool
unfolding status_name
same_status s t = status_name s == status_name t

-- `filtered`
unfoldable pub filtered : List EvidenceArtifact → Option VerificationStatus → List EvidenceArtifact
unfolding same_status
filtered items none = items
filtered items (some s) =
    filter (λ (e : EvidenceArtifact). same_status e.verification_status s) items

pub data Click : Type 0 where
  set_layout : Layout → Click
  set_status_filter : Option VerificationStatus → Click
  copy : String → Click
  retry : Click

unfoldable pub clicked : Click → Page → Page
clicked (set_layout l) s = record s { layout = l }
clicked (set_status_filter f) s = record s { status_filter = f }
clicked (copy t) s = s
clicked retry s = s

table_rows : (date : String → String) → List EvidenceArtifact → View Click
unfolding format_bytes truncate_hash status_label
table_rows date [] = []
table_rows date (e ∷ es) =
    text e.original_filename
    ∷ text e.content_type
    ∷ text (e.source or_else "—")
    ∷ text (format_bytes e.file_size)
    ∷ text (truncate_hash e.sha256_digest)
    ∷ text (status_label e.verification_status)
    ∷ text (date e.created_at)
    ∷ table_rows date es

items_view :
    (date locale : String → String) → List Finding → Layout → List EvidenceArtifact → View Click
unfolding table_rows EvidenceProvenance.view
items_view date locale findings provenance items =
    embed copy (EvidenceProvenance.view locale true items (some findings))
items_view date locale findings table items =
    text "Filename"
    ∷ text "Type"
    ∷ text "Source"
    ∷ text "Size"
    ∷ text "SHA-256"
    ∷ text "Status"
    ∷ text "Date"
    ∷ table_rows date items

-- The page.
unfoldable pub view :
    (date locale : String → String)
    → Query (List EvidenceArtifact)
    → List Finding
    → Page
    → View Click
unfolding filtered items_view query_error empty_state status_name show
view date locale q findings s =
    let items : List EvidenceArtifact = filtered (q.data_of or_null []) s.status_filter in
    let settled : Bool = not q.is_loading && not (is_some q.error) in
    (text "EVIDENCE"
      ∷ text "Hash-verified artifacts · provenance lineage · integrity verification"
      ∷ button "Provenance" false (set_layout provenance)
      ∷ button "Table" false (set_layout table)
      ∷ input (opt_map status_name s.status_filter or_null "all")
      ∷ text "RUN"
      ∷ text "→"
      ∷ text "STEP"
      ∷ text "→"
      ∷ text "ARTIFACT"
      ∷ text "→"
      ∷ text "HASH"
      ∷ text "→"
      ∷ text "VERIFICATION"
      ∷ text "→"
      ∷ text "FINDING"
      ∷ text "→"
      ∷ text "REPORT"
      ∷ text (show (length items) <> " artifact" <> (if nat_eq (length items) 1 then "" else "s"))
      ∷ query_error "Failed to load evidence." retry q.error)
    ++ (when (settled && null? items) (
          empty_state "No evidence artifacts yet"
            "Evidence appears here after an approved execution produces an artifact. Each artifact carries SHA-256 integrity, provenance, and verification state."
            [])
        ++ when (settled && not (null? items)) (items_view date locale findings s.layout items))
