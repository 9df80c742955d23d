-- ===== src/Web/EvidenceProvenance/Laws.antt =====
-- apps/web/src/components/EvidenceProvenance.tsx: how much of a hash is shown, and the badge.
use morphia.Common.{
  ◌-◌, ◌≤◌, String, ◌≡◌, refl, Bool, true, false, not, ◌||◌, Option, List, [], ◌∷◌, ◌++◌, any,
  arith, size, prefix, suffix, is_empty, ◌==◌, ◌<>◌, size-append, size-prefix, size-suffix,
  Bool-cases, inl, inr,
}
use morphia.Common.View.{View, button, shown, shown-append, text, when}
use morphia.Types.{EvidenceArtifact, Finding}
use morphia.Web.EvidenceProvenance.{truncate_hash, artifact, lineage, kilobytes}

-- A shortened hash has at most twenty-one characters.
pub size-truncate_hash : (h : String) → size (truncate_hash h) ≤ 21
unfolding truncate_hash
size-truncate_hash h = elim (Bool-cases (is_empty h)) [
  | inl blank ↦ rw blank (omega arith)
  | inr filled ↦
      rw
        (
          filled,
          size-append (prefix 12 h) ("…" <> suffix (size h - 8) h),
          size-append "…" (suffix (size h - 8) h),
        )
        (omega (arith, size-prefix 12 h, size-suffix (size h - 8) h))
]

any-append :
    {A : Type 0} (p : A → Bool) (xs ys : List A) → any p (xs ++ ys) ≡ (any p xs || any p ys)
any-append p [] ys = refl
any-append p (x ∷ xs) ys = ground (arith, any-append p xs ys)

-- A text that stands in the third of four parts of what is shown.
any_within :
    (p : String → Bool) (xs ys zs ws : View String)
    → any p (shown zs) ≡ true
    → any p (shown (xs ++ ys ++ zs ++ ws)) ≡ true
any_within p xs ys zs ws here =
    rw
      (
        shown-append (xs ++ ys ++ zs) ws,
        any-append p (shown (xs ++ ys ++ zs)) (shown ws),
        shown-append (xs ++ ys) zs,
        any-append p (shown (xs ++ ys)) (shown zs),
        here,
      )
      (ground arith)

-- Every artifact is shown with the badge VERIFIED, whatever its status.
pub artifact-verified :
    (locale : String → String) (can_copy : Bool) (e : EvidenceArtifact)
    (findings : Option (List Finding))
    → any (λ s. s == "VERIFIED") (shown (artifact locale can_copy e findings)) ≡ true
unfolding artifact
artifact-verified locale can_copy e findings =
    any_within (λ s. s == "VERIFIED") (lineage e)
      (text e.original_filename
        ∷ text e.content_type
        ∷ text (kilobytes e.file_size <> " KB")
        ∷ text "SHA-256"
        ∷ text e.sha256_digest
        ∷ when can_copy (button "Copy" false e.sha256_digest ∷ []))
      _ (when (not (is_empty e.notes)) (text e.notes ∷ [])) refl
