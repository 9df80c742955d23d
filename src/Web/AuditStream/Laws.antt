-- ===== src/Web/AuditStream/Laws.antt =====
-- apps/web/src/components/AuditStream.tsx: what a filter shows.
use morphia.Common.{
  ℕ, suc, zero, ◌≤◌, String, ◌≡◌, refl, Bool, true, false, ◌||◌, List, [], ◌∷◌, filter, take,
  length, length-take, All, All-take, All-filter, Bool-cases, inl, inr, ◌==◌, if◌then◌else◌,
}
use morphia.Types.{AuditEvent}
use morphia.Web.AuditStream.{categories, category_in, event_category, filtered, lists}

never_human :
    (auth t c d s a b ev fi re sy : Bool)
    → ((if auth
          then "authorization"
          else if t || (c || (d || (s || (a || (b || false)))))
          then "execution"
          else if b || (a || (t || false))
          then "human"
          else if ev
          then "evidence"
          else if fi
          then "finding"
          else if re
          then "report"
          else if sy
          then "system"
          else "system")
        == "human")
      ≡ false
never_human true t c d s a b ev fi re sy = refl
never_human false true c d s a b ev fi re sy = refl
never_human false false true d s a b ev fi re sy = refl
never_human false false false true s a b ev fi re sy = refl
never_human false false false false true a b ev fi re sy = refl
never_human false false false false false true b ev fi re sy = refl
never_human false false false false false false true ev fi re sy = refl
never_human false false false false false false false true fi re sy = refl
never_human false false false false false false false false true re sy = refl
never_human false false false false false false false false false true sy = refl
never_human false false false false false false false false false false true = refl
never_human false false false false false false false false false false false = refl

-- No type of event has the category "human": the types that it lists are all taken by "execution" before it.
pub event_category-human : (type : String) → (event_category type == "human") ≡ false
unfolding event_category category_in categories lists
event_category-human type =
    never_human (lists auth_types type) ("run.transition" == type) ("run.claimed" == type)
      ("run.scope_denied" == type) ("run.step_completed" == type) ("approval.approved" == type)
      ("approval.decide" == type) (lists evidence_types type) (lists finding_types type)
      (lists report_types type) (lists system_types type)
  where
    auth_types : List String
    auth_types = "scope.modify" ∷ "auth.login" ∷ "auth.logout" ∷ "auth.failed" ∷ "role.change" ∷ []

    evidence_types : List String
    evidence_types = "evidence.upload" ∷ "evidence.verify" ∷ []

    finding_types : List String
    finding_types = "finding.create" ∷ "finding.verify" ∷ []

    report_types : List String
    report_types = "report.generate" ∷ "report.export" ∷ []

    system_types : List String
    system_types = "project.create" ∷ "engagement.create" ∷ "user.suspend" ∷ []

-- So the filter "human" shows nothing, whatever the events.
pub filtered-human :
    (events : List AuditEvent) (max_items : ℕ) → filtered events "human" max_items ≡ []
unfolding filtered
filtered-human events max_items = rw (nothing events) (take-nil max_items)
  where
    take-nil : (n : ℕ) → take {A = AuditEvent} n [] ≡ []
    take-nil zero = refl
    take-nil (suc n) = refl

    nothing :
        (es : List AuditEvent)
        → filter (λ (e : AuditEvent). event_category e.event_type == "human") es ≡ []
    nothing [] = refl
    nothing (e ∷ es) = rw (event_category-human e.event_type) (nothing es)

-- Any filter shows at most the number of events asked for and, but for "all", only events of its
-- category.
pub filtered_lem :
    (events : List AuditEvent) (chosen : String) (max_items : ℕ)
    → (length (filtered events chosen max_items) ≤ max_items)
      × All
          (λ (e : AuditEvent). (chosen == "all" || event_category e.event_type == chosen) ≡ true)
          (filtered events chosen max_items)
unfolding filtered
filtered_lem events chosen max_items = elim (Bool-cases (chosen == "all")) [
  | inl every ↦ rw every (length-take max_items events, All-true (take max_items events))
  | inr one ↦
      let kept : List AuditEvent =
        filter (λ (e : AuditEvent). event_category e.event_type == chosen) events in
      rw one (
        length-take max_items kept,
        All-take (λ (e : AuditEvent). (event_category e.event_type == chosen) ≡ true) max_items kept
            (All-filter (λ (e : AuditEvent). event_category e.event_type == chosen) events),
      )
]
  where
    All-true : (es : List AuditEvent) → All (λ e. true ≡ true) es
    All-true [] = tt
    All-true (e ∷ es) = (refl, All-true es)
