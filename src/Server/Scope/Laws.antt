-- ===== src/Server/Scope/Laws.antt =====
-- apps/api/app/services/scope_validator.py: which targets and actions are allowed.
use morphia.Common.{
  String, ◌≡◌, refl, Bool, true, false, ◌&&◌, Option, none, some, List, [], ◌∷◌, ◌++◌, ◌⊎◌,
  opt_bind, any, ◌==◌, inl, inr,
}
use morphia.Common.Json.{Json, get}
use morphia.Server.Store.{Engagement, AuditEvent}
use morphia.Server.Tables.{ScopeRule, Tables}
use morphia.Server.Scope.{
  Environment, pattern_matches, Check, passed, denied, run_checks, validate_target, write_audit,
}

-- Some rule of the kind has the target.
unfoldable pub fits : Environment → (rule_type target : String) → List ScopeRule → Bool
fits env rule_type target rules =
    any (λ (r : ScopeRule). r.rule_type == rule_type && pattern_matches env r.pattern target) rules

-- The engagement is there and active.
unfoldable pub is_active : Option Engagement → Bool
is_active none = false
is_active (some e) = e.status == "active"

abbrev pub is_passed : {A : Type 0} → Check A → Bool
is_passed (passed a) = true
is_passed (denied reason checks) = false

pub Check-cases :
    (c : Check (Unit {0}))
    → (c ≡ passed tt) ⊎ ((reason : String) × (checks : List String) × (c ≡ denied reason checks))
Check-cases (passed a) = inl refl
Check-cases (denied reason checks) = inr (reason, checks, refl)

-- What is written for a decision: one row at the end of the audit table, with the decision in it.
abbrev pub Audited : (engagement_id action : String) (allowed : Bool) → Tables → Tables → Type 0
Audited engagement_id action allowed t t' =
    (a : AuditEvent) × (t'.store.audit ≡ t.store.audit ++ a ∷ [])
    × (a.target_id ≡ some engagement_id)
    × (a.action ≡ action)
    × (opt_bind a.metadata_json (λ m. get m "allowed") ≡ some (Json.bool allowed))

pub validate_target-Audited :
    (env : Environment) (engagement_id target action actor : String) (t : Tables)
    → let (result, t') = validate_target env engagement_id target action actor t in
      Audited engagement_id action result.allowed t t'
unfolding validate_target write_audit get
validate_target-Audited env engagement_id target action actor t =
    elim (Check-cases (run_checks env engagement_id target action actor t)) [
      | inl through ↦ rw (through, validate_target) (_, refl, refl, refl, refl)
      | inr (reason, checks, stopped) ↦ rw (stopped, validate_target) (_, refl, refl, refl, refl)
    ]
