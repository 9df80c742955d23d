-- ===== src/Web/AuthorizationBoundary/Laws.antt =====
-- apps/web/src/components/AuthorizationBoundary.tsx: the decision that the browser makes by itself.
use morphia.Common.{
  String, ◌≡◌, refl, sym, Bool, true, false, not, ◌&&◌, Option, List, [], ◌∷◌, any, filter, find,
  is_some, arith, ◌<>◌, includes-append, remove_first, Option-cases, inl, inr,
}
use morphia.Types.{ScopeRule, Engagement}
use morphia.Web.AuthorizationBoundary.{matches, is_exclude, is_include, evaluate}

-- The rules of one type that fit a target.
abbrev pub fits : (ScopeRule → Bool) → String → List ScopeRule → Bool
fits kind target rules = any (λ (r : ScopeRule). kind r && matches target r) rules

find-filter :
    (kind : ScopeRule → Bool) (target : String) (rules : List ScopeRule)
    → is_some (find (matches target) (filter kind rules)) ≡ fits kind target rules
find-filter kind target [] = refl
find-filter kind target (r ∷ rs) = ground (arith, find-filter kind target rs)

-- A target is allowed exactly when some include rule fits it and no exclude rule does: exclusion wins
-- whatever the order of the rules, and nothing is allowed by default.
pub evaluate-allowed :
    (engagement : Option Engagement) (rules : List ScopeRule) (target : String)
    → (evaluate engagement rules target).allowed
      ≡ (fits is_include target rules && not (fits is_exclude target rules))
unfolding evaluate
evaluate-allowed engagement rules target =
    rw (sym (find-filter is_include target rules), sym (find-filter is_exclude target rules))
      (elim (Option-cases (find (matches target) (filter is_exclude rules))) [
        | inr (r, denied) ↦ rw (denied, evaluate) (ground arith)
        | inl free ↦
            rw (free, evaluate)
              (elim (Option-cases (find (matches target) (filter is_include rules))) [
                | inr (r, found) ↦ rw (found, evaluate) refl
                | inl missing ↦ rw (missing, evaluate) refl
              ])
      ])

matches_within :
    (r : ScopeRule) (a b : String) → matches (a <> (remove_first "*." r.pattern <> b)) r ≡ true
unfolding matches
matches_within r a b = rw (includes-append a (remove_first "*." r.pattern) b) refl

-- An include rule that stands first allows every target that has the rule's pattern, less its first "*.", anywhere
-- within it, where no exclude rule fits: a host of another owner that contains the name is allowed too.
pub evaluate_within :
    (engagement : Option Engagement) (r : ScopeRule) (rules : List ScopeRule) (a b : String)
    → is_include r ≡ true
    → fits is_exclude (a <> (remove_first "*." r.pattern <> b)) (r ∷ rules) ≡ false
    → (evaluate engagement (r ∷ rules) (a <> (remove_first "*." r.pattern <> b))).allowed ≡ true
evaluate_within engagement r rules a b included free =
    rw (evaluate-allowed engagement (r ∷ rules) (a <> (remove_first "*." r.pattern <> b)))
      (rw (free, included, matches_within r a b) refl)
