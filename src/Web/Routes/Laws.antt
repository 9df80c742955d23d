-- ===== src/Web/Routes/Laws.antt =====
-- apps/web/src/App.tsx: what can be seen without the guard of the layout.
use morphia.Common.{
  String, ◌≡◌, refl, Bool, true, false, Option, none, some, List, [], ◌∷◌, ◌==◌, ◌or_null◌, opt_map,
  to_lower, Bool-cases, inl, inr,
}
use morphia.Web.Routes.{
  Element, sign_in, not_found, Place, guarded, open_to_all, route, sections, lookup_section,
}

-- What stands outside of the guard is another page than the one to sign in at and the one for a missing page.
abbrev pub exposes : Place → Bool
exposes (guarded e) = false
exposes (open_to_all sign_in) = false
exposes (open_to_all not_found) = false
exposes (open_to_all _) = true

guarded_or :
    (o : Option Element) → exposes (opt_map guarded o or_null open_to_all not_found) ≡ false
guarded_or none = refl
guarded_or (some e) = refl

-- Whatever the path, no page but the one to sign in at and the one for a missing page is drawn outside of the
-- guard.
pub route-guarded : (path : List String) → exposes (route path) ≡ false
unfolding route
route-guarded [] = refl
route-guarded (s ∷ []) = elim (Bool-cases (to_lower s == "sign-in")) [
  | inl in_page ↦ rw in_page refl
  | inr other ↦ rw other (guarded_or (lookup_section s sections))
]
route-guarded (s ∷ id ∷ []) = elim (Bool-cases (to_lower s == "projects")) [
  | inl project ↦ rw project refl
  | inr other ↦ elim (Bool-cases (to_lower s == "runs")) [
    | inl run ↦ rw (other, run) refl
    | inr neither ↦ rw (other, neither) refl
  ]
]
route-guarded (s ∷ t ∷ u ∷ rest) = refl
