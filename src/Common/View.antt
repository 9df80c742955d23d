-- ===== src/Common/View.antt =====
-- What a component renders: the leaves of its tree in document order, with the texts that it shows
-- and the controls that it offers. Layout, classes, colours and lists of options are left out.
use Prim.Native.String.{String}
use mathlib.Core.Path.{◌≡◌, refl}
use mathlib.Core.Bool.{Bool, true, false}
use mathlib.Core.List.{List, [], ◌∷◌, ◌++◌, map}
use morphia.Common.Tests.{if◌then◌else◌}

-- `A` is what a click asks for.
pub data Item (A : Type 0) : Type 0 where
  text : String → Item A
  button : (label : String) (disabled : Bool) → A → Item A
  link : (to : String) (label : String) → Item A
  input : (value : String) → Item A

abbrev pub View : Type 0 → Type 0
View A = List (Item A)

-- `{b && …}`
abbrev pub when : {A : Type 0} → Bool → View A → View A
when b v = if b then v else []

-- The actions that an enabled button of the view starts.
abbrev pub offered : {A : Type 0} → View A → List A
offered [] = []
offered (button l false a ∷ v) = a ∷ offered v
offered (_ ∷ v) = offered v

-- The texts that the view shows.
abbrev pub shown : {A : Type 0} → View A → List String
shown [] = []
shown (text s ∷ v) = s ∷ shown v
shown (_ ∷ v) = shown v

pub offered-append : {A : Type 0} (v w : View A) → offered (v ++ w) ≡ offered v ++ offered w
offered-append [] w = refl
offered-append (text s ∷ v) w = offered-append v w
offered-append (button l false a ∷ v) w = rw (offered-append v w)
offered-append (button l true a ∷ v) w = offered-append v w
offered-append (link t l ∷ v) w = offered-append v w
offered-append (input s ∷ v) w = offered-append v w

pub shown-append : {A : Type 0} (v w : View A) → shown (v ++ w) ≡ shown v ++ shown w
shown-append [] w = refl
shown-append (text s ∷ v) w = rw (shown-append v w)
shown-append (button l d a ∷ v) w = shown-append v w
shown-append (link t l ∷ v) w = shown-append v w
shown-append (input s ∷ v) w = shown-append v w

-- A component inside another: what its clicks ask for becomes a click of the outer one.
abbrev pub embed : {A B : Type 0} → (A → B) → View A → View B
embed f [] = []
embed f (text s ∷ v) = text s ∷ embed f v
embed f (button l d a ∷ v) = button l d (f a) ∷ embed f v
embed f (link to l ∷ v) = link to l ∷ embed f v
embed f (input s ∷ v) = input s ∷ embed f v

pub offered-embed :
    {A B : Type 0} (f : A → B) (v : View A) → offered (embed f v) ≡ map f (offered v)
offered-embed f [] = refl
offered-embed f (text s ∷ v) = offered-embed f v
offered-embed f (button l false a ∷ v) = rw (offered-embed f v)
offered-embed f (button l true a ∷ v) = offered-embed f v
offered-embed f (link to l ∷ v) = offered-embed f v
offered-embed f (input s ∷ v) = offered-embed f v
