-- ===== src/Common/Text.antt =====
-- The string methods that the source uses, by recursion on the text. A text is a sequence of code
-- points; the source's are UTF-16 units, which are the same on the basic multilingual plane.
use Prim.Native.Nat.{ℕ, zero, suc, ◌+◌, ◌-◌, ◌/◌, ◌%◌, ◌≤◌}
use Prim.Native.Char.{Char, code}
use Prim.Native.String.{String, [], ◌∷◌, ◌++◌, char_at}
use mathlib.Core.Path.{◌≡◌, refl, ap}
use mathlib.Core.Logic.{inl, inr}
use mathlib.Core.Bool.{Bool, true, false, ◌&&◌, ◌||◌}
use native.Mathlib.Omega.{arith}
use text.Mathlib.Text
use text.Mathlib.TextEquality.{codes_equal}
use text.Mathlib.TextLemmas.{nil-append, cons-append}
use morphia.Common.Tests.{leb, nat_eq, if◌then◌else◌, Bool-cases}

infix 50 ◌==◌
abbrev pub ◌==◌ : String → String → Bool
s == t = Text.◌==◌ s t

infixr 65 ◌<>◌
abbrev pub ◌<>◌ : String → String → String
s <> t = s ++ t

-- A text that is falsy in a condition: the empty one.
abbrev pub is_empty : String → Bool
is_empty [] = true
is_empty (c ∷ s) = false

-- `s || d`
infixr 20 ◌or_else◌
abbrev pub ◌or_else◌ : String → String → String
s or_else d = if is_empty s then d else s

-- `s.length`
abbrev pub size : String → ℕ
size [] = 0
size (c ∷ s) = suc (size s)

-- `s.slice(0, n)`
abbrev pub prefix : ℕ → String → String
prefix zero s = []
prefix (suc n) [] = []
prefix (suc n) (c ∷ s) = c ∷ prefix n s

-- `s.startsWith(t)`
abbrev pub starts_with : String → String → Bool
starts_with s [] = true
starts_with [] (d ∷ t) = false
starts_with (c ∷ s) (d ∷ t) = nat_eq (code c) (code d) && starts_with s t

-- `s.includes(t)`
abbrev pub includes : String → String → Bool
includes [] t = is_empty t
includes (c ∷ s) t = starts_with (c ∷ s) t || includes s t

-- `s` without its first `n` characters
abbrev pub suffix : ℕ → String → String
suffix zero s = s
suffix (suc n) [] = []
suffix (suc n) (c ∷ s) = suffix n s

-- `s.replace(t, "")`: the first occurrence of `t` is left out.
abbrev pub remove_first : String → String → String
remove_first t [] = []
remove_first t (c ∷ s) =
    if starts_with (c ∷ s) t then suffix (size t) (c ∷ s) else c ∷ remove_first t s

-- The white space that both languages strip: `trim` of JavaScript and `strip` of Python.
abbrev is_common_space : ℕ → Bool
is_common_space c =
    leb 9 c && leb c 13
    || nat_eq c 32
    || nat_eq c 0xa0
    || nat_eq c 0x1680
    || leb 0x2000 c && leb c 0x200a
    || nat_eq c 0x2028
    || nat_eq c 0x2029
    || nat_eq c 0x202f
    || nat_eq c 0x205f
    || nat_eq c 0x3000

-- JavaScript also strips the byte order mark.
abbrev is_space : ℕ → Bool
is_space c = is_common_space c || nat_eq c 0xfeff

-- Python also strips the separators 28 to 31 and the next-line character.
abbrev is_py_space : ℕ → Bool
is_py_space c = is_common_space c || leb 28 c && leb c 31 || nat_eq c 0x85

abbrev drop_start : (ℕ → Bool) → String → String
drop_start space [] = []
drop_start space (c ∷ s) = if space (code c) then drop_start space s else c ∷ s

abbrev drop_end : (ℕ → Bool) → String → String
drop_end space [] = []
drop_end space (c ∷ s) =
    let rest = drop_end space s in if is_empty rest && space (code c) then [] else c ∷ rest

-- `s.trim()`
unfoldable pub trim : String → String
trim s = drop_end is_space (drop_start is_space s)

-- `s.strip()`
unfoldable pub strip : String → String
strip s = drop_end is_py_space (drop_start is_py_space s)

abbrev lower_char : Char → Char
lower_char c =
    if leb b'A' (code c) && leb (code c) b'Z'
    then char_at "abcdefghijklmnopqrstuvwxyz" (code c - b'A')
    else c

-- `s.toLowerCase()` on the letters A to Z; the source only looks for ASCII words in the result.
abbrev pub to_lower : String → String
to_lower [] = []
to_lower (c ∷ s) = lower_char c ∷ to_lower s

abbrev upper_char : Char → Char
upper_char c =
    if leb b'a' (code c) && leb (code c) b'z'
    then char_at "ABCDEFGHIJKLMNOPQRSTUVWXYZ" (code c - b'a')
    else c

-- `s.toUpperCase()` on the letters a to z; the source applies it to the names of HTTP methods.
abbrev pub to_upper : String → String
to_upper [] = []
to_upper (c ∷ s) = upper_char c ∷ to_upper s

abbrev pub digit : ℕ → Char
digit n = char_at "0123456789" n

unfoldable pub show_from : ℕ → ℕ → String
show_from zero n = []
show_from (suc fuel) n =
    let rest = show_from fuel (n / 10) in
    if leb n 9 then digit n ∷ [] else rest ++ digit (n % 10) ∷ []

-- A number in a template, in decimal: there are fewer digits than the fuel that is given.
unfoldable pub show : ℕ → String
unfolding show_from
show n = show_from (suc n) n

-- A text starts with another exactly when that one and some rest make it up.
pub prefix_of-starts_with : (s t : String) → starts_with s t ≡ true → (r : String) × (s ≡ t <> r)
prefix_of-starts_with s [] h = (s, rw nil-append)
prefix_of-starts_with [] (d ∷ t) h = cc
prefix_of-starts_with (c ∷ s) (d ∷ t) h =
    let (r, e) = prefix_of-starts_with s t (ground arith) in
    let same : c ≡ d = codes_equal c d (ground arith) in (r, rw cons-append (cc (same, e)))

pub starts_with-append : (t r : String) → starts_with (t <> r) t ≡ true
starts_with-append [] r = refl
starts_with-append (c ∷ t) r = rw cons-append (ground (arith, starts_with-append t r))

-- A text includes another exactly when it is that one between two texts.
pub split_of-includes :
    (s t : String) → includes s t ≡ true → (a : String) × (b : String) × (s ≡ a <> (t <> b))
split_of-includes [] [] h = ([], [], rw nil-append (rw nil-append))
split_of-includes [] (d ∷ t) h = cc
split_of-includes (c ∷ s) t h = elim (Bool-cases (starts_with (c ∷ s) t)) [
  | inl here ↦ let (r, e) = prefix_of-starts_with (c ∷ s) t here in ([], r, rw nil-append e)
  | inr later ↦
      let (a, b, e) = split_of-includes s t (rw later at h) in
      (c ∷ a, b, rw cons-append (ap (λ u. c ∷ u) e))
]

includes_of-starts_with : (s t : String) → starts_with s t ≡ true → includes s t ≡ true
includes_of-starts_with [] [] h = refl
includes_of-starts_with [] (d ∷ t) h = cc
includes_of-starts_with (c ∷ s) t h = rw h

pub includes-append : (a t b : String) → includes (a <> (t <> b)) t ≡ true
includes-append [] t b = rw nil-append (includes_of-starts_with (t <> b) t (starts_with-append t b))
includes-append (c ∷ a) t b = rw cons-append (ground (arith, includes-append a t b))

pub is_empty-append : (s t : String) → is_empty s ≡ false → is_empty (s <> t) ≡ false
is_empty-append [] t filled = cc
is_empty-append (c ∷ s) t filled = rw cons-append refl

pub size-append : (s t : String) → size (s <> t) ≡ size s + size t
size-append [] t = rw nil-append (omega arith)
size-append (c ∷ s) t = rw cons-append (omega (arith, size-append s t))

pub size-prefix : (n : ℕ) (s : String) → size (prefix n s) ≤ n
size-prefix zero s = omega arith
size-prefix (suc n) [] = omega arith
size-prefix (suc n) (c ∷ s) = omega (arith, size-prefix n s)

pub size-suffix : (n : ℕ) (s : String) → size (suffix n s) ≤ size s - n
size-suffix zero s = omega arith
size-suffix (suc n) [] = omega arith
size-suffix (suc n) (c ∷ s) = omega (arith, size-suffix n s)
