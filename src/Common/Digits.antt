-- ===== src/Common/Digits.antt =====
-- The decimal digits of a number can be read back: `show` gives two numbers different texts.
use Prim.Native.Nat.{ℕ, zero, suc, ◌+◌, ◌-◌, ◌*◌, ◌/◌, ◌%◌, ◌≤◌}
use Prim.Native.Char.{Char, code}
use Prim.Native.String.{String, [], ◌∷◌, ◌++◌}
use mathlib.Core.Path.{◌≡◌, refl, sym, ap, ◌∙◌}
use mathlib.Core.Logic.{inl, inr}
use native.Mathlib.Omega.{arith}
use text.Mathlib.TextLemmas.{nil-append, cons-append}
use morphia.Common.Tests.{leb, Bool-cases}
use morphia.Common.Text.{show, show_from, digit}

-- The number that a text of digits stands for, after digits that stand for `n`.
read_from : ℕ → String → ℕ
read_from n [] = n
read_from n (c ∷ s) = read_from (10 * n + (code c - 48)) s

read_from-append :
    (n : ℕ) (s : String) (c : Char) → read_from n (s ++ c ∷ []) ≡ 10 * read_from n s + (code c - 48)
unfolding read_from
read_from-append n [] c = rw (nil-append (c ∷ [])) refl
read_from-append n (d ∷ s) c =
    rw (cons-append d s (c ∷ [])) (read_from-append (10 * n + (code d - 48)) s c)

digit_value : (n : ℕ) → n ≤ 9 → code (digit n) - 48 ≡ n
digit_value zero small = refl
digit_value (suc zero) small = refl
digit_value (suc (suc zero)) small = refl
digit_value (suc (suc (suc zero))) small = refl
digit_value (suc (suc (suc (suc zero)))) small = refl
digit_value (suc (suc (suc (suc (suc zero))))) small = refl
digit_value (suc (suc (suc (suc (suc (suc zero)))))) small = refl
digit_value (suc (suc (suc (suc (suc (suc (suc zero))))))) small = refl
digit_value (suc (suc (suc (suc (suc (suc (suc (suc zero)))))))) small = refl
digit_value (suc (suc (suc (suc (suc (suc (suc (suc (suc zero))))))))) small = refl
digit_value (suc (suc (suc (suc (suc (suc (suc (suc (suc (suc n)))))))))) small = omega arith

read-show_from : (fuel n : ℕ) → suc n ≤ fuel → read_from 0 (show_from fuel n) ≡ n
unfolding show_from read_from
read-show_from zero n enough = omega arith
read-show_from (suc fuel) n enough = elim (Bool-cases (leb n 9)) [
  | inl small ↦
      rw small
        (let d : code (digit n) - 48 ≡ n = digit_value n (ground (arith, small)) in omega arith)
  | inr large ↦ rw large (
      let d : code (digit (n % 10)) - 48 ≡ n % 10 = digit_value (n % 10) (omega arith) in
      let rest : read_from 0 (show_from fuel (n / 10)) ≡ n / 10 =
        read-show_from fuel (n / 10) (ground (arith, large)) in
      let step = read_from-append 0 (show_from fuel (n / 10)) (digit (n % 10)) in omega arith)
]

pub show_injective : (m n : ℕ) → show m ≡ show n → m ≡ n
unfolding show
show_injective m n same =
    sym (read-show_from (suc m) m (omega arith))
    ∙ (ap (read_from 0) same ∙ read-show_from (suc n) n (omega arith))
