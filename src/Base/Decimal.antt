-- ===== src/Base/Decimal.antt =====
-- Natural numbers as decimal texts.
use Prim.Native.Nat.{ℕ, zero, suc, ◌+◌, ◌-◌, ◌*◌, ◌/◌, ◌%◌, ◌≤◌}
use mathlib.Core.Path.{◌≡◌, refl, ap, ◌∙◌}
use mathlib.Core.Logic.{inl, inr}
use mathlib.Core.Bool.{Bool, true, false, ◌&&◌}
use mathlib.Core.List.{[], ◌∷◌, ◌++◌}
use native.Mathlib.Omega.{arith}
use web_ui.Base.Tests.{if◌then◌else◌, ltb, leb, Bool-cases}
use web_ui.Base.Lists.{null, All, All-append}
use web_ui.Base.Text.{Text}

abbrev pub is_digit : ℕ → Bool
is_digit c = leb 48 c && leb c 57

-- The digits of a number on fuel, of which the number itself is enough.
unfoldable pub show_from : ℕ → ℕ → Text
show_from zero n = (48 + n % 10) ∷ []
show_from (suc f) n =
    let rest = show_from f (n / 10) in
    if ltb n 10 then (48 + n) ∷ [] else rest ++ (48 + n % 10) ∷ []

unfoldable pub show : ℕ → Text
show n = show_from n n

-- The number that digits read as, behind those already read.
unfoldable pub value_from : ℕ → Text → ℕ
value_from acc [] = acc
value_from acc (d ∷ ds) = value_from (acc * 10 + (d - 48)) ds

unfoldable pub value : Text → ℕ
value s = value_from 0 s

value_from-append :
    (acc : ℕ) (s : Text) (d : ℕ) → value_from acc (s ++ d ∷ []) ≡ value_from acc s * 10 + (d - 48)
unfolding value_from
value_from-append acc [] d = refl
value_from-append acc (c ∷ s) d = value_from-append (acc * 10 + (c - 48)) s d

value-show_from : (f n : ℕ) → n ≤ f → value_from 0 (show_from f n) ≡ n
unfolding value_from show_from
value-show_from zero n h = omega arith
value-show_from (suc f) n h = elim (Bool-cases (ltb n 10)) [
  | inl e ↦ rw e (omega arith)
  | inr e ↦ rw e (
      value_from-append 0 (show_from f (n / 10)) (48 + n % 10)
      ∙ ap (λ v. v * 10 + (48 + n % 10 - 48)) (value-show_from f (n / 10) (ground arith))
      ∙ omega arith)
]

-- A number's decimal text reads as the number.
pub value-show : (n : ℕ) → value (show n) ≡ n
unfolding value show
value-show n = value-show_from n n (omega arith)

abbrev pub IsDigit : ℕ → Type 0
IsDigit c = is_digit c ≡ true

digits-show_from : (f n : ℕ) → All IsDigit (show_from f n)
unfolding show_from
digits-show_from zero n = (ground arith, tt)
digits-show_from (suc f) n = elim (Bool-cases (ltb n 10)) [
  | inl e ↦ rw e (ground arith, tt)
  | inr e ↦ rw e (
      All-append _ (show_from f (n / 10)) ((48 + n % 10) ∷ []) (digits-show_from f (n / 10))
        (ground arith, tt))
]

pub All-show : (n : ℕ) → All IsDigit (show n)
unfolding show
All-show n = digits-show_from n n

null-append : (s : Text) (d : ℕ) → null (s ++ d ∷ []) ≡ false
null-append [] d = refl
null-append (c ∷ s) d = refl

pub null-show : (n : ℕ) → null (show n) ≡ false
unfolding show show_from
null-show zero = refl
null-show (suc n) = ground (arith, null-append (show_from n (suc n / 10)) (48 + suc n % 10))
