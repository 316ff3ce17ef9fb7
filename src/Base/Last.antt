-- ===== src/Base/Last.antt =====
-- The last elements of a list.
use Prim.Native.Nat.{ℕ, zero, suc, ◌+◌, ◌-◌, ◌≤◌}
use mathlib.Core.Path.{◌≡◌, refl, sym, ap, ◌∙◌}
use mathlib.Core.List.{List, [], ◌∷◌, ◌++◌}
use native.Mathlib.Omega.{arith}
use web_ui.Base.Lists.{length, length-append, length-drop, drop}

pub suc_add : (n m : ℕ) → suc n + m ≡ suc (n + m)
suc_add n m = omega arith

-- The last `n` elements.
unfoldable pub last_n {ℓ} : {A : Type ℓ} → ℕ → List A → List A
last_n n xs = drop (length xs - n) xs

module _ {D : Type 0} where
  pub drop-append : (n : ℕ) (xs ys : List D) → n ≤ length xs → drop n (xs ++ ys) ≡ drop n xs ++ ys
  drop-append zero xs ys h = refl
  drop-append (suc n) [] ys h = absurd (omega arith)
  drop-append (suc n) (x ∷ xs) ys h = drop-append n xs ys (omega arith)

  pub drop-nil : (k : ℕ) → drop {A = D} k [] ≡ []
  drop-nil zero = refl
  drop-nil (suc k) = refl

  pub drop-drop : (m n : ℕ) (xs : List D) → drop m (drop n xs) ≡ drop (n + m) xs
  drop-drop m zero xs = ap (λ k. drop k xs) (omega arith)
  drop-drop m (suc n) [] = drop-nil m ∙ sym (drop-nil (suc n + m))
  drop-drop m (suc n) (x ∷ xs) = rw (suc_add) (drop-drop m n xs)

  pub drop-eq : (k k' : ℕ) (xs : List D) → k ≡ k' → drop k xs ≡ drop k' xs
  drop-eq k k' xs e = ap (λ j. drop j xs) e

  pub last_n-append : (n : ℕ) (xs ys : List D) → last_n n (last_n n xs ++ ys) ≡ last_n n (xs ++ ys)
  unfolding last_n
  last_n-append n xs ys = rw (← drop-append (length xs - n) xs ys (omega arith)) (
      drop-drop _ (length xs - n) (xs ++ ys)
      ∙ drop-eq _ _ (xs ++ ys)
          (omega (arith, length-drop (length xs - n) (xs ++ ys), length-append xs ys)))

  pub last_n-all : (n : ℕ) (xs : List D) → length xs ≤ n → last_n n xs ≡ xs
  unfolding last_n
  last_n-all n xs h = drop-eq (length xs - n) 0 xs (omega arith)

  pub length-last_n : (n : ℕ) (xs : List D) → length (last_n n xs) ≤ n
  unfolding last_n
  length-last_n n xs = omega (arith, length-drop (length xs - n) xs)
