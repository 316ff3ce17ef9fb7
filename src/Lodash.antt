-- ===== src/Lodash.antt =====
-- What the models take of the lodash library, whose code is not in the repository: the functions as a
-- record that a model's section takes, with their documented behaviour on arrays as laws.
use web_ui.Base.{◌≡◌, refl, Bool, true, false, Option, none, some, List, [], ◌∷◌, if◌then◌else◌}

-- `_.find` gives the first element that passes, `_.isEmpty` tells the empty array, and `_.each` calls
-- its function on each element in order, here on the variables that the function changes.
pub record Lodash : Type 1 where
  pub find : {A : Type 0} → List A → (A → Bool) → Option A
  pub is_empty : {A : Type 0} → List A → Bool
  pub each : {A S : Type 0} → List A → (S → A → S) → S → S
  pub find_nil : {A : Type 0} → (p : A → Bool) → find [] p ≡ none
  pub find_cons :
      {A : Type 0}
      → (x : A) (xs : List A) (p : A → Bool) → find (x ∷ xs) p ≡ (if p x then some x else find xs p)
  pub is_empty_nil : {A : Type 0} → is_empty {A = A} [] ≡ true
  pub is_empty_cons : {A : Type 0} → (x : A) (xs : List A) → is_empty (x ∷ xs) ≡ false
  pub each_nil : {A S : Type 0} → (f : S → A → S) (s : S) → each [] f s ≡ s
  pub each_cons :
      {A S : Type 0}
      → (x : A) (xs : List A) (f : S → A → S) (s : S) → each (x ∷ xs) f s ≡ each xs f (f s x)

-- Functions with this behaviour.
abbrev find_first : {A : Type 0} → List A → (A → Bool) → Option A
find_first [] p = none
find_first (x ∷ xs) p = if p x then some x else find_first xs p

abbrev null : {A : Type 0} → List A → Bool
null [] = true
null (x ∷ xs) = false

abbrev fold : {A S : Type 0} → List A → (S → A → S) → S → S
fold [] f s = s
fold (x ∷ xs) f s = fold xs f (f s x)

abbrev pub plain_lodash : Lodash
plain_lodash = record {
  find = find_first;
  is_empty = null;
  each = fold;
  find_nil = λ p. refl;
  find_cons = λ x xs p. refl;
  is_empty_nil = refl;
  is_empty_cons = λ x xs. refl;
  each_nil = λ f s. refl;
  each_cons = λ x xs f s. refl;
}
