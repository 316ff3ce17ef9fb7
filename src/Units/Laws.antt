-- ===== src/Units/Laws.antt =====
-- What conversions and validators give, whatever the numbers (frontend/public/components/utils/units.js).
use web_ui.Base.{
  ℕ, zero, suc, ◌≡◌, refl, ap, ◌∙◌, ◌⊎◌, inl, inr, ◌↔◌, ◌<◌, Bool, true, false, ◌&&◌, ◌||◌, not,
  any, null, length, get_elem?, Option, none, some, List, [], ◌∷◌, ◌++◌, if◌then◌else◌, arith,
  Bool-cases,
}
use web_ui.Base.Text.{Text, codes, is_space, starts_with}
use web_ui.Units.Numbers.{Numbers}
use web_ui.Units.Convert.{
  numeric, text_index, reverse, find_unit, Converted, convert_from, convert_in, unparsed, parsed,
  base_value_at, scale_up, convert_value_with_units_to_base_value, dehumanize,
}
use web_ui.Units.Validate.{
  Problem, white_space, number_and_unit, or_problem, split_unit, base_united_validation, is_one_of,
  validate_unit, valid_time_units, validate_number, checked, validate_with, validate_time,
}

module _ (numbers : Numbers) (divisor : numbers.Num) where
  -- A value after a number of divisions.
  pub divided : ℕ → numbers.Num → numbers.Num
  divided zero v = v
  divided (suc k) v = divided k (numbers.divide v divisor)

-- What a conversion gives when it stops at the place `k` of the units.
abbrev pub Scaled :
    (numbers : Numbers) → numbers.Num → numbers.Num → List Text → Converted numbers → Type 0
Scaled numbers divisor v units c =
    (k : ℕ) × (c.unit ≡ get_elem? units k)
    × (c.amount ≡ divided numbers divisor k v)
    × ((numbers.at_least c.amount divisor ≡ false) ⊎ (suc k ≡ length units))
    × ((j : ℕ) → j < k → numbers.at_least (divided numbers divisor j v) divisor ≡ true)

one_more :
    (numbers : Numbers) (divisor v : numbers.Num) (u t : Text) (units : List Text)
    → numbers.at_least v divisor ≡ true
    → {c : Converted numbers} → Scaled numbers divisor (numbers.divide v divisor) (t ∷ units) c
    → Scaled numbers divisor v (u ∷ t ∷ units) c
unfolding divided
one_more numbers divisor v u t units e {c = c} (k, unit, amount, stop, before) =
    (suc k, unit, amount, shift stop, reached)
  where
    shift :
        ((numbers.at_least c.amount divisor ≡ false) ⊎ (suc k ≡ length (t ∷ units)))
        → (numbers.at_least c.amount divisor ≡ false) ⊎ (suc (suc k) ≡ length (u ∷ t ∷ units))
    shift (inl x) = inl x
    shift (inr x) = inr (ap suc x)

    reached : (j : ℕ) → j < suc k → numbers.at_least (divided numbers divisor j v) divisor ≡ true
    reached zero h = e
    reached (suc j) h = before j (omega arith)

-- A value and a unit list that is not empty give the unit at some place, and the value divided as often
-- as this place is from the front: each value before it reached the divisor, and this one does not
-- reach it or there is no further unit.
pub convert_in-Scaled :
    (numbers : Numbers) (divisor v : numbers.Num) (u : Text) (units : List Text)
    → Scaled numbers divisor v (u ∷ units) (convert_in numbers v (u ∷ units) divisor)
unfolding convert_in convert_from divided
convert_in-Scaled numbers divisor v u [] = (0, refl, refl, inr refl, none_before)
  where
    none_before : (j : ℕ) → j < 0 → numbers.at_least (divided numbers divisor j v) divisor ≡ true
    none_before j h = ground arith
convert_in-Scaled numbers divisor v u (t ∷ units) = elim (Bool-cases (numbers.at_least v divisor)) [
  | inl e ↦ rw e (
      one_more numbers divisor v u t units e
        (convert_in-Scaled numbers divisor (numbers.divide v divisor) t units))
  | inr e ↦ rw e (0, refl, refl, inl e, λ j h. none_before j h)
]
  where
    none_before : (j : ℕ) → j < 0 → numbers.at_least (divided numbers divisor j v) divisor ≡ true
    none_before j h = ground arith

reverse-snoc : (us : List Text) (u : Text) → reverse (us ++ u ∷ []) ≡ u ∷ reverse us
unfolding reverse
reverse-snoc [] u = refl
reverse-snoc (t ∷ us) u = ap (λ ts. ts ++ t ∷ []) (reverse-snoc us u)

found_first :
    (s u : Text) (us : List Text) (at : ℕ)
    → text_index s u ≡ some at
    → find_unit s (u ∷ us) ≡ some (0, at)
unfolding find_unit
found_first s u us at h = rw h refl

-- A text that holds the largest unit of its type is not parsed.
pub convert_value-largest :
    (numbers : Numbers) (s u : Text) (us : List Text) (divisor : numbers.Num) (at : ℕ)
    → text_index s u ≡ some at
    → convert_value_with_units_to_base_value numbers s (us ++ u ∷ []) divisor ≡ unparsed s
unfolding convert_value_with_units_to_base_value base_value_at
convert_value-largest numbers s u us divisor at h =
    ap (λ ts. base_value_at numbers s ts divisor (find_unit s ts)) (reverse-snoc us u)
    ∙ ap (base_value_at numbers s (u ∷ reverse us) divisor) (found_first s u (reverse us) at h)

text_index-nil : (s : Text) → text_index s [] ≡ some 0
unfolding text_index starts_with
text_index-nil [] = refl
text_index-nil (c ∷ s) = refl

-- A plain number, with none of the letters k, m and b, reads in the type of plain numbers as the number
-- of the empty text.
pub dehumanize-numeric :
    (numbers : Numbers) (s : Text)
    → text_index s (codes "k") ≡ none
    → text_index s (codes "m") ≡ none
    → text_index s (codes "b") ≡ none
    → dehumanize numbers s numeric ≡ parsed (numbers.to_number []) (some [])
unfolding dehumanize convert_value_with_units_to_base_value numeric reverse find_unit base_value_at
    scale_up
dehumanize-numeric numbers s k m b = rw b (rw m (rw k (rw (text_index-nil s) refl)))

-- What a time has to be behind the check for white space: a number of the right kind, and a unit.
abbrev pub timed : (numbers : Numbers) → Text × Option Text → Bool
timed numbers (n, none) = false
timed numbers (n, some u) =
    not (numbers.is_negative (numbers.parse_float n))
    && numbers.is_finite (numbers.parse_float n)
    && is_one_of valid_time_units u

checked_iff :
    (numbers : Numbers) (n : Text) (u : Option Text)
    → (checked numbers valid_time_units (some number_and_unit) n u ≡ none)
      ↔ (timed numbers (n, u) ≡ true)
unfolding checked validate_number validate_unit
checked_iff numbers n none = ground arith
checked_iff numbers n (some u) = ground arith

spaced_iff :
    (b : Bool) {o : Option Problem} {t : Bool}
    → (o ≡ none) ↔ (t ≡ true)
    → (or_problem (if b then some white_space else none) o ≡ none) ↔ ((not b && t) ≡ true)
spaced_iff true h = (λ e. cc, λ e. cc)
spaced_iff false h = h

-- A time is accepted exactly if it is empty, or has no white space, a unit of time, and in front of it
-- a finite number that is not negative.
pub validate_time_iff :
    (numbers : Numbers) (value : Text)
    → (validate_time numbers value ≡ none)
      ↔ ((null value || not (any is_space value) && timed numbers (split_unit value)) ≡ true)
unfolding validate_time validate_with base_united_validation
validate_time_iff numbers [] = ground arith
validate_time_iff numbers (c ∷ s) =
    spaced_iff (any is_space (c ∷ s))
      (checked_iff numbers (split_unit (c ∷ s)).0 (split_unit (c ∷ s)).1)
