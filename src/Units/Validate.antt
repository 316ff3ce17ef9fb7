-- ===== src/Units/Validate.antt =====
-- frontend/public/components/utils/units.js: what values a user may type.
use web_ui.Base.{
  ℕ, leb, Bool, ◌&&◌, ◌||◌, not, Option, none, some, List, [], ◌∷◌, null, any, if◌then◌else◌,
}
use web_ui.Base.Text.{Text, codes, is_space, same_text}
use web_ui.Units.Numbers.{Numbers}

-- The messages; `none` stands for a value that is accepted.
pub data Problem : Type 0 where
  white_space must_be_positive must_be_number number_and_unit : Problem
  unrecognized_unit : Text → Problem

abbrev pub or_problem : Option Problem → Option Problem → Option Problem
or_problem none q = q
or_problem (some p) q = some p

abbrev pub is_letter : ℕ → Bool
is_letter c = leb b'a' c && leb c b'z' || leb b'A' c && leb c b'Z'

-- The text before the first letter, and the text from it on, which is undefined without a letter.
unfoldable pub split_unit : Text → Text × Option Text
split_unit [] = ([], none)
split_unit (c ∷ s) =
    if is_letter c then ([], some (c ∷ s)) else (c ∷ (split_unit s).0, (split_unit s).1)

unfoldable pub base_united_validation : Text → Option Problem
base_united_validation [] = none
base_united_validation (c ∷ s) = if any is_space (c ∷ s) then some white_space else none

abbrev pub is_one_of : List Text → Text → Bool
is_one_of units unit = any (λ u. same_text unit u) units

unfoldable pub validate_unit : List Text → Text → Option Problem
validate_unit units unit = if is_one_of units unit then none else some (unrecognized_unit unit)

abbrev pub valid_cpu_units : List Text
valid_cpu_units =
    codes "p"
    ∷ codes "m"
    ∷ codes "c"
    ∷ codes "d"
    ∷ codes "n"
    ∷ codes "K"
    ∷ codes "M"
    ∷ codes "G"
    ∷ []

abbrev pub valid_mem_units : List Text
valid_mem_units =
    codes "E"
    ∷ codes "P"
    ∷ codes "T"
    ∷ codes "G"
    ∷ codes "M"
    ∷ codes "k"
    ∷ codes "Pi"
    ∷ codes "Ti"
    ∷ codes "Gi"
    ∷ codes "Mi"
    ∷ codes "Ki"
    ∷ []

abbrev pub valid_time_units : List Text
valid_time_units = codes "s" ∷ codes "m" ∷ codes "h" ∷ codes "d" ∷ codes "M" ∷ codes "y" ∷ []

module _ (numbers : Numbers) where
  open numbers use {
    Num, of_nat, at_least, divide, times, is_negative, is_finite, round, parse_float, to_number,
    print,
  }

  unfoldable pub validate_number : Num → Option Problem
  validate_number n =
      if is_negative n
      then some must_be_positive
      else if not (is_finite n)
      then some must_be_number
      else none

  -- The checks that the three validators share: what is said of a value without a unit is given.
  unfoldable pub checked : List Text → Option Problem → Text → Option Text → Option Problem
  checked units without number none = without
  checked units without number (some unit) =
      or_problem (validate_number (parse_float number)) (validate_unit units unit)

  unfoldable pub validate_with : List Text → Option Problem → Text → Option Problem
  validate_with units without value =
      if null value
      then none
      else or_problem (base_united_validation value)
          (checked units without (split_unit value).0 (split_unit value).1)

  unfoldable pub validate_cpu : Text → Option Problem
  validate_cpu value =
      validate_with valid_cpu_units (validate_number (parse_float (split_unit value).0)) value

  unfoldable pub validate_time : Text → Option Problem
  validate_time value = validate_with valid_time_units (some number_and_unit) value

  -- Without a unit, the text itself is compared with 0, and so coerced.
  unfoldable pub validate_memory : Text → Option Problem
  validate_memory value = validate_with valid_mem_units (validate_number (to_number value)) value
