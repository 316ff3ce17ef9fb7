-- ===== src/Units/Convert.antt =====
-- frontend/public/components/utils/units.js: conversion between values and values with units.
use web_ui.Base.{
  ℕ, zero, suc, Bool, true, false, ◌&&◌, not, Option, none, some, List, [], ◌∷◌, ◌++◌, null, drop,
  take, if◌then◌else◌,
}
use web_ui.Base.Text.{Text, codes, starts_with, same_text}
use web_ui.Units.Numbers.{Numbers}

pub record UnitType : Type 0 where
  pub units : List Text
  pub space : Bool
  pub divisor : ℕ

unfoldable pub binary_bytes : UnitType
binary_bytes = record {
  units = codes "B" ∷ codes "KiB" ∷ codes "MiB" ∷ codes "GiB" ∷ codes "TiB" ∷ codes "PiB" ∷ [];
  space = true;
  divisor = 1024;
}

unfoldable pub numeric : UnitType
numeric = record {
  units = [] ∷ codes "k" ∷ codes "m" ∷ codes "b" ∷ [];
  space = false;
  divisor = 1000;
}

unfoldable pub percentage : UnitType
percentage = record { units = codes "%" ∷ []; space = false; divisor = 1000 }

unfoldable pub decimal_bytes : UnitType
decimal_bytes = record {
  units =
      codes "B" ∷ codes "KB" ∷ codes "MB" ∷ codes "GB" ∷ codes "TB" ∷ codes "PB" ∷ codes "EB" ∷ [];
  space = true;
  divisor = 1000;
}

unfoldable pub binary_bytes_without_b : UnitType
binary_bytes_without_b = record {
  units =
      codes "i" ∷ codes "Ki" ∷ codes "Mi" ∷ codes "Gi" ∷ codes "Ti" ∷ codes "Pi" ∷ codes "Ei" ∷ [];
  space = true;
  divisor = 1024;
}

unfoldable pub si : UnitType
si = record {
  units = [] ∷ codes "K" ∷ codes "M" ∷ codes "G" ∷ codes "T" ∷ codes "P" ∷ codes "E" ∷ [];
  space = false;
  divisor = 1000;
}

-- A name that `TYPES` does not have gives no units.
unfoldable pub get_type : Text → UnitType
get_type name =
    if same_text name (codes "numeric")
    then numeric
    else if same_text name (codes "percentage")
    then percentage
    else if same_text name (codes "decimalBytes")
    then decimal_bytes
    else if same_text name (codes "binaryBytes")
    then binary_bytes
    else if same_text name (codes "binaryBytesWithoutB")
    then binary_bytes_without_b
    else if same_text name (codes "SI")
    then si
    else record { units = []; space = false; divisor = 1000 }

-- `unitArray.slice(unitArray.indexOf(unit))`: a unit that is not there has the index -1, from which
-- the slice is the last unit.
unfoldable pub from_unit : Text → List Text → List Text
from_unit unit [] = []
from_unit unit (u ∷ []) = u ∷ []
from_unit unit (u ∷ t ∷ us) =
    let later = from_unit unit (t ∷ us) in if same_text u unit then u ∷ t ∷ us else later

-- `indexOf` on a text
unfoldable pub text_index : Text → Text → Option ℕ
text_index [] t = if null t then some 0 else none
text_index (c ∷ s) t =
    let later = text_index s t in if starts_with (c ∷ s) t then some 0 else next later
  where
    next : Option ℕ → Option ℕ
    next none = none
    next (some i) = some (suc i)

unfoldable pub reverse : List Text → List Text
reverse [] = []
reverse (u ∷ us) = reverse us ++ u ∷ []

-- The first unit that the text holds: its index and where the text is cut.
unfoldable pub find_unit : Text → List Text → Option (ℕ × ℕ)
find_unit s [] = none
find_unit s (u ∷ us) = here (text_index s u) (find_unit s us)
  where
    here : Option ℕ → Option (ℕ × ℕ) → Option (ℕ × ℕ)
    here (some at) later = some (0, at)
    here none (some (i, at)) = some (suc i, at)
    here none none = none

module _ (numbers : Numbers) where
  open numbers use {
    Num, of_nat, at_least, divide, times, is_negative, is_finite, round, parse_float, to_number,
    print,
  }

  -- A value and its unit, which is undefined where there are no units.
  pub record Converted : Type 0 where
    pub amount : Num
    pub unit : Option Text

  -- The loop, which takes one unit off the list in each round.
  unfoldable pub convert_from : Num → Text → List Text → Num → Converted
  convert_from amount unit [] divisor = record { amount = amount; unit = some unit }
  convert_from amount unit (u ∷ units) divisor =
      let bigger = convert_from (divide amount divisor) u units divisor in
      if at_least amount divisor then bigger else record { amount = amount; unit = some unit }

  unfoldable pub convert_in : Num → List Text → Num → Converted
  convert_in amount [] divisor = record { amount = amount; unit = none }
  convert_in amount (u ∷ units) divisor = convert_from amount u units divisor

  unfoldable pub convert_base_value_to_units : Num → List Text → Num → Option Text → Converted
  convert_base_value_to_units amount units divisor none = convert_in amount units divisor
  convert_base_value_to_units amount units divisor (some initial) =
      if null initial
      then convert_in amount units divisor
      else convert_in amount (from_unit initial units) divisor

  -- A text that is not parsed is returned as it is.
  pub data BaseValue : Type 0 where
    unparsed : Text → BaseValue
    parsed : Num → Option Text → BaseValue

  unfoldable pub scale_up : Num → Text → List Text → Num → BaseValue
  scale_up amount unit [] divisor = parsed amount (some unit)
  scale_up amount unit (u ∷ units) divisor = scale_up (times amount divisor) u units divisor

  unfoldable pub base_value_at : Text → List Text → Num → Option (ℕ × ℕ) → BaseValue
  base_value_at s units divisor none = unparsed s
  base_value_at s units divisor (some (zero, at)) = unparsed s
  base_value_at s units divisor (some (suc i, at)) = from (drop (suc i) units)
    where
      from : List Text → BaseValue
      from [] = parsed (to_number (take at s)) none
      from (u ∷ us) = scale_up (to_number (take at s)) u us divisor

  -- On a text; a value that is no text is returned as it is.
  unfoldable pub convert_value_with_units_to_base_value : Text → List Text → Num → BaseValue
  convert_value_with_units_to_base_value s unit_array divisor =
      base_value_at s (reverse unit_array) divisor (find_unit s (reverse unit_array))

  unfoldable pub dehumanize : Text → UnitType → BaseValue
  dehumanize s type = convert_value_with_units_to_base_value s type.units (of_nat type.divisor)

  unfoldable pub multiplier : Num → Num
  multiplier v =
      if at_least v (of_nat 100)
      then of_nat 10
      else if at_least v (of_nat 1)
      then of_nat 100
      else of_nat 1000

  unfoldable pub round_value : Num → Num
  round_value v =
      if not (is_finite v) then of_nat 0 else divide (round (times v (multiplier v))) (multiplier v)

  unfoldable pub rounded : UnitType → Converted → Converted
  rounded type c =
      convert_base_value_to_units (round_value c.amount) type.units (of_nat type.divisor) c.unit

  abbrev pub unit_text : Option Text → Text
  unit_text none = codes "undefined"
  unit_text (some u) = u

  abbrev pub spaced : Bool → Option Text → Option Text
  spaced b none = none
  spaced b (some u) = if b && not (null u) then some (0x20 ∷ u) else some u

  unfoldable pub humanize_parts : Num → UnitType → Bool → Converted
  humanize_parts v type use_round =
      let start = if is_finite v then v else of_nat 0 in
      let converted = convert_base_value_to_units start type.units (of_nat type.divisor) none in
      let result = if use_round then rounded type converted else converted in
      record result { unit = spaced type.space result.unit }

  unfoldable pub humanize : Num → UnitType → Bool → Text
  humanize v type use_round =
      let parts = humanize_parts v type use_round in print parts.amount ++ unit_text parts.unit

  unfoldable pub humanize_mem : Num → Text
  humanize_mem v = humanize v (get_type (codes "binaryBytes")) true

  unfoldable pub humanize_cpu : Num → Text
  humanize_cpu v = humanize v (get_type (codes "numeric")) true

  unfoldable pub humanize_number : Num → Text
  humanize_number v = humanize v (get_type (codes "numeric")) true
