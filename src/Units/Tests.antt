-- ===== src/Units/Tests.antt =====
-- Values at concrete numbers, which are the natural ones here.
use web_ui.Base.{ℕ, ◌/◌, ◌*◌, ◌≡◌, refl, leb, true, false, none, some, [], ◌∷◌}
use web_ui.Base.Text.{codes, starts_with, same_text, is_space}
use web_ui.Base.Decimal.{show, show_from, value, value_from}
use web_ui.Units.Numbers.{Numbers}
use web_ui.Units.Convert.{
  binary_bytes, numeric, get_type, from_unit, text_index, reverse, find_unit, convert_from,
  convert_in, convert_base_value_to_units, parsed, scale_up, base_value_at,
  convert_value_with_units_to_base_value, dehumanize, multiplier, round_value, rounded,
  humanize_parts, humanize, humanize_mem,
}
use web_ui.Units.Validate.{
  split_unit, base_united_validation, validate_unit, validate_number, checked, validate_with,
  validate_cpu, validate_time, validate_memory, unrecognized_unit,
}
use web_ui.Units.Laws.{Scaled, convert_in-Scaled}

values : Unit {0}
unfolding starts_with same_text is_space show show_from value value_from binary_bytes numeric
    get_type from_unit text_index reverse find_unit convert_from convert_in
    convert_base_value_to_units scale_up base_value_at convert_value_with_units_to_base_value
    dehumanize multiplier round_value rounded humanize_parts humanize humanize_mem split_unit
    base_united_validation validate_unit validate_number checked validate_with validate_cpu
    validate_time validate_memory
values = tt

abbrev naturals : Numbers
naturals = record {
  Num = ℕ;
  of_nat = λ n. n;
  at_least = λ a b. leb b a;
  divide = λ a b. a / b;
  times = λ a b. a * b;
  is_negative = λ n. false;
  is_finite = λ n. true;
  round = λ n. n;
  parse_float = value;
  to_number = value;
  print = show;
}

convert_in-Scaled_example :
    Scaled naturals 1024 3000
      (codes "B" ∷ codes "KiB" ∷ [])
      (convert_in naturals 3000 (codes "B" ∷ codes "KiB" ∷ []) 1024)
convert_in-Scaled_example = convert_in-Scaled naturals 1024 3000 (codes "B") (codes "KiB" ∷ [])

mem : humanize_mem naturals 2048 ≡ codes "2 KiB"
unfolding values
mem = refl

kib : dehumanize naturals (codes "2KiB") binary_bytes ≡ parsed 2048 (some (codes "B"))
unfolding values
kib = refl

bad_unit : validate_cpu naturals (codes "5x") ≡ some (unrecognized_unit (codes "x"))
unfolding values
bad_unit = refl

good_memory : validate_memory naturals (codes "5Gi") ≡ none
unfolding values
good_memory = refl
