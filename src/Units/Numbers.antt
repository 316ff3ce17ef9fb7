-- ===== src/Units/Numbers.antt =====
-- The numbers of the language, as frontend/public/components/utils/units.js uses them: an interface, so
-- that nothing rests on how their operations round.
use web_ui.Base.{ℕ, Bool}
use web_ui.Base.Text.{Text}

-- `at_least` is `>=`, `is_negative` is `< 0`, `to_number` is the coercion of texts, `print` that to
-- texts, and `round` is `Math.round`.
pub record Numbers : Type 1 where
  pub Num : Type 0
  pub of_nat : ℕ → Num
  pub at_least : Num → Num → Bool
  pub divide : Num → Num → Num
  pub times : Num → Num → Num
  pub is_negative : Num → Bool
  pub is_finite : Num → Bool
  pub round : Num → Num
  pub parse_float : Text → Num
  pub to_number : Text → Num
  pub print : Num → Text
