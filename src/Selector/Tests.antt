-- ===== src/Selector/Tests.antt =====
-- Label selectors at concrete texts, with the language's `trim` in the place of the library's.
use web_ui.Base.{ℕ, ◌≡◌, refl, none, some, [], ◌∷◌, arith}
use web_ui.Base.Text.{Text, codes, is_space, split, join, same_text}
use web_ui.Command.{drop_last}
use web_ui.Selector.Scan.{
  is_key_char, is_decimal_char, is_list_char, skip_run, skip_run1, skip_char, skip_word,
  skip_optional, cut, split_two,
}
use web_ui.Selector.Requirement.{
  in_set, not_in, greater_than, Requirement, create_equals, bang_sep, equals_sep, not_equals_sep,
  spaced_sep, is_exists, is_does_not_exist, is_equals, is_not_equals, is_set, is_comparison,
  in_parentheses, slice_inner, trim, trim_start, trim_end, set_requirement, comparison_requirement,
  read_requirement, requirement_from_string, requirement_to_string,
}
use web_ui.Selector.Reading.{Chars, is_solid, EndsSolid, trim_id}
use web_ui.Selector.RoundTrip.{IsWellFormed}
use web_ui.Selector.Selectors.{
  Selector, new_format, whole, selector_to_string, selector_from_string, text_leb,
}
use web_ui.Selector.Whole.{IsCanonical, selector_from_string-to_string}

selectors : Unit {0}
unfolding is_key_char is_decimal_char is_list_char skip_run skip_run1 skip_char skip_word
    skip_optional cut split_two create_equals bang_sep equals_sep not_equals_sep spaced_sep
    is_exists is_does_not_exist is_equals is_not_equals is_set is_comparison in_parentheses
    slice_inner trim trim_start trim_end set_requirement comparison_requirement read_requirement
    requirement_from_string requirement_to_string is_space split join drop_last
selectors = tt

all_EndsSolid : (c : ℕ) (s : Text) → Chars is_solid (c ∷ s) → EndsSolid (c ∷ s)
all_EndsSolid c [] (h, _) = ground arith
all_EndsSolid c (d ∷ s) (_, hs) = all_EndsSolid d s hs

trim_keeps : (s : Text) → Chars is_solid s → trim s ≡ s
trim_keeps [] h = unfold trim trim_start trim_end skip_run in refl
trim_keeps (c ∷ s) (h, hs) = trim_id c s (ground arith) (all_EndsSolid c s (h, hs))

abbrev tier : Requirement
tier = record { key = codes "tier"; operator = not_in; values = codes "web" ∷ codes "db" ∷ [] }

-- White space round the operator and inside the parentheses is read.
loose : requirement_from_string trim (codes " tier  notin (web, db )") ≡ some tier
unfolding selectors
loose = refl

doubled :
    requirement_from_string trim (codes "a == b") ≡ some (create_equals (codes "a") (codes "b"))
unfolding selectors
doubled = refl

compared :
    requirement_from_string trim (codes "size > 1.5")
    ≡ some (record { key = codes "size"; operator = greater_than; values = codes "1.5" ∷ [] })
unfolding selectors
compared = refl

refused : requirement_from_string trim (codes "a=b c") ≡ none
unfolding selectors
refused = refl

-- A second separator among the values ends the part that the values are taken from.
second_separator :
    requirement_from_string trim (codes "a in (x in y)")
    ≡ some (record { key = codes "a"; operator = in_set; values = [] ∷ [] })
unfolding selectors
second_separator = refl

tier-IsWellFormed : IsWellFormed tier
unfolding is_key_char
tier-IsWellFormed = record {
  key_run = (refl, (refl, (refl, (refl, tt))));
  fits = ((refl, (refl, (refl, tt))), ((refl, (refl, tt)), tt));
}

abbrev frontend : Selector
frontend = record {
  match_labels = (codes "app", codes "ui") ∷ (codes "env", codes "qa") ∷ [];
  match_expressions = tier ∷ [];
}

frontend-IsCanonical : IsCanonical frontend
unfolding is_key_char same_text text_leb
frontend-IsCanonical = record {
  ascending = (refl, tt);
  distinct = ((refl, tt), (tt, tt));
  labels = (
    ((refl, (refl, (refl, tt))), (refl, (refl, tt))),
    (((refl, (refl, (refl, tt))), (refl, (refl, tt))), tt),
  );
  expressions = (tier-IsWellFormed, tt);
  no_equals = (refl, tt);
}

selector_from_string-to_string_example :
    selector_from_string trim (
      selector_to_string
        (new_format (some frontend.match_labels) (some frontend.match_expressions)))
    ≡ some (whole frontend)
selector_from_string-to_string_example =
    selector_from_string-to_string trim frontend trim_keeps frontend-IsCanonical
