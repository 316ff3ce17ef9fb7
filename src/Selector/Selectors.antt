-- ===== src/Selector/Selectors.antt =====
-- frontend/public/module/k8s/selector.js: label selectors and lists of requirements. An object of
-- labels is a list of its entries with different keys.
use web_ui.Base.{
  Bool, true, false, ◌&&◌, ◌||◌, not, Option, none, some, List, [], ◌∷◌, ◌++◌, map, ltb, ◌==◌,
  if◌then◌else◌, length,
}
use web_ui.Base.Text.{Text, codes, join, same_text}
use web_ui.Selector.Scan.{◌>>=◌}
use web_ui.Selector.Requirement.{
  Operator, equals, Requirement, create_equals, requirement_from_string, requirement_to_string,
  trim,
}

abbrev pub Labels : Type 0
Labels = List (Text × Text)

pub record Selector : Type 0 where
  pub match_labels : Labels
  pub match_expressions : List Requirement

-- What `toRequirements` takes: an object that is all labels, or one with either of the two fields.
pub data AnySelector : Type 0 where
  old_format : Labels → AnySelector
  new_format : Option Labels → Option (List Requirement) → AnySelector

-- labels[key] = value
unfoldable pub set_label : Text → Text → Labels → Labels
set_label k v [] = (k, v) ∷ []
set_label k v ((j, w) ∷ ls) = if same_text j k then (j, v) ∷ ls else (j, w) ∷ set_label k v ls

unfoldable pub get_label : Text → Labels → Text
get_label k [] = codes "undefined"
get_label k ((j, v) ∷ ls) = if same_text j k then v else get_label k ls

abbrev pub is_equals_operator : Operator → Bool
is_equals_operator equals = true
is_equals_operator _ = false

abbrev pub value_or_undefined : List Text → Text
value_or_undefined [] = codes "undefined"
value_or_undefined (v ∷ vs) = v

unfoldable pub add_requirement : Selector → Requirement → Selector
add_requirement s r =
    if is_equals_operator r.operator
    then record s { match_labels = set_label r.key (value_or_undefined r.values) s.match_labels }
    else record s { match_expressions = s.match_expressions ++ r ∷ [] }

-- The loop of `fromRequirements`; a requirement that is undefined throws.
unfoldable pub add_requirements : Selector → List (Option Requirement) → Option Selector
add_requirements s [] = some s
add_requirements s (none ∷ rs) = none
add_requirements s (some r ∷ rs) = add_requirements (add_requirement s r) rs

pub record FromOptions : Type 0 where
  pub undefined_when_empty : Bool
  pub basic : Bool

pub data FromResult : Type 0 where
  undefined_result : FromResult
  only_labels : Labels → FromResult
  whole : Selector → FromResult

unfoldable pub from_requirements : List (Option Requirement) → FromOptions → Option FromResult
from_requirements rs options =
    if options.undefined_when_empty && length rs == 0 then some undefined_result else do
      s ← add_requirements (record { match_labels = []; match_expressions = [] }) rs
      some (if options.basic then only_labels s.match_labels else whole s)

-- The order of `sort` on texts: by code units.
unfoldable pub text_leb : Text → Text → Bool
text_leb [] t = true
text_leb (c ∷ s) [] = false
text_leb (c ∷ s) (d ∷ t) = ltb c d || c == d && text_leb s t

unfoldable pub insert_key : Text → List Text → List Text
insert_key k [] = k ∷ []
insert_key k (j ∷ js) = if text_leb k j then k ∷ j ∷ js else j ∷ insert_key k js

unfoldable pub sort_keys : List Text → List Text
sort_keys [] = []
sort_keys (k ∷ ks) = insert_key k (sort_keys ks)

abbrev pub keys : Labels → List Text
keys ls = map (λ e. e.0) ls

unfoldable pub label_requirements : Labels → List Requirement
label_requirements ls = map (λ k. create_equals k (get_label k ls)) (sort_keys (keys ls))

abbrev pub or_empty {ℓ} : {A : Type ℓ} → Option (List A) → List A
or_empty none = []
or_empty (some xs) = xs

unfoldable pub to_requirements : AnySelector → List Requirement
to_requirements (old_format ls) = label_requirements ls
to_requirements (new_format ls es) = label_requirements (or_empty ls) ++ or_empty es

-- (?![^(]*\)): a closing parenthesis follows with no opening one before it.
unfoldable pub closes_first : Text → Bool
closes_first [] = false
closes_first (c ∷ s) = if c == b')' then true else if c == b'(' then false else closes_first s

unfoldable pub split_commas : Text → Text → List Text
split_commas cur [] = cur ∷ []
split_commas cur (c ∷ s) =
    let closed = cur ∷ split_commas [] s in
    let longer = split_commas (cur ++ c ∷ []) s in
    if c == b',' && not (closes_first s) then closed else longer

unfoldable pub split_selector : Text → List Text
split_selector s = if length (trim s) == 0 then [] else split_commas [] s

-- A requirement that cannot be printed joins as the empty text.
abbrev pub printed : Option Text → Text
printed none = []
printed (some s) = s

unfoldable pub selector_to_string : AnySelector → Text
selector_to_string s =
    join (codes ",") (map (λ r. printed (requirement_to_string r)) (to_requirements s))

module _ (lodash_trim : Text → Text) where
  unfoldable pub selector_from_string : Text → Option FromResult
  selector_from_string s =
      from_requirements (map (requirement_from_string lodash_trim) (split_selector s))
        (record { undefined_when_empty = false; basic = false })
