-- ===== src/Selector/Requirement.antt =====
-- frontend/public/module/k8s/selector-requirement.js: reading and printing one requirement.
use web_ui.Base.{Bool, Option, none, some, List, [], ◌∷◌, ◌++◌, map, if◌then◌else◌}
use web_ui.Base.Text.{Text, codes, is_space, split, join}
use web_ui.Command.{drop_last}
use web_ui.Selector.Scan.{
  is_key_char, is_decimal_char, is_list_char, skip_run, skip_run1, skip_char, skip_word,
  skip_optional, ◌>>=◌, at_end, split_two,
}

-- `malformed` stands for every other text.
pub data Operator : Type 0 where
  equals not_equals exists does_not_exist in_set not_in greater_than less_than malformed : Operator

pub record Requirement : Type 0 where
  pub key : Text
  pub operator : Operator
  pub values : List Text

unfoldable pub create_equals : Text → Text → Requirement
create_equals key value = record { key = key; operator = equals; values = value ∷ [] }

-- The separators of the splits.
unfoldable pub bang_sep : Text → Option Text
bang_sep s = do r ← skip_char b'!' s; some (skip_run is_space r)

unfoldable pub equals_sep : Text → Option Text
equals_sep s = do
  r ← skip_char b'=' (skip_run is_space s)
  some (skip_run is_space (skip_optional b'=' r))

unfoldable pub not_equals_sep : Text → Option Text
not_equals_sep s = do r ← skip_word (codes "!=") (skip_run is_space s); some (skip_run is_space r)

-- `\s+word\s+`
unfoldable pub spaced_sep : Text → Text → Option Text
spaced_sep w s = do r ← skip_run1 is_space s; r ← skip_word w r; skip_run1 is_space r

-- The tests.
unfoldable pub is_exists : Text → Bool
is_exists s = at_end (skip_run1 is_key_char s)

unfoldable pub is_does_not_exist : Text → Bool
is_does_not_exist s = at_end (do r ← bang_sep s; skip_run1 is_key_char r)

unfoldable pub is_equals : Text → Bool
is_equals s = at_end (do r ← skip_run1 is_key_char s; r ← equals_sep r; skip_run1 is_key_char r)

unfoldable pub is_not_equals : Text → Bool
is_not_equals s =
    at_end (do r ← skip_run1 is_key_char s; r ← not_equals_sep r; skip_run1 is_key_char r)

-- `\([…]+\)`
unfoldable pub in_parentheses : Text → Option Text
in_parentheses s = do r ← skip_char b'(' s; r ← skip_run1 is_list_char r; skip_char b')' r

unfoldable pub is_set : Text → Text → Bool
is_set w s = at_end (do r ← skip_run1 is_key_char s; r ← spaced_sep w r; in_parentheses r)

unfoldable pub is_comparison : Text → Text → Bool
is_comparison w s =
    at_end (do r ← skip_run1 is_key_char s; r ← spaced_sep w r; skip_run1 is_decimal_char r)

-- `parts[1]`, which the tests make sure of
abbrev pub part_one : Text × Option Text → Text
part_one (a, none) = codes "undefined"
part_one (a, some b) = b

-- slice(1, -1)
unfoldable pub slice_inner : Text → Text
slice_inner [] = []
slice_inner (c ∷ s) = drop_last s

-- `trim` of the language
unfoldable pub trim_start : Text → Text
trim_start s = skip_run is_space s

unfoldable pub trim_end : Text → Text
trim_end [] = []
trim_end (c ∷ s) = elim (trim_end s) [
  | [] ↦ (if is_space c then [] else c ∷ [])
  | d ∷ t ↦ c ∷ d ∷ t
]

unfoldable pub trim : Text → Text
trim s = trim_end (trim_start s)

-- The library's `_.trim` is a parameter.
module _ (lodash_trim : Text → Text) where
  unfoldable pub set_requirement : Operator → Text → Text → Requirement
  set_requirement op w s =
      let parts = split_two (spaced_sep w) s in
      record {
        key = parts.0;
        operator = op;
        values = map lodash_trim (split b',' (slice_inner (part_one parts)));
      }

  unfoldable pub comparison_requirement : Operator → Text → Text → Requirement
  comparison_requirement op w s =
      let parts = split_two (spaced_sep w) s in
      record { key = parts.0; operator = op; values = part_one parts ∷ [] }

  -- The body of `requirementFromString` behind its trim.
  unfoldable pub read_requirement : Text → Option Requirement
  read_requirement s =
      if is_exists s
      then some (record { key = s; operator = exists; values = [] })
      else if is_does_not_exist s
      then some
          (record { key = part_one (split_two bang_sep s); operator = does_not_exist; values = [] })
      else if is_equals s
      then some (create_equals (split_two equals_sep s).0 (part_one (split_two equals_sep s)))
      else if is_not_equals s
      then some (record {
        key = (split_two not_equals_sep s).0;
        operator = not_equals;
        values = part_one (split_two not_equals_sep s) ∷ [];
      })
      else if is_set (codes "in") s
      then some (set_requirement in_set (codes "in") s)
      else if is_set (codes "notin") s
      then some (set_requirement not_in (codes "notin") s)
      else if is_comparison (codes ">") s
      then some (comparison_requirement greater_than (codes ">") s)
      else if is_comparison (codes "<") s
      then some (comparison_requirement less_than (codes "<") s)
      else none

  unfoldable pub requirement_from_string : Text → Option Requirement
  requirement_from_string string = read_requirement (trim string)

-- `values[0]` in a template
abbrev pub value_zero : List Text → Text
value_zero [] = codes "undefined"
value_zero (v ∷ vs) = v

-- `values` is always an array here, so `toArray` changes nothing.
abbrev pub print_requirement : Operator → Text → List Text → Option Text
print_requirement equals key values = some (key ++ (codes "=" ++ value_zero values))
print_requirement not_equals key values = some (key ++ (codes "!=" ++ value_zero values))
print_requirement exists key values = some key
print_requirement does_not_exist key values = some (codes "!" ++ key)
print_requirement in_set key values =
    some (key ++ (codes " in (" ++ (join (codes ",") values ++ codes ")")))
print_requirement not_in key values =
    some (key ++ (codes " notin (" ++ (join (codes ",") values ++ codes ")")))
print_requirement greater_than key values = some (key ++ (codes " > " ++ value_zero values))
print_requirement less_than key values = some (key ++ (codes " < " ++ value_zero values))
print_requirement malformed key values = none

unfoldable pub requirement_to_string : Requirement → Option Text
requirement_to_string r = print_requirement r.operator r.key r.values
