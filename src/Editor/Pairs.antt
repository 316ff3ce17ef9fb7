-- ===== src/Editor/Pairs.antt =====
-- frontend/public/components/utils/name-value-editor.jsx: the operations of the two editors on their
-- pairs. Each gives the pairs that the parent is updated with.
use web_ui.Base.{
  ℕ, zero, suc, Bool, Option, none, some, List, [], ◌∷◌, ◌++◌, length, get_elem?, if◌then◌else◌,
}
use web_ui.Base.Text.{Text}

-- A value is a text or a reference, to a key of a config map or secret, or to all of one; an index is
-- there where pairs can be sorted.
pub data Value : Type 0 where
  text : Text → Value
  config_map_secret_key_ref config_map_secret_ref : Text → Text → Value

pub record Pair : Type 0 where
  pub name : Text
  pub value : Value
  pub index : Option ℕ

abbrev pub pair : Text → Value → Option ℕ → Pair
pair name value index = record { name = name; value = value; index = index }

unfoldable pub append : Bool → List Pair → List Pair
append allow_sorting pairs =
    pairs ++ pair [] (text []) (if allow_sorting then some (length pairs) else none) ∷ []

unfoldable pub append_config_map_or_secret : List Pair → List Pair
append_config_map_or_secret pairs =
    pairs ++ pair [] (config_map_secret_key_ref [] []) (some (length pairs)) ∷ []

unfoldable pub append_env_from : List Pair → List Pair
append_env_from pairs = pairs ++ pair [] (config_map_secret_ref [] []) (some (length pairs)) ∷ []

-- `splice(i, 1)`, which does nothing behind the end.
unfoldable pub splice : ℕ → List Pair → List Pair
splice i [] = []
splice zero (p ∷ ps) = ps
splice (suc i) (p ∷ ps) = p ∷ splice i ps

unfoldable pub or_one : Pair → List Pair → List Pair
or_one p [] = p ∷ []
or_one p (q ∷ ps) = q ∷ ps

unfoldable pub remove : ℕ → List Pair → List Pair
remove i pairs = or_one (pair [] (text []) none) (splice i pairs)

unfoldable pub remove_env_from : ℕ → List Pair → List Pair
remove_env_from i pairs = or_one (pair [] (config_map_secret_ref [] []) none) (splice i pairs)

-- `nameValuePairs[i] = …` at an index of the list, the only ones that rows have.
unfoldable pub assign : ℕ → Pair → List Pair → List Pair
assign i p [] = []
assign zero p (q ∷ ps) = p ∷ ps
assign (suc i) p (q ∷ ps) = q ∷ assign i p ps

pub data Part : Type 0 where
  name_part value_part : Part

unfoldable pub changed : Part → Text → Value → Pair → Pair
changed name_part t v p = record p { name = t }
changed value_part t v p = record p { value = v }

-- `_change`: an index behind the end throws. The text goes to the name, and the value to the value.
unfoldable pub change : Text → Value → ℕ → Part → List Pair → Option (List Pair)
change t v i part pairs = at (get_elem? pairs i)
  where
    at : Option Pair → Option (List Pair)
    at none = none
    at (some p) = some (assign i (changed part t v p) pairs)

unfoldable pub exchange : ℕ → ℕ → Option Pair → Option Pair → List Pair → List Pair
exchange i j (some p) (some q) pairs = assign j p (assign i q pairs)
exchange i j _ _ pairs = pairs

-- `_move`, between two indices of the list.
unfoldable pub move : ℕ → ℕ → List Pair → List Pair
move drag hover pairs = exchange drag hover (get_elem? pairs drag) (get_elem? pairs hover) pairs
