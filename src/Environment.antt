-- ===== src/Environment.antt =====
-- frontend/public/components/environment.jsx: the variables of the containers of an object, as pairs that
-- are edited and as patches that are sent.
use web_ui.Base.{
  ℕ, suc, ◌+◌, Bool, true, false, ◌&&◌, not, Option, none, some, List, [], ◌∷◌, ◌++◌, null, filter,
  map, if◌then◌else◌,
}
use web_ui.Base.Text.{Text, codes, join}
use web_ui.Base.Decimal.{show}
pub mod Saved
mod Tests

-- What a variable has: a text, a reference as the object `valueFrom`, or neither.
pub data EnvValue : Type 0 where
  value value_from : Text → EnvValue
  no_value : EnvValue

pub record EnvVar : Type 0 where
  pub name : Text
  pub env_value : EnvValue

-- A source of variables: a config map or a secret by a text for its reference, or neither.
pub data EnvResource : Type 0 where
  config_map_ref secret_ref : Text → EnvResource
  no_resource : EnvResource

pub record EnvSource : Type 0 where
  pub prefix : Option Text
  pub resource : EnvResource

-- A container with its variables and sources, each of which may be missing.
pub record Container : Type 0 where
  pub env : Option (List EnvVar)
  pub env_from : Option (List EnvSource)

pub record Pair : Type 0 where
  pub name : Text
  pub pair_value : EnvValue
  pub id : ℕ

-- The resource of a pair: what a source has, or the empty selection of a new row.
pub data PairResource : Type 0 where
  picked : EnvResource → PairResource
  config_map_secret_ref : PairResource

pub record FromPair : Type 0 where
  pub prefix : Text
  pub resource : PairResource
  pub id : ℕ

abbrev pub or_empty_value : EnvValue → EnvValue
or_empty_value (value t) = value t
or_empty_value (value_from t) = value_from t
or_empty_value no_value = value []

abbrev pub or_no_prefix : Option Text → Text
or_no_prefix none = []
or_no_prefix (some p) = p

unfoldable pub env_pairs_from : ℕ → List EnvVar → List Pair
env_pairs_from n [] = []
env_pairs_from n (v ∷ vs) =
    record { name = v.name; pair_value = or_empty_value v.env_value; id = n }
    ∷ env_pairs_from (suc n) vs

unfoldable pub from_pairs_from : ℕ → List EnvSource → List FromPair
from_pairs_from n [] = []
from_pairs_from n (s ∷ ss) =
    record { prefix = or_no_prefix s.prefix; resource = picked s.resource; id = n }
    ∷ from_pairs_from (suc n) ss

-- `getPairsFromObject`: one empty row where there are none to edit.
unfoldable pub env_pairs : Option (List EnvVar) → List Pair
env_pairs none = record { name = []; pair_value = value []; id = 0 } ∷ []
env_pairs (some vs) = env_pairs_from 0 vs

unfoldable pub from_pairs : Option (List EnvSource) → List FromPair
from_pairs none = record { prefix = []; resource = config_map_secret_ref; id = 0 } ∷ []
from_pairs (some ss) = from_pairs_from 0 ss

unfoldable pub get_pairs_from_object : Container → List Pair × List FromPair
get_pairs_from_object c = (env_pairs c.env, from_pairs c.env_from)

-- The data of a page: the containers of a pod, or one object.
pub data EnvData : Type 0 where
  containers : List Container → EnvData
  one_object : Container → EnvData

unfoldable pub env_vars_to_array : EnvData → List (List Pair × List FromPair)
env_vars_to_array (containers cs) = map get_pairs_from_object cs
env_vars_to_array (one_object c) = get_pairs_from_object c ∷ []

unfoldable pub env_vars_to_name_val : List Pair → List EnvVar
env_vars_to_name_val ps =
    map (λ p. record { name = p.name; env_value = p.pair_value })
      (filter (λ p. not (null p.name)) ps)

abbrev pub has_resource : PairResource → Bool
has_resource (picked (config_map_ref t)) = true
has_resource (picked (secret_ref t)) = true
has_resource (picked no_resource) = false
has_resource config_map_secret_ref = false

abbrev pub resource_of : PairResource → EnvResource
resource_of (picked r) = r
resource_of config_map_secret_ref = no_resource

unfoldable pub env_from_vars_to_resource_prefix : List FromPair → List EnvSource
env_from_vars_to_resource_prefix ps =
    map (λ p. record { prefix = some p.prefix; resource = resource_of p.resource })
      (filter (λ p. has_resource p.resource) ps)

pub record Patch (V : Type 0) : Type 0 where
  pub path : Text
  pub value_added : List V

abbrev pub is_array : EnvData → Bool
is_array (containers cs) = true
is_array (one_object c) = false

abbrev pub patch_path : Bool → Text → ℕ → Text → Text
patch_path array env_path i field =
    if array
    then b'/' ∷ (env_path ++ b'/' ∷ (show i ++ b'/' ∷ field))
    else b'/' ∷ (env_path ++ b'/' ∷ field)

unfoldable pub env_patches :
    Bool → Text → ℕ → List (List Pair × List FromPair) → List (Patch EnvVar)
env_patches array env_path i [] = []
env_patches array env_path i (p ∷ ps) =
    record {
      path = patch_path array env_path i (codes "env");
      value_added = env_vars_to_name_val p.0;
    }
    ∷ env_patches array env_path (suc i) ps

unfoldable pub env_from_patches :
    Bool → Text → ℕ → List (List Pair × List FromPair) → List (Patch EnvSource)
env_from_patches array env_path i [] = []
env_from_patches array env_path i (p ∷ ps) =
    record {
      path = patch_path array env_path i (codes "envFrom");
      value_added = env_from_vars_to_resource_prefix p.1;
    }
    ∷ env_from_patches array env_path (suc i) ps

-- The patches that are sent for the current pairs; all of them add.
unfoldable pub save_changes :
    EnvData
    → List Text
    → List (List Pair × List FromPair)
    → List (Patch EnvVar) × List (Patch EnvSource)
unfolding env_patches env_from_patches
save_changes raw env_path current = (
  env_patches (is_array raw) (join (codes "/") env_path) 0 current,
  env_from_patches (is_array raw) (join (codes "/") env_path) 0 current,
)
