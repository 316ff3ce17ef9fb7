-- ===== src/Ui/Actions.antt =====
-- frontend/public/ui/ui-actions.js: routes that name a namespace, and the actions.
use web_ui.Base.{
  ℕ, ◌+◌, ◌==◌, map, Bool, ◌&&◌, ◌||◌, Option, none, some, List, [], ◌∷◌, ◌++◌, length, drop, take,
  head, null, not, if◌then◌else◌, get_elem?,
}
use web_ui.Base.Text.{Text, codes, split, join, same_text}
use web_ui.Selector.Requirement.{trim}
use web_ui.Ui.Link.{slash, all_namespaces_key, is_piece, non_empty, get_ns_prefix}

abbrev pub is_all : Text → Bool
is_all ns = same_text ns all_namespaces_key

unfoldable pub format_namespaced_route_for_resource : Text → Text → Text
format_namespaced_route_for_resource resource active_namespace =
    if is_all active_namespace
    then codes "/k8s/all-namespaces/" ++ resource
    else codes "/k8s/ns/" ++ (active_namespace ++ slash ∷ resource)

-- The namespace that the pieces behind the prefix name, which is undefined behind a last `ns`, and the
-- pieces behind it.
unfoldable pub previous_namespace : List Text → Option Text × List Text
previous_namespace [] = (some [], [])
previous_namespace (p ∷ ps) =
    if same_text p (codes "all-namespaces")
    then (some all_namespaces_key, ps)
    else if same_text p (codes "ns")
    then (head ps, drop 1 ps)
    else (some [], p ∷ ps)

-- The tail goes when the namespace changes, except that of a form for a new object.
unfoldable pub kept_parts : Text → Option Text → List Text → List Text
kept_parts active previous parts =
    let is_new = is_piece (get_elem? parts 1) (codes "new") in
    if not (is_piece previous active) && (not is_new || not (is_all active))
      || is_all active && is_new
    then take 1 parts
    else parts

unfoldable pub namespace_prefix : Text → Text
namespace_prefix active = if is_all active then codes "all-namespaces" else codes "ns/" ++ active

unfoldable pub path_tail : List Text → Text
path_tail [] = []
path_tail (p ∷ ps) = slash ∷ join (slash ∷ []) (p ∷ ps)

-- `location.search` and `location.hash`, if a location is given
unfoldable pub location_tail : Option (Text × Text) → Text
location_tail none = []
location_tail (some (search, hash)) = search ++ hash

pub data Action : Type 0 where
  set_active_namespace : Text → Action
  set_current_location : Text → Action
  start_impersonate : Text → Text → Option Text → Action
  stop_impersonate : Action
  sort_list : Text → Text → Text → Text → Action
  set_create_project_message : Text → Action
  set_monitoring_rules : Bool → Option Text → Option Text → Action

-- What the actions read and write of the browser: the path, the search and the hash, the paths pushed
-- to the history, the last one first, and the remembered namespace.
pub record Browser : Type 0 where
  pub pathname : Text
  pub search : Text
  pub hash : Text
  pub pushed : List Text
  pub last_namespace : Option Text

abbrev pub push_if_some : Option Text → Text → List Text → List Text
push_if_some none path paths = paths
push_if_some (some p) path paths = path ∷ paths

module _ (base_path : Text) where
  unfoldable pub new_path : Text → Text → Text → Text
  new_path active prefix path =
      let pieces = non_empty (split slash (drop (length prefix + length base_path) path)) in
      let (previous, parts) = previous_namespace pieces in
      prefix ++ slash ∷ (namespace_prefix active ++ path_tail (kept_parts active previous parts))

  unfoldable pub rewrite_route : Text → Text → Option (Text × Text) → Option Text → Text
  rewrite_route active path location none = path
  rewrite_route active path location (some prefix) =
      new_path active prefix path ++ location_tail location

  unfoldable pub format_namespace_route : Text → Text → Option (Text × Text) → Text
  format_namespace_route active path location =
      rewrite_route active path location (get_ns_prefix base_path path)

  -- `UIActions.setActiveNamespace`, on the namespace that is active.
  unfoldable pub set_active : Option Text → Text → Browser → Browser × Action
  set_active active namespace b =
      let ns = trim namespace in
      let path = format_namespace_route ns b.pathname (some (b.search, b.hash)) in
      let pushed = push_if_some (get_ns_prefix base_path b.pathname) path b.pushed in
      let changed = record b { pushed = pushed; last_namespace = some ns } in
      (if is_piece active ns then b else changed, set_active_namespace ns)

-- `UIActions.startImpersonate` behind the encoding of the name: nothing is dispatched when another
-- name is already impersonated. `imp.kin` is a field that no state has.
unfoldable pub start_impersonation : Option Text → Text → Text → Text → Option Action
start_impersonation current kind name encoded =
    let subprotocols =
      if same_text kind (codes "User")
      then some (codes "Impersonate-User." ++ encoded)
      else if same_text kind (codes "Group")
      then some (codes "Impersonate-Group." ++ encoded)
      else none in
    elim current [
      | none ↦ some (start_impersonate kind name subprotocols)
      | some other ↦
          if not (null other) && not (same_text other name)
          then none
          else some (start_impersonate kind name subprotocols)
    ]

abbrev pub replace_char : ℕ → ℕ → ℕ → ℕ
replace_char old new c = if c == old then new else c

-- `replace(/=/g, '_').replace(/\//g, '-')`
unfoldable pub encode_name : Text → Text
encode_name base64 = map (λ c. replace_char slash b'-' (replace_char b'=' b'_' c)) base64
