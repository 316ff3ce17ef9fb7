-- ===== src/Rows.antt =====
-- frontend/public/components/factory/list.tsx: the filters of the rows of a list.
use web_ui.Base.{
  Bool, true, false, ◌&&◌, ◌||◌, not, Option, none, some, List, [], ◌∷◌, any, all, null, filter,
  if◌then◌else◌,
}
use web_ui.Base.Text.{Text, codes, same_text}
use web_ui.Lodash.{Lodash}
pub mod Laws
pub mod Boxes
mod Tests

-- What a row filter has selected, if anything is there, of all the values that it offers.
pub record Selection : Type 0 where
  pub selected : Option (List Text)
  pub offered : List Text

-- The selector of a field, with the values that pass.
pub record FieldSelector : Type 0 where
  pub field : Text
  pub values : Option (List Text)

-- The filters by their names, each with the value that it takes; `other_filter` is any other name. A
-- value that may be missing is an option.
pub data ListFilter : Type 0 where
  name_filter alert_rule_name role_binding role_binding_role_ref node_status service_class :
      Text → ListFilter
  alert_rule_state role_kind role_binding_kind : List Text → ListFilter
  selector : Option FieldSelector → ListFilter
  pod_status clusterserviceversion_resource_kind build_status build_strategy route_status
        catalog_status secret_type pvc_status :
      Option Selection → ListFilter
  other_filter : Text → ListFilter

-- What the filters read of an object, much of it computed by the parts that know the kind.
pub record Reads (O : Type 0) : Type 0 where
  pub name : O → Text
  pub alert_rule_name_of : O → Text
  pub alert_rule_state_of : O → Text
  pub role_type : O → Text
  pub binding_type : O → Text
  pub role_ref_name : O → Text
  pub subject_kind : O → Text
  pub subject_name : O → Text
  pub field_value : Text → O → Option Text
  pub pod_phase : O → Text
  pub is_node_ready : O → Bool
  pub kind : O → Text
  pub status_phase : O → Text
  pub strategy_type : O → Text
  pub route_status_of : O → Text
  pub service_catalog_status : O → Text
  pub secret_type_of : O → Text
  pub service_class_display_name : O → Text

abbrev pub has : List Text → Text → Bool
has values v = any (same_text v) values

-- A set that is missing or empty has no effect.
abbrev pub nothing_selected : Option (List Text) → Bool
nothing_selected none = true
nothing_selected (some values) = null values

abbrev pub or_nothing : Option (List Text) → List Text
or_nothing none = []
or_nothing (some values) = values

-- The filters by a status: one that is not offered cannot be deselected.
unfoldable pub by_status : Option Selection → Text → Bool
by_status none status = true
by_status (some s) status =
    if nothing_selected s.selected
    then true
    else has (or_nothing s.selected) status || not (has s.offered status)

unfoldable pub by_kind_only : Option Selection → Text → Bool
by_kind_only none kind = true
by_kind_only (some s) kind =
    if nothing_selected s.selected then true else has (or_nothing s.selected) kind

abbrev pub has_value : List Text → Option Text → Bool
has_value values none = false
has_value values (some v) = has values v

abbrev pub node_status_passes : Text → Bool → Bool
node_status_passes status is_ready =
    same_text status (codes "all")
    || (same_text status (codes "ready") && is_ready
        || same_text status (codes "notReady") && not is_ready)

abbrev pub is_filter : ListFilter → Bool
is_filter (other_filter name) = false
is_filter _ = true

-- `fuzzy` compares without regard to the case.
module _ {O : Type 0} (reads : Reads O) (fuzzy : Text → Text → Bool) where
  unfoldable pub by_selector : Option FieldSelector → O → Bool
  by_selector none o = true
  by_selector (some s) o =
      if nothing_selected s.values
      then true
      else has_value (or_nothing s.values) (reads.field_value s.field o)

  -- `listFilters[name](value, o)`; a name without a filter leaves every object.
  unfoldable pub passes : ListFilter → O → Bool
  unfolding by_status by_kind_only by_selector
  passes (name_filter text) o = fuzzy text (reads.name o)
  passes (alert_rule_name text) o = fuzzy text (reads.alert_rule_name_of o)
  passes (alert_rule_state selected) o = has selected (reads.alert_rule_state_of o)
  passes (role_kind selected) o = has selected (reads.role_type o)
  passes (role_binding_kind selected) o = has selected (reads.binding_type o)
  passes (role_binding text) o =
      any (fuzzy text)
        (reads.name o ∷ reads.role_ref_name o ∷ reads.subject_kind o ∷ reads.subject_name o ∷ [])
  passes (role_binding_role_ref ref) o = same_text (reads.role_ref_name o) ref
  passes (selector s) o = by_selector s o
  passes (pod_status s) o = by_status s (reads.pod_phase o)
  passes (node_status status) o = node_status_passes status (reads.is_node_ready o)
  passes (clusterserviceversion_resource_kind s) o = by_kind_only s (reads.kind o)
  passes (build_status s) o = by_status s (reads.status_phase o)
  passes (build_strategy s) o = by_status s (reads.strategy_type o)
  passes (route_status s) o = by_status s (reads.route_status_of o)
  passes (catalog_status s) o = by_status s (reads.service_catalog_status o)
  passes (secret_type s) o = by_status s (reads.secret_type_of o)
  passes (pvc_status s) o = by_status s (reads.status_phase o)
  passes (service_class text) o = fuzzy text (reads.service_class_display_name o)
  passes (other_filter name) o = true

  unfoldable pub filter_step : List O → ListFilter → List O
  filter_step objects f = if is_filter f then filter (passes f) objects else objects

  unfoldable pub get_filtered_rows : Lodash → List ListFilter → List O → List O
  get_filtered_rows lodash filters objects =
      if lodash.is_empty filters then objects else lodash.each filters filter_step objects
