-- ===== src/Rows/Tests.antt =====
-- Rows, and the theorem at them.
use web_ui.Base.{
  ◌≡◌, refl, Bool, true, false, not, none, some, List, [], ◌∷◌, all, filter, null, ◌⊎◌,
  if◌then◌else◌,
}
use web_ui.Base.Text.{Text, codes, same_text, starts_with}
use web_ui.Lodash.{plain_lodash}
use web_ui.Rows.{
  has, ListFilter, name_filter, pod_status, other_filter, Reads, by_status, by_kind_only,
  by_selector, passes, filter_step, get_filtered_rows,
}
use web_ui.Rows.Boxes.{CheckBoxes, mount_boxes, toggle_box, apply_filter, has-toggle_box}
use web_ui.Rows.Laws.{lets_pass, get_filtered_rows_lem}

rows : Unit {0}
unfolding by_status by_kind_only by_selector passes filter_step get_filtered_rows
rows = tt

-- Objects with a name and a phase.
abbrev reads : Reads (Text × Text)
reads = record {
  name = λ o. o.0;
  alert_rule_name_of = λ o. o.0;
  alert_rule_state_of = λ o. o.1;
  role_type = λ o. [];
  binding_type = λ o. [];
  role_ref_name = λ o. [];
  subject_kind = λ o. [];
  subject_name = λ o. [];
  field_value = λ f o. none;
  pod_phase = λ o. o.1;
  is_node_ready = λ o. true;
  kind = λ o. codes "Pod";
  status_phase = λ o. o.1;
  strategy_type = λ o. [];
  route_status_of = λ o. [];
  service_catalog_status = λ o. [];
  secret_type_of = λ o. [];
  service_class_display_name = λ o. o.0;
}

abbrev is_prefix : Text → Text → Bool
is_prefix part text = starts_with text part

abbrev pods : List (Text × Text)
pods =
    (codes "web-1", codes "Running")
    ∷ (codes "web-2", codes "Pending")
    ∷ (codes "db", codes "Running")
    ∷ []

abbrev filters : List ListFilter
filters =
    name_filter (codes "web")
    ∷ pod_status (
        some record {
          selected = some (codes "Running" ∷ []);
          offered = codes "Running" ∷ codes "Pending" ∷ [];
        })
    ∷ other_filter (codes "loadTest")
    ∷ []

left :
    get_filtered_rows reads is_prefix plain_lodash filters pods
    ≡ (codes "web-1", codes "Running") ∷ []
unfolding rows same_text starts_with
left = refl

get_filtered_rows_lem_example :
    get_filtered_rows reads is_prefix plain_lodash filters pods
    ≡ filter (λ o. all (λ f. lets_pass reads is_prefix f o) filters) pods
get_filtered_rows_lem_example = get_filtered_rows_lem reads is_prefix plain_lodash filters pods

abbrev phases : List Text
phases = codes "Running" ∷ codes "Pending" ∷ codes "Failed" ∷ []

boxes_state : Unit {0}
unfolding web_ui.Base.Text.split web_ui.Base.Text.join mount_boxes toggle_box apply_filter same_text
boxes_state = tt

-- Boxes of an address that names a phase that is not offered.
abbrev boxes : CheckBoxes
boxes = record {
  selected = codes "Running" ∷ codes "Lost" ∷ [];
  query = some (codes "Running,Lost");
}

boxes_mounted : mount_boxes (some (codes "Running,Lost")) (codes "Failed" ∷ []) ≡ boxes
unfolding boxes_state
boxes_mounted = refl

boxes_filter : apply_filter phases boxes ≡ some (codes "Running" ∷ [])
unfolding boxes_state
boxes_filter = refl

boxes_toggled : toggle_box phases (codes "Failed") boxes ≡ record {
  selected = codes "Running" ∷ codes "Lost" ∷ codes "Failed" ∷ [];
  query = some (codes "Running,Failed");
}
unfolding boxes_state
boxes_toggled = refl

-- The last box stays selected.
abbrev last_box : CheckBoxes
last_box = record { selected = codes "Running" ∷ []; query = none }

last_box_toggled : toggle_box phases (codes "Running") last_box ≡ last_box
unfolding boxes_state
last_box_toggled = refl

has-toggle_box_example :
    ((((w : Text)
          → (if same_text w (codes "Failed")
              then not (has boxes.selected (codes "Failed"))
              else has boxes.selected w)
            ≡ false)
        × toggle_box phases (codes "Failed") boxes ≡ boxes)
      ⊎ ((w : Text)
          → has ((toggle_box phases (codes "Failed") boxes).selected) w ≡ (
              if same_text w (codes "Failed")
              then not (has boxes.selected (codes "Failed"))
              else has boxes.selected w)))
    × null ((toggle_box phases (codes "Failed") boxes).selected) ≡ false
has-toggle_box_example = has-toggle_box phases (codes "Failed") boxes
