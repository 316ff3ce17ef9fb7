-- ===== src/Ui/Reducer.antt =====
-- frontend/public/ui/ui-reducers.js: the state of the console's frame.
use web_ui.Base.{Bool, ◌||◌, Option, none, some, List, [], ◌∷◌, null, is_some, if◌then◌else◌}
use web_ui.Base.Text.{Text, codes, same_text}
use web_ui.Ui.Link.{
  all_namespaces_key, match_legal_name, Found, undefined, null_match, found, get_namespace,
}
use web_ui.Ui.Actions.{
  Action, set_active_namespace, set_current_location, start_impersonate, stop_impersonate,
  sort_list, set_create_project_message, set_monitoring_rules,
}

pub record Impersonate : Type 0 where
  pub kind : Text
  pub name : Text
  pub subprotocols : Option Text

pub record Sort : Type 0 where
  pub field : Text
  pub func : Text
  pub order_by : Text

pub record MonitoringRules : Type 0 where
  pub loaded : Bool
  pub load_error : Option Text
  pub rules : Option Text

-- An active namespace that is `none` is null.
pub record UiState : Type 0 where
  pub active_nav_section_id : Text
  pub location : Text
  pub active_namespace : Option Text
  pub create_project_message : Text
  pub impersonate : Option Impersonate
  pub list_sorts : Text → Option Sort
  pub monitoring_rules : Option MonitoringRules

-- `||` on texts that may be missing
unfoldable pub or_text : Option Text → Option Text → Option Text
or_text none t = t
or_text (some []) t = t
or_text (some (c ∷ s)) t = some (c ∷ s)

abbrev pub text_of_found : Found → Option Text
text_of_found undefined = none
text_of_found null_match = none
text_of_found (found t) = some t

-- The stored favourite, if it could be a namespace, and else the last one that was used.
unfoldable pub stored_namespace : Option Text → Option Text → Option Text
stored_namespace none last = last
stored_namespace (some favorite) last =
    if is_some (match_legal_name favorite) || same_text favorite all_namespaces_key
    then some favorite
    else last

module _ (base_path : Text) where
  unfoldable pub initial : Text → Option Text → Option Text → UiState
  initial pathname favorite last = record {
    active_nav_section_id = codes "workloads";
    location = pathname;
    active_namespace =
        or_text
          (or_text (text_of_found (get_namespace base_path pathname))
            (stored_namespace favorite last))
          (some (codes "default"));
    create_project_message = [];
    impersonate = none;
    list_sorts = λ id. none;
    monitoring_rules = none;
  }

  unfoldable pub set_location : UiState → Text → Found → UiState
  set_location s location undefined = record s { location = location }
  set_location s location null_match = record s { location = location; active_namespace = none }
  set_location s location (found ns) = record s { location = location; active_namespace = some ns }

  unfoldable pub reduce : UiState → Action → UiState
  reduce s (set_active_namespace value) =
      if null value then s else record s { active_namespace = some value }
  reduce s (set_current_location location) =
      set_location s location (get_namespace base_path location)
  reduce s (start_impersonate kind name subprotocols) = record s {
    impersonate = some (record { kind = kind; name = name; subprotocols = subprotocols });
  }
  reduce s stop_impersonate = record s { impersonate = none }
  reduce s (sort_list id field func order_by) = record s {
    list_sorts = λ other.
        if same_text other id
        then some (record { field = field; func = func; order_by = order_by })
        else s.list_sorts other;
  }
  reduce s (set_create_project_message message) = record s { create_project_message = message }
  reduce s (set_monitoring_rules loaded load_error rules) = record s {
    monitoring_rules = some (record { loaded = loaded; load_error = load_error; rules = rules });
  }

  unfoldable pub reduce_all : UiState → List Action → UiState
  reduce_all s [] = s
  reduce_all s (a ∷ actions) = reduce_all (reduce s a) actions
