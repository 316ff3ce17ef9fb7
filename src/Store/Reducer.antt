-- ===== src/Store/Reducer.antt =====
-- frontend/public/module/k8s/k8s-reducers.ts: the state of all watches and what each action makes of it.
use web_ui.Base.{ℕ, Bool, true, false, Option, none, some, List, [], ◌∷◌, if◌then◌else◌}
use web_ui.Base.Text.{Text, same_text}
use web_ui.Selector.Scan.{◌>>=◌}
use web_ui.Store.Maps.{Maps}
use web_ui.Store.Lists.{
  Resource, same_but_version, WatchEvent, unknown, load_list, apply_events, bulk_add,
}

-- The data of an entry: not set, a list, or an object. The empty object literal of a new watch is
-- `object_data none`.
pub data Data (M : Type 0) : Type 0 where
  no_data : Data M
  list_data : M → Data M
  object_data : Option Resource → Data M

-- An entry; what is not set is `none`. `selected` is always null.
pub record Entry (M : Type 0) : Type 0 where
  pub load_error : Option Text
  pub loaded : Option Bool
  pub content : Data M
  pub filters : Text → Option Text

-- The entries by id, beside the part of RESOURCES that the watches use.
pub record Store (M : Type 0) : Type 0 where
  pub entries : Text → Option (Entry M)
  pub in_flight : Bool
  pub api_groups : Option ℕ

pub data Action : Type 0 where
  get_resources_in_flight : Action
  set_api_groups : ℕ → Action
  filter_list : Text → Text → Text → Action
  watch_object : Text → Action
  modify_object : Text → Resource → Action
  watch_list : Text → Action
  stop_watch : Text → Action
  loaded_list : Text → List Resource → Action
  update_list_from_ws : Text → List WatchEvent → Action
  bulk_add_to_list : Text → List Resource → Action
  errored : Text → Text → Action

abbrev pub no_filters : Text → Option Text
no_filters k = none

module _ {M : Type 0} where
  abbrev pub blank : Entry M
  blank = record { load_error = none; loaded = none; content = no_data; filters = no_filters }

  -- The entry that `setIn`, `mergeIn` and `mergeDeep` start from.
  abbrev pub or_blank : Option (Entry M) → Entry M
  or_blank none = blank
  or_blank (some e) = e

  -- `state.getIn([id, 'data'])`
  abbrev pub data_of : Option (Entry M) → Data M
  data_of none = no_data
  data_of (some e) = e.content

  unfoldable pub put : Text → Option (Entry M) → Store M → Store M
  put id e s = record {
    entries = λ k. if same_text k id then e else s.entries k;
    in_flight = s.in_flight;
    api_groups = s.api_groups;
  }

  -- `setIn([id, 'data'], newList)`
  unfoldable pub put_list : Text → M → Store M → Store M
  unfolding put
  put_list id list s =
      let e = or_blank (s.entries id) in
      put id
        (some record {
          load_error = e.load_error;
          loaded = e.loaded;
          content = list_data list;
          filters = e.filters;
        })
        s

  unfoldable pub set_filter : Text → Text → Text → Store M → Store M
  unfolding put
  set_filter id name value s =
      let e = or_blank (s.entries id) in
      put id
        (some record {
          load_error = e.load_error;
          loaded = e.loaded;
          content = e.content;
          filters = λ k. if same_text k name then some value else e.filters k;
        })
        s

  unfoldable pub new_object : Entry M
  new_object = record {
    load_error = some [];
    loaded = some false;
    content = object_data none;
    filters = no_filters;
  }

  -- `mergeIn([id], {loadError: '', loaded: true, data: k8sObjects})`
  unfoldable pub merge_object : Text → Resource → Store M → Store M
  unfolding put
  merge_object id r s =
      put id
        (some record {
          load_error = some [];
          loaded = some true;
          content = object_data (some r);
          filters = (or_blank (s.entries id)).filters;
        })
        s

  -- An object is compared with the new one under the new version; the names of a list have no metadata to
  -- set a version in, which throws.
  unfoldable pub modify : Text → Resource → Store M → Data M → Option (Store M)
  modify id r s no_data = some (merge_object id r s)
  modify id r s (object_data none) = some (merge_object id r s)
  modify id r s (object_data (some c)) =
      if same_but_version c r then some s else some (merge_object id r s)
  modify id r s (list_data list) = none

  unfoldable pub set_error : Text → Text → Store M → Data M → Store M
  unfolding put
  set_error id message s no_data = s
  set_error id message s _ =
      let e = or_blank (s.entries id) in
      put id
        (some record {
          load_error = some message;
          loaded = e.loaded;
          content = e.content;
          filters = e.filters;
        })
        s

  -- `mergeDeep({[id]: {loaded: true, loadError: ''}})`
  unfoldable pub set_loaded : Text → Store M → Store M
  unfolding put
  set_loaded id s =
      let e = or_blank (s.entries id) in
      put id
        (some record {
          load_error = some [];
          loaded = some true;
          content = e.content;
          filters = e.filters;
        })
        s

abbrev pub only_unknown : List WatchEvent → Bool
only_unknown [] = true
only_unknown (unknown r ∷ es) = only_unknown es
only_unknown (_ ∷ es) = false

-- An action on a list where the data is an object has the result `none`, like one that throws.
module _ (maps : Maps Resource) where
  open maps use {Map, empty}

  unfoldable pub start_list : Text → Store Map → Data Map → Store Map
  unfolding put
  start_list id s no_data =
      put id
        (some record {
          load_error = some [];
          loaded = some false;
          content = list_data empty;
          filters = (or_blank (s.entries id)).filters;
        })
        s
  start_list id s _ = s

  unfoldable pub load : Text → List Resource → Store Map → Data Map → Option (Store Map)
  load id rs s no_data = some s
  load id rs s (list_data list) = some (put_list id (load_list maps list rs) (set_loaded id s))
  load id rs s (object_data o) = none

  -- Without a list an event of a known type throws, and unknown ones leave `data` set to undefined.
  unfoldable pub update_from_ws : Text → List WatchEvent → Store Map → Data Map → Option (Store Map)
  update_from_ws id es s no_data =
      if only_unknown es then some (put id (some (or_blank (s.entries id))) s) else none
  update_from_ws id es s (list_data list) = some (put_list id (apply_events maps list es) s)
  update_from_ws id es s (object_data o) = none

  unfoldable pub bulk : Text → List Resource → Store Map → Data Map → Option (Store Map)
  bulk id rs s no_data = some s
  bulk id rs s (list_data list) = some (put_list id (bulk_add maps list rs) s)
  bulk id rs s (object_data o) = none

  unfoldable pub reduce : Store Map → Action → Option (Store Map)
  reduce s get_resources_in_flight =
      some record { entries = s.entries; in_flight = true; api_groups = s.api_groups }
  reduce s (set_api_groups n) =
      some record { entries = s.entries; in_flight = s.in_flight; api_groups = some n }
  reduce s (filter_list id name value) = some (set_filter id name value s)
  reduce s (watch_object id) = some (put id (some new_object) s)
  reduce s (modify_object id r) = modify id r s (data_of (s.entries id))
  reduce s (watch_list id) = some (start_list id s (data_of (s.entries id)))
  reduce s (stop_watch id) = some (put id none s)
  reduce s (loaded_list id rs) = load id rs s (data_of (s.entries id))
  reduce s (update_list_from_ws id es) = update_from_ws id es s (data_of (s.entries id))
  reduce s (bulk_add_to_list id rs) = bulk id rs s (data_of (s.entries id))
  reduce s (errored id message) = some (set_error id message s (data_of (s.entries id)))

  -- The actions of a sequence, in its order.
  unfoldable pub reduce_all : Store Map → List Action → Option (Store Map)
  reduce_all s [] = some s
  reduce_all s (a ∷ later) = do t ← reduce s a; reduce_all t later

unfoldable pub initial : {M : Type 0} → Store M
initial = record { entries = λ k. none; in_flight = false; api_groups = none }
