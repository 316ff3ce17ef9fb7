-- ===== src/Store/Lists.antt =====
-- frontend/public/module/k8s/k8s-reducers.ts: the lists of objects, and getQN of
-- frontend/public/module/k8s/k8s.ts.
use web_ui.Base.{
  ℕ, Bool, true, false, ◌&&◌, not, Option, none, some, List, [], ◌∷◌, ◌++◌, ltb, ◌==◌,
  if◌then◌else◌, filter,
}
use web_ui.Base.Text.{Text, same_text}
use web_ui.Store.Maps.{Maps}

-- An object of the cluster. Its times are what `Date` makes of them, and its version is what
-- `parseInt` makes of it; `none` is an invalid date and NaN, which no comparison holds of. `rest` stands for
-- all that the store only compares.
pub record Resource : Type 0 where
  pub name : Text
  pub namespace : Text
  pub uid : Text
  pub created : Option ℕ
  pub version : Option ℕ
  pub deleted : Bool
  pub rest : Text

unfoldable pub get_qn : Text → Text → Text
get_qn [] name = name
get_qn (c ∷ s) name = b'(' ∷ ((c ∷ s) ++ b')' ∷ b'-' ∷ name)

abbrev pub qn : Resource → Text
qn r = get_qn r.namespace r.name

-- `>` on numbers and dates
abbrev pub exceeds : Option ℕ → Option ℕ → Bool
exceeds (some a) (some b) = ltb b a
exceeds _ _ = false

unfoldable pub more_recent : Resource → Resource → Bool
more_recent a b =
    if same_text a.uid b.uid then exceeds a.version b.version else exceeds a.created b.created

abbrev pub same_time : Option ℕ → Option ℕ → Bool
same_time none none = true
same_time (some a) (some b) = a == b
same_time _ _ = false

abbrev pub same_flag : Bool → Bool → Bool
same_flag true b = b
same_flag false b = not b

-- `equals`, on objects whose version is deleted
unfoldable pub same_but_version : Resource → Resource → Bool
same_but_version a b =
    same_text a.name b.name
    && (same_text a.namespace b.namespace
        && (same_text a.uid b.uid
            && (same_time a.created b.created
                && (same_flag a.deleted b.deleted && same_text a.rest b.rest))))

-- An event of a watch; every other type is only reported.
pub data WatchEvent : Type 0 where
  added modified deleted_event unknown : Resource → WatchEvent

-- `Set.prototype.delete`
abbrev pub drop_key : Text → List Text → List Text
drop_key j ks = filter (λ k. not (same_text k j)) ks

module _ (maps : Maps Resource) where
  open maps use {Map, empty, get, set, delete, keys, merge}

  unfoldable pub remove_from_list : Map → Resource → Map
  remove_from_list list r = delete (qn r) list

  -- What becomes of a list whose object of the name is found or not.
  unfoldable pub update_current : Map → Resource → Option Resource → Map
  update_current list next none = set (qn next) next list
  update_current list next (some current) =
      if not (more_recent next current)
      then list
      else if same_but_version current next
      then list
      else set (qn next) next list

  unfoldable pub update_list : Map → Resource → Map
  update_list list next = update_current list next (get (qn next) list)

  unfoldable pub load_current : Map → Resource → Option Resource → Map
  load_current list next none = set (qn next) next list
  load_current list next (some current) =
      if more_recent next current then set (qn next) next list else list

  -- The first loop, over the objects, with the keys that are still to be met.
  unfoldable pub load_each : List Text → Map → List Resource → List Text × Map
  load_each existing list [] = (existing, list)
  load_each existing list (r ∷ rs) =
      load_each (drop_key (qn r) existing) (load_current list r (get (qn r) list)) rs

  -- The second loop, over the keys that were not met.
  unfoldable pub delete_each : List Text → Map → Map
  delete_each [] list = list
  delete_each (k ∷ ks) list = delete_each ks (delete k list)

  unfoldable pub load_list : Map → List Resource → Map
  load_list old rs = delete_each (load_each (keys old) old rs).0 (load_each (keys old) old rs).1

  unfoldable pub apply_event : Map → WatchEvent → Map
  apply_event list (deleted_event r) = remove_from_list list r
  apply_event list (added r) = update_list list r
  apply_event list (modified r) = update_list list r
  apply_event list (unknown r) = list

  unfoldable pub apply_events : Map → List WatchEvent → Map
  apply_events list [] = list
  apply_events list (e ∷ es) = apply_events (apply_event list e) es

  unfoldable pub collect : Map → List Resource → Map
  collect m [] = m
  collect m (r ∷ rs) = collect (set (qn r) r m) rs

  -- `bulkAddToList`
  unfoldable pub bulk_add : Map → List Resource → Map
  bulk_add list rs = merge list (collect empty rs)
