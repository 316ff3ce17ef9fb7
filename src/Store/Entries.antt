-- ===== src/Store/Entries.antt =====
-- The whole state of the watches refines independent histories, one for each name of each list
-- (frontend/public/module/k8s/k8s-reducers.ts).
use web_ui.Base.{◌≡◌, refl, ap, ◌∙◌, Option, none, some, List, [], ◌∷◌}
use mathlib.Core.Option.{none-ne-some}
use web_ui.Base.Text.{Text}
use web_ui.Selector.Scan.{◌>>=◌}
use web_ui.Store.Maps.{Maps}
use web_ui.Store.Lists.{Resource}
use web_ui.Store.Reducer.{
  Store, Action, get_resources_in_flight, set_api_groups, filter_list, watch_object, modify_object,
  watch_list, stop_watch, loaded_list, update_list_from_ws, bulk_add_to_list, errored, data_of, put,
  set_filter, new_object, set_error, start_list, reduce, reduce_all,
}
use web_ui.Store.Views.{
  absent, object_seen, happens, happens_all, view, view-result, view-rewritten, view-written,
  view-load, view-update_from_ws, view-bulk, view-modify, view-start_list, view-set_error,
}

-- Every action that returns a state does to each name of each id what the specification says, whatever
-- the maps are: the other ids stay as they are, and so do the data of an id whose load failed.
pub view-reduce :
    (maps : Maps Resource) (s t : Store maps.Map) (i k : Text) (a : Action)
    → reduce maps s a ≡ some t
    → view maps t i k ≡ happens i k (view maps s i k) a
unfolding reduce happens set_filter new_object
view-reduce maps s t i k get_resources_in_flight e = view-result maps i k _ t e
view-reduce maps s t i k (set_api_groups n) e = view-result maps i k _ t e
view-reduce maps s t i k (filter_list j name value) e =
    view-result maps i k (set_filter j name value s) t e ∙ view-rewritten maps i j k _ s refl
view-reduce maps s t i k (watch_object j) e =
    view-result maps i k (put j (some new_object) s) t e
    ∙ view-written maps i j k (some new_object) s (λ _. object_seen) refl
view-reduce maps s t i k (modify_object j r) e =
    view-modify maps i j k r s t (data_of (s.entries j)) refl e
view-reduce maps s t i k (watch_list j) e =
    view-result maps i k (start_list maps j s (data_of (s.entries j))) t e
    ∙ view-start_list maps i j k s (data_of (s.entries j)) refl
view-reduce maps s t i k (stop_watch j) e =
    view-result maps i k (put j none s) t e ∙ view-written maps i j k none s (λ _. absent) refl
view-reduce maps s t i k (loaded_list j rs) e =
    view-load maps i j k rs s t (data_of (s.entries j)) refl e
view-reduce maps s t i k (update_list_from_ws j es) e =
    view-update_from_ws maps i j k es s t (data_of (s.entries j)) refl e
view-reduce maps s t i k (bulk_add_to_list j rs) e =
    view-bulk maps i j k rs s t (data_of (s.entries j)) refl e
view-reduce maps s t i k (errored j m) e =
    view-result maps i k (set_error j m s (data_of (s.entries j))) t e
    ∙ view-set_error maps i j k m s (data_of (s.entries j))

-- The same of a sequence of actions.
pub view-reduce_all :
    (maps : Maps Resource) (s t : Store maps.Map) (i k : Text) (as_done : List Action)
    → reduce_all maps s as_done ≡ some t
    → view maps t i k ≡ happens_all i k (view maps s i k) as_done
unfolding reduce_all happens_all
view-reduce_all maps s t i k [] e = view-result maps i k s t e
view-reduce_all maps s t i k (a ∷ later) e =
    go (reduce maps s a) refl e (λ u. view-reduce_all maps u t i k later)
  where
    go :
        (o : Option (Store maps.Map))
        → reduce maps s a ≡ o
        → (o >>= λ u. reduce_all maps u later) ≡ some t
        → ((u : Store maps.Map)
            → reduce_all maps u later ≡ some t
            → view maps t i k ≡ happens_all i k (view maps u i k) later)
        → view maps t i k ≡ happens_all i k (happens i k (view maps s i k) a) later
    go none q e rest = absurd (none-ne-some t e)
    go (some u) q e rest =
        rest u e ∙ ap (λ o. happens_all i k o later) (view-reduce maps s u i k a q)
