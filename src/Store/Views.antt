-- ===== src/Store/Views.antt =====
-- The whole state of the watches as independent histories: one for each name of each list
-- (frontend/public/module/k8s/k8s-reducers.ts).
use web_ui.Base.{
  ◌≡◌, refl, sym, ap, ◌∙◌, true, false, Option, none, some, List, [], ◌∷◌, if◌then◌else◌, ◌⊎◌,
  Bool-cases, inl, inr,
}
use mathlib.Core.Option.{some-injective, none-ne-some}
use web_ui.Base.Text.{Text, same_text, same_text_iff}
use web_ui.Store.Maps.{Maps, or_first}
use web_ui.Store.Lists.{
  Resource, qn, same_but_version, WatchEvent, load_list, apply_events, collect, bulk_add,
}
use web_ui.Store.Loading.{newest, names_any, get-load_list}
use web_ui.Store.Events.{happen_all, get-apply_events}
use web_ui.Store.Reducer.{
  Data, no_data, list_data, object_data, Entry, Store, Action, watch_object, modify_object,
  watch_list, stop_watch, loaded_list, update_list_from_ws, bulk_add_to_list, or_blank, data_of,
  put, put_list, merge_object, modify, set_error, set_loaded, start_list, load, update_from_ws,
  bulk, only_unknown,
}

-- What can be seen of one name of one id.
pub data Seen : Type 0 where
  absent object_seen : Seen
  listed : Option Resource → Seen

-- The last object of the name.
abbrev pub last_named : Text → List Resource → Option Resource
last_named k [] = none
last_named k (r ∷ rs) = or_first (last_named k rs) (if same_text k (qn r) then some r else none)

abbrev pub started : Seen → Seen
started absent = listed none
started o = o

abbrev pub on_listed : (Option Resource → Option Resource) → Seen → Seen
on_listed f (listed c) = listed (f c)
on_listed f o = o

abbrev pub loaded_at : Text → List Resource → Option Resource → Option Resource
loaded_at k rs c = if names_any k rs then newest k c rs else none

abbrev pub bulk_at : Text → List Resource → Option Resource → Option Resource
bulk_at k rs c = or_first (last_named k rs) c

abbrev pub when_same : Text → Text → (Seen → Seen) → Seen → Seen
when_same i j f o = if same_text i j then f o else o

-- The specification: what an action makes of one name `k` of one id `i`.
unfoldable pub happens : Text → Text → Seen → Action → Seen
happens i k o (watch_object j) = when_same i j (λ _. object_seen) o
happens i k o (modify_object j r) = when_same i j (λ _. object_seen) o
happens i k o (watch_list j) = when_same i j started o
happens i k o (stop_watch j) = when_same i j (λ _. absent) o
happens i k o (loaded_list j rs) = when_same i j (on_listed (loaded_at k rs)) o
happens i k o (update_list_from_ws j es) = when_same i j (on_listed (λ c. happen_all k c es)) o
happens i k o (bulk_add_to_list j rs) = when_same i j (on_listed (bulk_at k rs)) o
happens i k o _ = o

unfoldable pub happens_all : Text → Text → Seen → List Action → Seen
happens_all i k o [] = o
happens_all i k o (a ∷ later) = happens_all i k (happens i k o a) later

module _ (maps : Maps Resource) where
  open maps use {Map, empty, get}

  abbrev pub seen_of : Text → Data Map → Seen
  seen_of k no_data = absent
  seen_of k (list_data list) = listed (get k list)
  seen_of k (object_data o) = object_seen

  abbrev pub view : Store Map → Text → Text → Seen
  view s i k = seen_of k (data_of (s.entries i))

  get-collect :
      (k : Text) (m : Map) (rs : List Resource)
      → get k (collect maps m rs) ≡ or_first (last_named k rs) (get k m)
  unfolding collect
  get-collect k m [] = refl
  get-collect k m (r ∷ rs) =
      get-collect k (maps.set (qn r) r m) rs
      ∙ ap (or_first (last_named k rs)) (maps.get_set k (qn r) r m)
      ∙ shift (last_named k rs) (Bool-cases (same_text k (qn r)))
    where
      shift :
          (o : Option Resource)
          → (same_text k (qn r) ≡ true) ⊎ (same_text k (qn r) ≡ false)
          → or_first o (if same_text k (qn r) then some r else get k m)
            ≡ or_first (or_first o (if same_text k (qn r) then some r else none)) (get k m)
      shift (some c) d = refl
      shift none (inl e) = rw e refl
      shift none (inr e) = rw e refl

  get-bulk_add :
      (k : Text) (list : Map) (rs : List Resource)
      → get k (bulk_add maps list rs) ≡ bulk_at k rs (get k list)
  unfolding bulk_add
  get-bulk_add k list rs =
      maps.get_merge k list (collect maps empty rs)
      ∙ ap (λ o. or_first o (get k list))
          (get-collect k empty rs
            ∙ ap (or_first (last_named k rs)) (maps.get_empty k)
            ∙ unit (last_named k rs))
    where
      unit : (o : Option Resource) → or_first o none ≡ o
      unit none = refl
      unit (some c) = refl

  view-put :
      (i j k : Text) (e : Option (Entry Map)) (s : Store Map)
      → view (put j e s) i k ≡ (if same_text i j then seen_of k (data_of e) else view s i k)
  unfolding put
  view-put i j k e s = elim (Bool-cases (same_text i j)) [
    | inl same ↦ rw same refl
    | inr other ↦ rw other refl
  ]

  view-same : (i j k : Text) (s : Store Map) → same_text i j ≡ true → view s i k ≡ view s j k
  view-same i j k s e = ap (λ h. view s h k) ((same_text_iff i j).0 e)

  -- An entry written at an id, with what is seen of it from what was seen there.
  pub view-written :
      (i j k : Text) (e : Option (Entry Map)) (s : Store Map) (f : Seen → Seen)
      → seen_of k (data_of e) ≡ f (view s j k)
      → view (put j e s) i k ≡ when_same i j f (view s i k)
  view-written i j k e s f h = view-put i j k e s ∙ elim (Bool-cases (same_text i j)) [
    | inl same ↦ rw same (h ∙ ap f (sym (view-same i j k s same)))
    | inr other ↦ rw other refl
  ]

  -- Nothing written, where the specification says so too.
  view-kept :
      (i j k : Text) (s : Store Map) (f : Seen → Seen)
      → view s j k ≡ f (view s j k)
      → view s i k ≡ when_same i j f (view s i k)
  view-kept i j k s f h = elim (Bool-cases (same_text i j)) [
    | inl same ↦ rw same (view-same i j k s same ∙ h ∙ ap f (sym (view-same i j k s same)))
    | inr other ↦ rw other refl
  ]

  pub view-result : (i k : Text) (s t : Store Map) → some s ≡ some t → view t i k ≡ view s i k
  view-result i k s t e = ap (λ u. view u i k) (sym (some-injective s t e))

  seen-or_blank :
      (k : Text) (o : Option (Entry Map)) → seen_of k (or_blank o).content ≡ seen_of k (data_of o)
  seen-or_blank k none = refl
  seen-or_blank k (some e) = refl

  -- An entry written with the data that was there.
  pub view-rewritten :
      (i j k : Text) (e : Entry Map) (s : Store Map)
      → e.content ≡ (or_blank (s.entries j)).content
      → view (put j (some e) s) i k ≡ view s i k
  view-rewritten i j k e s h = view-put i j k (some e) s ∙ elim (Bool-cases (same_text i j)) [
    | inl same ↦
        rw same (ap (seen_of k) h ∙ seen-or_blank k (s.entries j) ∙ sym (view-same i j k s same))
    | inr other ↦ rw other refl
  ]

  view-put_list :
      (i j k : Text) (list : Map) (s : Store Map) (c : Option Resource)
      (f : Option Resource → Option Resource)
      → view s j k ≡ listed c
      → get k list ≡ f c
      → view (put_list j list s) i k ≡ when_same i j (on_listed f) (view s i k)
  unfolding put_list
  view-put_list i j k list s c f q h =
      view-written i j k _ s (on_listed f) (ap listed h ∙ sym (ap (on_listed f) q))

  view-set_loaded : (i j k : Text) (s : Store Map) → view (set_loaded j s) i k ≡ view s i k
  unfolding set_loaded
  view-set_loaded i j k s = view-rewritten i j k _ s refl

  pub view-load :
      (i j k : Text) (rs : List Resource) (s t : Store Map) (d : Data Map)
      → data_of (s.entries j) ≡ d
      → load maps j rs s d ≡ some t
      → view t i k ≡ when_same i j (on_listed (loaded_at k rs)) (view s i k)
  unfolding load
  view-load i j k rs s t no_data q e =
      view-result i k s t e ∙ view-kept i j k s (on_listed (loaded_at k rs)) (rw q refl)
  view-load i j k rs s t (list_data list) q e =
      view-result i k (put_list j (load_list maps list rs) (set_loaded j s)) t e
      ∙ view-put_list i j k (load_list maps list rs) (set_loaded j s) (get k list) (loaded_at k rs)
          (view-set_loaded j j k s ∙ ap (seen_of k) q) (get-load_list maps k list rs)
      ∙ ap (when_same i j (on_listed (loaded_at k rs))) (view-set_loaded i j k s)
  view-load i j k rs s t (object_data o) q e = absurd (none-ne-some t e)

  pub view-update_from_ws :
      (i j k : Text) (es : List WatchEvent) (s t : Store Map) (d : Data Map)
      → data_of (s.entries j) ≡ d
      → update_from_ws maps j es s d ≡ some t
      → view t i k ≡ when_same i j (on_listed (λ c. happen_all k c es)) (view s i k)
  unfolding update_from_ws
  view-update_from_ws i j k es s t no_data q e = elim (Bool-cases (only_unknown es)) [
    | inl quiet ↦
        view-result i k (put j (some (or_blank (s.entries j))) s) t (sym (rw quiet refl) ∙ e)
        ∙ view-rewritten i j k (or_blank (s.entries j)) s refl
        ∙ view-kept i j k s (on_listed (λ c. happen_all k c es)) (rw q refl)
    | inr known ↦ absurd (none-ne-some t (sym (rw known refl) ∙ e))
  ]
  view-update_from_ws i j k es s t (list_data list) q e =
      view-result i k (put_list j (apply_events maps list es) s) t e
      ∙ view-put_list i j k (apply_events maps list es) s (get k list) (λ c. happen_all k c es)
          (ap (seen_of k) q) (get-apply_events maps k list es)
  view-update_from_ws i j k es s t (object_data o) q e = absurd (none-ne-some t e)

  pub view-bulk :
      (i j k : Text) (rs : List Resource) (s t : Store Map) (d : Data Map)
      → data_of (s.entries j) ≡ d
      → bulk maps j rs s d ≡ some t
      → view t i k ≡ when_same i j (on_listed (bulk_at k rs)) (view s i k)
  unfolding bulk
  view-bulk i j k rs s t no_data q e =
      view-result i k s t e ∙ view-kept i j k s (on_listed (bulk_at k rs)) (rw q refl)
  view-bulk i j k rs s t (list_data list) q e =
      view-result i k (put_list j (bulk_add maps list rs) s) t e
      ∙ view-put_list i j k (bulk_add maps list rs) s (get k list) (bulk_at k rs) (ap (seen_of k) q)
          (get-bulk_add k list rs)
  view-bulk i j k rs s t (object_data o) q e = absurd (none-ne-some t e)

  pub view-modify :
      (i j k : Text) (r : Resource) (s t : Store Map) (d : Data Map)
      → data_of (s.entries j) ≡ d
      → modify j r s d ≡ some t
      → view t i k ≡ when_same i j (λ _. object_seen) (view s i k)
  unfolding modify merge_object
  view-modify i j k r s t no_data q e =
      view-result i k (merge_object j r s) t e ∙ view-written i j k _ s (λ _. object_seen) refl
  view-modify i j k r s t (object_data none) q e =
      view-result i k (merge_object j r s) t e ∙ view-written i j k _ s (λ _. object_seen) refl
  view-modify i j k r s t (object_data (some c)) q e = elim (Bool-cases (same_but_version c r)) [
    | inl same ↦
        view-result i k s t (sym (rw same refl) ∙ e)
        ∙ view-kept i j k s (λ _. object_seen) (ap (seen_of k) q)
    | inr other ↦
        view-result i k (merge_object j r s) t (sym (rw other refl) ∙ e)
        ∙ view-written i j k _ s (λ _. object_seen) refl
  ]
  view-modify i j k r s t (list_data list) q e = absurd (none-ne-some t e)

  pub view-start_list :
      (i j k : Text) (s : Store Map) (d : Data Map)
      → data_of (s.entries j) ≡ d
      → view (start_list maps j s d) i k ≡ when_same i j started (view s i k)
  unfolding start_list
  view-start_list i j k s no_data q =
      view-written i j k _ s started (ap listed (maps.get_empty k) ∙ rw q refl)
  view-start_list i j k s (list_data list) q = view-kept i j k s started (rw q refl)
  view-start_list i j k s (object_data o) q = view-kept i j k s started (rw q refl)

  pub view-set_error :
      (i j k : Text) (m : Text) (s : Store Map) (d : Data Map)
      → view (set_error j m s d) i k ≡ view s i k
  unfolding set_error
  view-set_error i j k m s no_data = refl
  view-set_error i j k m s (list_data list) = view-rewritten i j k _ s refl
  view-set_error i j k m s (object_data o) = view-rewritten i j k _ s refl
