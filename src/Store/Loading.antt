-- ===== src/Store/Loading.antt =====
-- What loading a list leaves at each name (frontend/public/module/k8s/k8s-reducers.ts, `loadList`).
use web_ui.Base.{
  ◌≡◌, refl, sym, ap, ap₂, ◌∙◌, Bool, true, false, ◌&&◌, not, Option, none, some, is_some, List, [],
  ◌∷◌, any, if◌then◌else◌, Bool-cases, inl, inr, arith,
}
use web_ui.Base.Text.{Text, same_text, same_text_iff}
use web_ui.Store.Maps.{Maps}
use web_ui.Store.Lists.{
  Resource, qn, more_recent, drop_key, load_current, load_each, delete_each, load_list,
}

-- The object that stays of two of one name: a new one replaces an old one that is less recent.
abbrev pub newer : Option Resource → Resource → Resource
newer none r = r
newer (some c) r = if more_recent r c then r else c

-- The object of a name after the objects of a response came by.
pub newest : Text → Option Resource → List Resource → Option Resource
newest k o [] = o
newest k o (r ∷ rs) = newest k (if same_text k (qn r) then some (newer o r) else o) rs

abbrev pub names_any : Text → List Resource → Bool
names_any k rs = any (λ r. same_text k (qn r)) rs

any-drop_key :
    (k j : Text) (ks : List Text)
    → any (same_text k) (drop_key j ks) ≡ (any (same_text k) ks && not (same_text k j))
any-drop_key k j [] = refl
any-drop_key k j (i ∷ ks) =
    ground (arith, any-drop_key k j ks, same_text_iff k j, same_text_iff i j, same_text_iff k i)

module _ (maps : Maps Resource) where
  open maps use {Map, empty, get, set, delete, keys, merge}

  same_name : (k j : Text) (list : Map) → same_text k j ≡ true → get k list ≡ get j list
  same_name k j list e = ap (λ i. get i list) ((same_text_iff k j).0 e)

  -- With what is stored under the object's name.
  get-load_found :
      (k : Text) (list : Map) (r : Resource) (o : Option Resource)
      → get (qn r) list ≡ o
      → get k (load_current maps list r o)
        ≡ (if same_text k (qn r) then some (newer o r) else get k list)
  unfolding load_current
  get-load_found k list r none e = maps.get_set k (qn r) r list
  get-load_found k list r (some c) e = elim (Bool-cases (more_recent r c)) [
    | inl new ↦ rw new (maps.get_set k (qn r) r list)
    | inr old ↦ rw old (elim (Bool-cases (same_text k (qn r))) [
      | inl same ↦ rw same (same_name k (qn r) list same ∙ e)
      | inr other ↦ rw other refl
    ])
  ]

  get-load_current :
      (k : Text) (list : Map) (r : Resource)
      → get k (load_current maps list r (get (qn r) list))
        ≡ (if same_text k (qn r) then some (newer (get k list) r) else get k list)
  get-load_current k list r =
      get-load_found k list r (get (qn r) list) refl ∙ elim (Bool-cases (same_text k (qn r))) [
        | inl same ↦ rw same (ap (λ o. some (newer o r)) (sym (same_name k (qn r) list same)))
        | inr other ↦ rw other refl
      ]

  get-load_each :
      (k : Text) (ks : List Text) (list : Map) (rs : List Resource)
      → get k (load_each maps ks list rs).1 ≡ newest k (get k list) rs
  unfolding load_each newest
  get-load_each k ks list [] = refl
  get-load_each k ks list (r ∷ rs) =
      get-load_each k (drop_key (qn r) ks) (load_current maps list r (get (qn r) list)) rs
      ∙ ap (λ o. newest k o rs) (get-load_current k list r)

  any-load_each :
      (k : Text) (ks : List Text) (list : Map) (rs : List Resource)
      → any (same_text k) (load_each maps ks list rs).0
        ≡ (any (same_text k) ks && not (names_any k rs))
  unfolding load_each
  any-load_each k ks list [] = ground arith
  any-load_each k ks list (r ∷ rs) =
      any-load_each k (drop_key (qn r) ks) (load_current maps list r (get (qn r) list)) rs
      ∙ ap (λ b. b && not (names_any k rs)) (any-drop_key k (qn r) ks)
      ∙ ground arith

  get-delete_each :
      (k : Text) (ks : List Text) (list : Map)
      → get k (delete_each maps ks list) ≡ (if any (same_text k) ks then none else get k list)
  unfolding delete_each
  get-delete_each k [] list = refl
  get-delete_each k (j ∷ ks) list =
      get-delete_each k ks (delete j list)
      ∙ ap (λ o. if any (same_text k) ks then none else o) (maps.get_delete k j list)
      ∙ ground arith

newest-absent :
    (k : Text) (o : Option Resource) (rs : List Resource)
    → names_any k rs ≡ false
    → newest k o rs ≡ o
unfolding newest
newest-absent k o [] h = refl
newest-absent k o (r ∷ rs) h = ground (arith, h, newest-absent k o rs)

-- After a list is loaded, a name that no object of the response has is gone, and every other name has
-- the newest of the object that was stored and those of the response, in their order.
pub get-load_list :
    (maps : Maps Resource) (k : Text) (list : maps.Map) (rs : List Resource)
    → maps.get k (load_list maps list rs)
      ≡ (if names_any k rs then newest k (maps.get k list) rs else none)
unfolding load_list
get-load_list maps k list rs =
    get-delete_each maps k (load_each maps (maps.keys list) list rs).0
      (load_each maps (maps.keys list) list rs).1
    ∙ ap₂ (λ b o. if b then none else o)
        (any-load_each maps k (maps.keys list) list rs
          ∙ ap (λ b. b && not (names_any k rs)) (maps.keys_lem k list))
        (get-load_each maps k (maps.keys list) list rs)
    ∙ stored (maps.get k list)
  where
    stored :
        (o : Option Resource)
        → (if is_some o && not (names_any k rs) then none else newest k o rs)
          ≡ (if names_any k rs then newest k o rs else none)
    stored none = ground (arith, newest-absent k none rs)
    stored (some c) = ground arith
