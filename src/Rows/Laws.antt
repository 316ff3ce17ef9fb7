-- ===== src/Rows/Laws.antt =====
-- Which rows are left (frontend/public/components/factory/list.tsx, `getFilteredRows`).
use web_ui.Base.{
  Option, none, some, any, null, ap₂, arith, ◌≡◌, refl, sym, ap, ◌∙◌, Bool, true, false, ◌&&◌, ◌||◌,
  not, List, [], ◌∷◌, all, filter, if◌then◌else◌, Bool-cases, inl, inr,
}
use web_ui.Base.Text.{Text, codes, same_text}
use web_ui.Lodash.{Lodash}
use web_ui.Rows.{
  Selection, FieldSelector, ListFilter, name_filter, alert_rule_name, role_binding,
  role_binding_role_ref, node_status, service_class, alert_rule_state, role_kind, role_binding_kind,
  selector, pod_status, clusterserviceversion_resource_kind, build_status, build_strategy,
  route_status, catalog_status, secret_type, pvc_status, other_filter, Reads, has, has_value,
  nothing_selected, or_nothing, by_status, by_kind_only, by_selector, passes, is_filter,
  filter_step, get_filtered_rows,
}

module _ {O : Type 0} where
  filter-filter :
      (p q : O → Bool) (xs : List O) → filter q (filter p xs) ≡ filter (λ o. p o && q o) xs
  filter-filter p q [] = refl
  filter-filter p q (x ∷ xs) = elim (Bool-cases (p x)) [
    | inl e ↦ rw e (ap (λ rest. if q x then x ∷ rest else rest) (filter-filter p q xs))
    | inr e ↦ rw e (filter-filter p q xs)
  ]

  filter-true : (xs : List O) → filter (λ o. true) xs ≡ xs
  filter-true [] = refl
  filter-true (x ∷ xs) = ap (x ∷◌) (filter-true xs)

  filter-equal : (p q : O → Bool) (xs : List O) → ((o : O) → p o ≡ q o) → filter p xs ≡ filter q xs
  filter-equal p q [] h = refl
  filter-equal p q (x ∷ xs) h =
      rw (h x) (ap (λ rest. if q x then x ∷ rest else rest) (filter-equal p q xs h))

module _ {O : Type 0} (reads : Reads O) (fuzzy : Text → Text → Bool) where
  -- A name without a filter has no say.
  abbrev pub allows : ListFilter → O → Bool
  allows f o = not (is_filter f) || passes reads fuzzy f o

  filter_step_lem :
      (objects : List O) (f : ListFilter)
      → filter_step reads fuzzy objects f ≡ filter (allows f) objects
  unfolding filter_step
  filter_step_lem objects f = go (is_filter f)
    where
      go :
          (b : Bool)
          → (if b then filter (passes reads fuzzy f) objects else objects)
            ≡ filter (λ o. not b || passes reads fuzzy f o) objects
      go true = refl
      go false = sym (filter-true objects)

  each-filter_step :
      (lodash : Lodash) (fs : List ListFilter) (objects : List O)
      → lodash.each fs (filter_step reads fuzzy) objects
        ≡ filter (λ o. all (λ f. allows f o) fs) objects
  each-filter_step lodash [] objects =
      lodash.each_nil (filter_step reads fuzzy) objects ∙ sym (filter-true objects)
  each-filter_step lodash (f ∷ fs) objects =
      lodash.each_cons f fs (filter_step reads fuzzy) objects
      ∙ each-filter_step lodash fs (filter_step reads fuzzy objects f)
      ∙ ap (filter (λ o. all (λ g. allows g o) fs)) (filter_step_lem objects f)
      ∙ filter-filter (allows f) (λ o. all (λ g. allows g o) fs) objects

rows_of_allows :
    {O : Type 0}
    → (reads : Reads O) (fuzzy : Text → Text → Bool) (lodash : Lodash) (fs : List ListFilter)
      (objects : List O)
    → get_filtered_rows reads fuzzy lodash fs objects
      ≡ filter (λ o. all (λ f. allows reads fuzzy f o) fs) objects
unfolding get_filtered_rows
rows_of_allows reads fuzzy lodash [] objects =
    rw (lodash.is_empty_nil {A = ListFilter}) (sym (filter-true objects))
rows_of_allows reads fuzzy lodash (f ∷ fs) objects =
    rw (lodash.is_empty_cons f fs) (each-filter_step reads fuzzy lodash (f ∷ fs) objects)

-- The specification of the filters. What is selected, where what is missing is empty:
abbrev pub values_of : Option (List Text) → List Text
values_of none = []
values_of (some values) = values

-- A value passes that is selected or not offered, and any value where none is selected.
abbrev pub passes_status : Option Selection → Text → Bool
passes_status none v = true
passes_status (some s) v =
    null (values_of s.selected)
    || (any (same_text v) (values_of s.selected) || all (λ w. not (same_text v w)) s.offered)

-- A value passes that is selected, and any value where none is selected.
abbrev pub passes_kind : Option Selection → Text → Bool
passes_kind none v = true
passes_kind (some s) v = null (values_of s.selected) || any (same_text v) (values_of s.selected)

abbrev pub passes_value : List Text → Option Text → Bool
passes_value values none = false
passes_value values (some v) = any (same_text v) values

not-any : (p : Text → Bool) (vs : List Text) → not (any p vs) ≡ all (λ w. not (p w)) vs
not-any p [] = refl
not-any p (v ∷ vs) = elim (Bool-cases (p v)) [ inl e ↦ rw e refl | inr e ↦ rw e (not-any p vs) ]

by_status_lem : (s : Option Selection) (v : Text) → by_status s v ≡ passes_status s v
unfolding by_status
by_status_lem none v = refl
by_status_lem (some s) v = go s.selected
  where
    go :
        (o : Option (List Text))
        → (if nothing_selected o then true else has (or_nothing o) v || not (has s.offered v)) ≡ (
            null (values_of o)
            || (any (same_text v) (values_of o) || all (λ w. not (same_text v w)) s.offered))
    go none = refl
    go (some []) = refl
    go (some (w ∷ ws)) = ap (any (same_text v) (w ∷ ws) ||◌) (not-any (same_text v) s.offered)

by_kind_only_lem : (s : Option Selection) (v : Text) → by_kind_only s v ≡ passes_kind s v
unfolding by_kind_only
by_kind_only_lem none v = refl
by_kind_only_lem (some s) v = go s.selected
  where
    go :
        (o : Option (List Text))
        → (if nothing_selected o then true else has (or_nothing o) v)
          ≡ (null (values_of o) || any (same_text v) (values_of o))
    go none = refl
    go (some []) = refl
    go (some (w ∷ ws)) = refl

module _ {O : Type 0} (reads : Reads O) (fuzzy : Text → Text → Bool) where
  abbrev pub passes_selector : Option FieldSelector → O → Bool
  passes_selector none o = true
  passes_selector (some s) o =
      null (values_of s.values) || passes_value (values_of s.values) (reads.field_value s.field o)

  -- Which rows each filter is to let pass; a name without a filter has no say.
  abbrev pub lets_pass : ListFilter → O → Bool
  lets_pass (name_filter text) o = fuzzy text (reads.name o)
  lets_pass (alert_rule_name text) o = fuzzy text (reads.alert_rule_name_of o)
  lets_pass (alert_rule_state selected) o = any (same_text (reads.alert_rule_state_of o)) selected
  lets_pass (role_kind selected) o = any (same_text (reads.role_type o)) selected
  lets_pass (role_binding_kind selected) o = any (same_text (reads.binding_type o)) selected
  lets_pass (role_binding text) o =
      fuzzy text (reads.name o)
      || (fuzzy text (reads.role_ref_name o)
          || (fuzzy text (reads.subject_kind o) || fuzzy text (reads.subject_name o)))
  lets_pass (role_binding_role_ref ref) o = same_text (reads.role_ref_name o) ref
  lets_pass (selector s) o = passes_selector s o
  lets_pass (pod_status s) o = passes_status s (reads.pod_phase o)
  lets_pass (node_status status) o =
      same_text status (codes "all")
      || (same_text status (codes "ready") && reads.is_node_ready o
          || same_text status (codes "notReady") && not (reads.is_node_ready o))
  lets_pass (clusterserviceversion_resource_kind s) o = passes_kind s (reads.kind o)
  lets_pass (build_status s) o = passes_status s (reads.status_phase o)
  lets_pass (build_strategy s) o = passes_status s (reads.strategy_type o)
  lets_pass (route_status s) o = passes_status s (reads.route_status_of o)
  lets_pass (catalog_status s) o = passes_status s (reads.service_catalog_status o)
  lets_pass (secret_type s) o = passes_status s (reads.secret_type_of o)
  lets_pass (pvc_status s) o = passes_status s (reads.status_phase o)
  lets_pass (service_class text) o = fuzzy text (reads.service_class_display_name o)
  lets_pass (other_filter name) o = true

  has_value_lem :
      (values : List Text) (v : Option Text) → has_value values v ≡ passes_value values v
  has_value_lem values none = refl
  has_value_lem values (some v) = refl

  by_selector_lem :
      (s : Option FieldSelector) (o : O) → by_selector reads fuzzy s o ≡ passes_selector s o
  unfolding by_selector
  by_selector_lem none o = refl
  by_selector_lem (some s) o = go s.values
    where
      go :
          (vs : Option (List Text))
          → (if nothing_selected vs
              then true
              else has_value (or_nothing vs) (reads.field_value s.field o))
            ≡ (null (values_of vs) || passes_value (values_of vs) (reads.field_value s.field o))
      go none = refl
      go (some []) = refl
      go (some (w ∷ ws)) = has_value_lem (w ∷ ws) (reads.field_value s.field o)

  or_none : (a b c d : Bool) → (a || (b || (c || (d || false)))) ≡ (a || (b || (c || d)))
  or_none a b c d = ground arith

  passes_lem : (f : ListFilter) (o : O) → allows reads fuzzy f o ≡ lets_pass f o
  unfolding passes
  passes_lem (name_filter text) o = refl
  passes_lem (alert_rule_name text) o = refl
  passes_lem (alert_rule_state selected) o = refl
  passes_lem (role_kind selected) o = refl
  passes_lem (role_binding_kind selected) o = refl
  passes_lem (role_binding text) o =
      or_none (fuzzy text (reads.name o)) (fuzzy text (reads.role_ref_name o))
        (fuzzy text (reads.subject_kind o)) (fuzzy text (reads.subject_name o))
  passes_lem (role_binding_role_ref ref) o = refl
  passes_lem (selector s) o = by_selector_lem s o
  passes_lem (pod_status s) o = by_status_lem s (reads.pod_phase o)
  passes_lem (node_status status) o = refl
  passes_lem (clusterserviceversion_resource_kind s) o = by_kind_only_lem s (reads.kind o)
  passes_lem (build_status s) o = by_status_lem s (reads.status_phase o)
  passes_lem (build_strategy s) o = by_status_lem s (reads.strategy_type o)
  passes_lem (route_status s) o = by_status_lem s (reads.route_status_of o)
  passes_lem (catalog_status s) o = by_status_lem s (reads.service_catalog_status o)
  passes_lem (secret_type s) o = by_status_lem s (reads.secret_type_of o)
  passes_lem (pvc_status s) o = by_status_lem s (reads.status_phase o)
  passes_lem (service_class text) o = refl
  passes_lem (other_filter name) o = refl

  all-lets_pass :
      (fs : List ListFilter) (o : O)
      → all (λ f. allows reads fuzzy f o) fs ≡ all (λ f. lets_pass f o) fs
  all-lets_pass [] o = refl
  all-lets_pass (f ∷ fs) o = ap₂ ◌&&◌ (passes_lem f o) (all-lets_pass fs o)

-- The rows that are left are, in their order, those that every filter lets pass: a filter by a status
-- or a type those whose value is selected, those whose value is not offered, and all where none is
-- selected; the other filters what they look for, and a filter without a known name every row.
pub get_filtered_rows_lem :
    {O : Type 0}
    → (reads : Reads O) (fuzzy : Text → Text → Bool) (lodash : Lodash) (fs : List ListFilter)
      (objects : List O)
    → get_filtered_rows reads fuzzy lodash fs objects
      ≡ filter (λ o. all (λ f. lets_pass reads fuzzy f o) fs) objects
get_filtered_rows_lem reads fuzzy lodash fs objects =
    rows_of_allows reads fuzzy lodash fs objects
    ∙ filter-equal _ _ objects (all-lets_pass reads fuzzy fs)
