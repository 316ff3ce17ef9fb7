-- ===== src/Rows/Boxes.antt =====
-- frontend/public/components/row-filter.jsx: the boxes that select the values of a row filter.
use web_ui.Base.{
  ◌≡◌, refl, sym, ap, ◌∙◌, true, false, ◌&&◌, ◌||◌, not, Option, none, some, List, [], ◌∷◌, ◌++◌,
  null, filter, if◌then◌else◌, Bool-cases, inl, inr, arith, ◌⊎◌, subst,
}
use web_ui.Base.Text.{Text, same_text, same_text_iff, same_text_eq, split, join}
use web_ui.Rows.{has}
use mathlib.Core.Option.{some-injective, none-ne-some}

-- `_.difference(values, [v])`
abbrev pub unselect : Text → List Text → List Text
unselect v values = filter (λ w. not (same_text w v)) values

-- `_.uniq`, which keeps the first of equal values: those of the list that are not seen yet.
unfoldable pub unique_from : List Text → List Text → List Text
unique_from seen [] = []
unique_from seen (v ∷ vs) =
    let fresh = v ∷ unique_from (v ∷ seen) vs in
    let rest = unique_from seen vs in if has seen v then rest else fresh

-- `_.xor(selected, [item])`
unfoldable pub xor_item : List Text → Text → List Text
unfolding unique_from
xor_item selected item =
    unique_from [] (if has selected item then unselect item selected else selected ++ item ∷ [])

-- The boxes: what is selected, and the argument of the address, if it was set.
pub record CheckBoxes : Type 0 where
  pub selected : List Text
  pub query : Option Text

-- `componentDidMount`: from the argument of the address, or else from the properties.
unfoldable pub mount_boxes : Option Text → List Text → CheckBoxes
mount_boxes none given = record { selected = given; query = none }
mount_boxes (some argument) given = record { selected = split b',' argument; query = some argument }

module _ (items : List Text) where
  -- The values that a filter gets: those that are selected and offered, unless there are none.
  unfoldable pub apply_filter : CheckBoxes → Option (List Text)
  unfolding unique_from
  apply_filter s =
      let recognized = unique_from [] (filter (has items) s.selected) in
      if null recognized then none else some recognized

  -- The selection stays where the last box would be left.
  unfoldable pub toggle_box : Text → CheckBoxes → CheckBoxes
  unfolding xor_item
  toggle_box item s =
      let selected = xor_item s.selected item in
      if null selected then s else record {
        selected = selected;
        query = some (join (b',' ∷ []) (filter (has items) selected));
      }

has-unselect :
    (v w : Text) (vs : List Text) → has (unselect v vs) w ≡ (has vs w && not (same_text w v))
has-unselect v w [] = refl
has-unselect v w (x ∷ vs) =
    ground (arith, has-unselect v w vs, same_text_iff w v, same_text_iff x v, same_text_iff w x)

has-append : (vs : List Text) (v w : Text) → has (vs ++ v ∷ []) w ≡ (has vs w || same_text w v)
has-append [] v w = ground arith
has-append (x ∷ vs) v w = ground (arith, has-append vs v w)

has-unique_from :
    (seen vs : List Text) (w : Text) → has (unique_from seen vs) w ≡ (has vs w && not (has seen w))
unfolding unique_from
has-unique_from seen [] w = refl
has-unique_from seen (v ∷ vs) w = elim (Bool-cases (has seen v)) [
  | inl old ↦ rw old (elim (Bool-cases (same_text w v)) [
    | inl same ↦
        rw (has-unique_from seen vs w) rw (ap (has seen) (same_text_eq w v same) ∙ old) rw same
          ground arith
    | inr other ↦ rw other (has-unique_from seen vs w)
  ])
  | inr fresh ↦ rw fresh (elim (Bool-cases (same_text w v)) [
    | inl same ↦ rw same rw (ap (has seen) (same_text_eq w v same) ∙ fresh) refl
    | inr other ↦
        rw other
          (has-unique_from (v ∷ seen) vs w ∙ ap (λ b. has vs w && not (b || has seen w)) other)
  ])
]

has-filter :
    (items : List Text) (vs : List Text) (w : Text)
    → has (filter (has items) vs) w ≡ (has vs w && has items w)
has-filter items [] w = refl
has-filter items (v ∷ vs) w = elim (Bool-cases (same_text w v)) [
  | inl same ↦ elim (Bool-cases (has items v)) [
    | inl kept ↦ rw kept rw same rw (ap (has items) (same_text_eq w v same) ∙ kept) refl
    | inr dropped ↦
        rw dropped rw same rw (has-filter items vs w) rw
          (ap (has items) (same_text_eq w v same) ∙ dropped) ground arith
  ]
  | inr other ↦ elim (Bool-cases (has items v)) [
    | inl kept ↦ rw kept rw other (has-filter items vs w)
    | inr dropped ↦ rw dropped rw other (has-filter items vs w)
  ]
]

has-xor_item :
    (selected : List Text) (item w : Text)
    → has (xor_item selected item) w
      ≡ (if same_text w item then not (has selected item) else has selected w)
unfolding xor_item
has-xor_item selected item w = has-unique_from [] _ w ∙ elim (Bool-cases (has selected item)) [
  | inl old ↦ rw old rw (has-unselect item w selected) ground arith
  | inr fresh ↦ rw fresh rw (has-append selected item w) ground arith
]

null-xor_item :
    (selected : List Text) (item : Text)
    → null (xor_item selected item) ≡ true
    → null selected ≡ false
unfolding xor_item
null-xor_item [] item e = sym e
null-xor_item (v ∷ vs) item e = refl

null-toggle_box :
    (items : List Text) (item : Text) (s : CheckBoxes)
    → null ((toggle_box items item s).selected) ≡ false
unfolding toggle_box
null-toggle_box items item s = elim (Bool-cases (null (xor_item s.selected item))) [
  | inl e ↦ rw e (null-xor_item s.selected item e)
  | inr e ↦ rw e e
]

has-nothing : (vs : List Text) (w : Text) → null vs ≡ true → has vs w ≡ false
has-nothing [] w e = refl
has-nothing (v ∷ vs) w e = cc

-- Toggling a box changes whether exactly its item is selected and leaves every other item as it is,
-- unless that would leave no item selected: then the boxes stay as they are, with the argument of the
-- address. An item is always selected afterwards.
pub has-toggle_box :
    (items : List Text) (item : Text) (s : CheckBoxes)
    → ((((w : Text)
            → (if same_text w item then not (has s.selected item) else has s.selected w) ≡ false)
          × toggle_box items item s ≡ s)
        ⊎ ((w : Text)
            → has ((toggle_box items item s).selected) w
              ≡ (if same_text w item then not (has s.selected item) else has s.selected w)))
      × null ((toggle_box items item s).selected) ≡ false
unfolding toggle_box
has-toggle_box items item s = (
  elim (Bool-cases (null (xor_item s.selected item))) [
    | inl e ↦ inl (
      (λ w. sym (has-xor_item s.selected item w) ∙ has-nothing (xor_item s.selected item) w e),
      rw e refl,
    )
    | inr e ↦ inr (λ w. rw e (has-xor_item s.selected item w))
  ],
  null-toggle_box items item s,
)

-- What a filter gets of the boxes is never empty, and it is what is both selected and offered.
apply_filter_sound :
    (items : List Text) (s : CheckBoxes) (found : List Text)
    → apply_filter items s ≡ some found
    → null found ≡ false × ((w : Text) → has found w ≡ (has s.selected w && has items w))
unfolding apply_filter
apply_filter_sound items s found h = elim (Bool-cases (null recognized)) [
  | inl e ↦ absurd (none-ne-some found (sym (ap (λ b. if b then none else some recognized) e) ∙ h))
  | inr e ↦
      subst (λ vs. null vs ≡ false × ((w : Text) → has vs w ≡ (has s.selected w && has items w)))
        (some-injective recognized found
          (sym (ap (λ b. if b then none else some recognized) e) ∙ h))
        (
          e,
          λ w.
              has-unique_from [] (filter (has items) s.selected) w
              ∙ rw (has-filter items s.selected w) ground arith,
        )
]
  where
    recognized : List Text
    recognized = unique_from [] (filter (has items) s.selected)
