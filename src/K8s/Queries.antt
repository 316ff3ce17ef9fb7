-- ===== src/K8s/Queries.antt =====
-- frontend/public/components/utils/k8s-watcher.js: the query of a watch, and the key of its state.
-- `JSON.stringify` on queries is a parameter.
use web_ui.Base.{
  ap₂, ◌↔◌, ◌≡◌, refl, sym, ap, ◌∙◌, Bool, true, false, ◌&&◌, Option, none, some, List, [], ◌∷◌,
  ◌++◌, if◌then◌else◌, Bool-cases, inl, inr, append-nil,
}
use web_ui.Base.Text.{Text, codes, split, split_from-append, split_from_of_Without, Without}
use web_ui.K8s.Resource.{present}
use web_ui.K8s.Urls.{append_cancel}

-- A query; the selector of labels is already one value, and is missing if it is empty.
pub record Query : Type 0 where
  pub label_selector : Option Text
  pub ns : Option Text
  pub name : Option Text
  pub field_selector : Option Text

unfoldable pub make_query : Option Text → Option Text → Option Text → Option Text → Query
make_query namespace label_selector field_selector name = record {
  label_selector = present label_selector;
  ns = present namespace;
  name = present name;
  field_selector = present field_selector;
}

abbrev pub is_missing : Option Text → Bool
is_missing none = true
is_missing (some t) = false

-- `_.isEmpty(query)`
abbrev pub is_empty_query : Query → Bool
is_empty_query q =
    is_missing q.label_selector
    && (is_missing q.ns && (is_missing q.name && is_missing q.field_selector))

-- What is used of a model, and the group of its API.
pub record K8sKind : Type 0 where
  pub plural : Text
  pub api_group : Text

unfoldable pub make_redux_id : (Query → Text) → K8sKind → Query → Text
make_redux_id stringify k q =
    k.plural ++ (if is_empty_query q then [] else codes "---" ++ stringify q)

abbrev suffix : (Query → Text) → Bool → Query → Text
suffix stringify empty q = if empty then [] else codes "---" ++ stringify q

-- The text in front of the first dash.
front :
    (plural : Text) (stringify : Query → Text) (b : Bool) (q : Query)
    → Without b'-' plural
    → (r : List Text) × (split b'-' (plural ++ suffix stringify b q) ≡ plural ∷ r)
unfolding split
front plural stringify true q h = ([], rw append-nil (split_from_of_Without b'-' [] plural h))
front plural stringify false q h = (
  split b'-' (codes "--" ++ stringify q),
  split_from-append b'-' [] plural (codes "--" ++ stringify q)
      ∙ ap (λ ts. ts ++ split b'-' (codes "--" ++ stringify q))
          (split_from_of_Without b'-' [] plural h),
)

empty_query :
    (q : Query)
    → is_empty_query q ≡ true
    → q ≡ record { label_selector = none; ns = none; name = none; field_selector = none }
empty_query q h = of_fields q.label_selector q.ns q.name q.field_selector h
  where
    query : Option Text → Option Text → Option Text → Option Text → Query
    query a b c d = record { label_selector = a; ns = b; name = c; field_selector = d }

    of_fields :
        (a b c d : Option Text)
        → (is_missing a && (is_missing b && (is_missing c && is_missing d))) ≡ true
        → query a b c d ≡ query none none none none
    of_fields none none none none h = refl
    of_fields none none none (some d) h = cc
    of_fields none none (some c) d h = cc
    of_fields none (some b) c d h = cc
    of_fields (some a) b c d h = cc

suffixes :
    (stringify : Query → Text) (p q : Query)
    → ((a b : Query) → stringify a ≡ stringify b → a ≡ b)
    → suffix stringify (is_empty_query p) p ≡ suffix stringify (is_empty_query q) q
    → p ≡ q
suffixes stringify p q injective h = elim (Bool-cases (is_empty_query p)) [
  | inl x ↦ elim (Bool-cases (is_empty_query q)) [
    | inl y ↦ empty_query p x ∙ sym (empty_query q y)
    | inr y ↦ apart (chosen true false x y)
  ]
  | inr x ↦ elim (Bool-cases (is_empty_query q)) [
    | inl y ↦ apart' (chosen false true x y)
    | inr y ↦
        injective p q
          (append_cancel (codes "---") (stringify p) (stringify q) (chosen false false x y))
  ]
]
  where
    chosen :
        (b c : Bool)
        → is_empty_query p ≡ b
        → is_empty_query q ≡ c
        → suffix stringify b p ≡ suffix stringify c q
    chosen b c x y = sym (ap (λ b. suffix stringify b p) x) ∙ h ∙ ap (λ b. suffix stringify b q) y

    apart : suffix stringify true p ≡ suffix stringify false q → p ≡ q
    apart e = cc

    apart' : suffix stringify false p ≡ suffix stringify true q → p ≡ q
    apart' e = cc

redux_id_cancel :
    (stringify : Query → Text) (kind kind' : Text) (p q : Query)
    → ((a b : Query) → stringify a ≡ stringify b → a ≡ b)
    → Without b'-' kind
    → Without b'-' kind'
    → kind ++ suffix stringify (is_empty_query p) p ≡ kind' ++ suffix stringify (is_empty_query q) q
    → (kind ≡ kind') × (p ≡ q)
redux_id_cancel stringify kind kind' p q injective h k e =
    let (r, cut) = front kind stringify (is_empty_query p) p h in
    let (r', cut') = front kind' stringify (is_empty_query q) q k in
    let same = heads (sym cut ∙ ap (split b'-') e ∙ cut') in
    (
      same,
      suffixes stringify p q injective (
          append_cancel kind _ _
            (e ∙ ap (λ t. t ++ suffix stringify (is_empty_query q) q) (sym same))),
    )
  where
    heads : {r r' : List Text} → kind ∷ r ≡ kind' ∷ r' → kind ≡ kind'
    heads h = cc

-- Two watches are stored under the same key just if their kinds have the same plural name, whatever their
-- groups, and their queries are the same, if no plural name has a dash and different queries have different
-- texts.
pub make_redux_id_iff :
    (stringify : Query → Text) (k k' : K8sKind) (p q : Query)
    → ((a b : Query) → stringify a ≡ stringify b → a ≡ b)
    → Without b'-' k.plural
    → Without b'-' k'.plural
    → (make_redux_id stringify k p ≡ make_redux_id stringify k' q)
      ↔ (k.plural ≡ k'.plural) × (p ≡ q)
unfolding make_redux_id
make_redux_id_iff stringify k k' p q injective h h' = (
  redux_id_cancel stringify k.plural k'.plural p q injective h h',
  λ e. ap₂ (λ t r. t ++ suffix stringify (is_empty_query r) r) e.0 e.1,
)
