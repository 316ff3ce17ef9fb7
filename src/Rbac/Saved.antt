-- ===== src/Rbac/Saved.antt =====
-- What of a rule is saved when it is opened and not changed (frontend/public/components/RBAC/edit-rule.jsx).
use web_ui.Base.{
  ◌≡◌, refl, ap, ◌∙◌, Bool, true, false, ◌&&◌, ◌||◌, not, some, List, [], ◌∷◌, ◌++◌, map, null,
  filter, All, if◌then◌else◌, Bool-cases, inl, inr, arith,
}
use web_ui.Base.Text.{Text, same_text, same_text_iff, split, join, Without, split-join}
use web_ui.Rbac.Rule.{
  has, all_verbs, star, every_verb, custom_verbs, every_resource, custom_resources, Rule, EditRule,
  or_none, comma_space, load_names, load_rule, verb_selected, is_verb_selected, resource_selected,
  is_resource_selected, saved_verbs, saved_resources, to_rule,
}

same_text_comm : (v w : Text) → same_text v w ≡ same_text w v
same_text_comm v w = ground (arith, same_text_iff v w, same_text_iff w v)

abbrev next : Bool → Text → Bool × List Text → Bool × List Text
next b v s = if b then (true, s.1) else (s.0, v ∷ s.1)

star-load_names :
    (s : Bool × List Text) (vs : List Text) → (load_names s vs).0 ≡ (s.0 || has vs star)
unfolding load_names
star-load_names s [] = ground arith
star-load_names s (v ∷ vs) =
    star-load_names (next (same_text v star) v s) vs
    ∙ found (same_text v star) s.0 (has vs star)
    ∙ ap (λ b. s.0 || (b || has vs star)) (same_text_comm v star)
  where
    found : (b d r : Bool) → ((next b v s).0 || r) ≡ (s.0 || (b || r))
    found true d r = ground arith
    found false d r = refl

has-load_names :
    (w : Text) (s : Bool × List Text) (vs : List Text)
    → has (load_names s vs).1 w ≡ (has s.1 w || (has vs w && not (same_text w star)))
unfolding load_names
has-load_names w s [] = ground arith
has-load_names w s (v ∷ vs) =
    has-load_names w (next (same_text v star) v s) vs
    ∙ added (same_text v star) (same_text w v) (same_text w star) (has vs w)
        (both (same_text w v) refl)
  where
    both :
        (a : Bool)
        → same_text w v ≡ a
        → (same_text w v && same_text w star) ≡ (same_text w v && same_text v star)
    both true e = rw ((same_text_iff w v).0 e) refl
    both false e = rw e refl

    added :
        (b a t r : Bool)
        → (same_text w v && t) ≡ (same_text w v && b)
        → (has (next b v s).1 w || (r && not t)) ≡ (has s.1 w || ((same_text w v || r) && not t))
    added true a t r h = ground (arith, h)
    added false a t r h = ground (arith, h)

filter-equal :
    (p q : Text → Bool) (vs : List Text) → ((v : Text) → p v ≡ q v) → filter p vs ≡ filter q vs
filter-equal p q [] h = refl
filter-equal p q (v ∷ vs) h =
    rw (h v) (ap (λ rest. if q v then v ∷ rest else rest) (filter-equal p q vs h))

-- Without a star the loaded set has the members of the list.
has-loaded :
    (w : Text) (vs : List Text)
    → has vs star ≡ false
    → has (load_names (false, []) vs).1 w ≡ has vs w
has-loaded w vs h = has-load_names w (false, []) vs ∙ elim (Bool-cases (same_text w star)) [
  | inl same ↦ rw same (not_any (has vs w) (ap (has vs) ((same_text_iff w star).0 same) ∙ h))
  | inr other ↦ rw other (unit (has vs w))
]
  where
    not_any : (b : Bool) → b ≡ false → (b && false) ≡ b
    not_any b e = ground (arith, e)

    unit : (b : Bool) → (b && true) ≡ b
    unit b = ground arith

abbrev pub kept : List Text → List Text → List Text
kept known vs = if has vs star then star ∷ [] else filter (has vs) known

kept-loaded :
    (known vs : List Text)
    → (if (load_names (false, []) vs).0
        then star ∷ []
        else filter (has (load_names (false, []) vs).1) known)
      ≡ kept known vs
kept-loaded known vs =
    ap (λ b. if b then star ∷ [] else filter (has (load_names (false, []) vs).1) known)
      (star-load_names (false, []) vs)
    ∙ go (has vs star) refl
  where
    go :
        (b : Bool)
        → has vs star ≡ b
        → (if b then star ∷ [] else filter (has (load_names (false, []) vs).1) known)
          ≡ (if b then star ∷ [] else filter (has vs) known)
    go true e = refl
    go false e = filter-equal _ _ known (λ w. has-loaded w vs e)

module _ (admin all_resources : List Text) (s : EditRule) (b : Bool) where
  saved_verbs-control :
      s.verb_control ≡ (if b then every_verb else custom_verbs)
      → saved_verbs admin all_resources s (if b then every_verb else custom_verbs)
        ≡ (if b then star ∷ [] else filter (has s.verbs_set) all_verbs)
  unfolding is_verb_selected verb_selected
  saved_verbs-control e = go b e
    where
      go :
          (b : Bool)
          → s.verb_control ≡ (if b then every_verb else custom_verbs)
          → saved_verbs admin all_resources s (if b then every_verb else custom_verbs)
            ≡ (if b then star ∷ [] else filter (has s.verbs_set) all_verbs)
      go true e = refl
      go false e =
          filter-equal (is_verb_selected s) (has s.verbs_set) all_verbs
            (λ v. ap (λ c. verb_selected c s.verbs_set v) e)

  saved_resources-control :
      s.resource_control ≡ (if b then every_resource else custom_resources)
      → saved_resources admin all_resources s (if b then every_resource else custom_resources)
        ≡ (if b then star ∷ [] else filter (has s.resource_set) all_resources)
  unfolding is_resource_selected resource_selected
  saved_resources-control e = go b e
    where
      go :
          (b : Bool)
          → s.resource_control ≡ (if b then every_resource else custom_resources)
          → saved_resources admin all_resources s (if b then every_resource else custom_resources)
            ≡ (if b then star ∷ [] else filter (has s.resource_set) all_resources)
      go true e = refl
      go false e =
          filter-equal (is_resource_selected admin s) (has s.resource_set) all_resources
            (λ v. ap (λ c. resource_selected admin c s.resource_set v) e)

-- A rule that is opened and saved keeps a star, and otherwise those of its verbs that the editor knows and
-- those of its resources that the cluster has; every other verb and resource is lost.
pub to_rule-load_rule :
    (admin all_resources : List Text) (r : Rule)
    → ((to_rule admin all_resources (load_rule r)).verbs ≡ kept all_verbs r.verbs)
      × ((to_rule admin all_resources (load_rule r)).resources
          ≡ some (kept all_resources (or_none r.resources)))
unfolding to_rule load_rule
to_rule-load_rule admin all_resources r = (
  saved_verbs-control admin all_resources (load_rule r) (load_names (false, []) r.verbs).0 refl
      ∙ kept-loaded all_verbs r.verbs,
  ap some (
      saved_resources-control admin all_resources (load_rule r)
        (load_names (false, []) (or_none r.resources)).0 refl
      ∙ kept-loaded all_resources (or_none r.resources)),
)

join-comma_space :
    (g : Text) (gs : List Text)
    → join comma_space (g ∷ gs) ≡ join (b',' ∷ []) (g ∷ map (λ h. b' ' ∷ h) gs)
unfolding join
join-comma_space g [] = refl
join-comma_space g (h ∷ []) = refl
join-comma_space g (h ∷ i ∷ gs) = ap (λ t. g ++ (b',' ∷ b' ' ∷ t)) (join-comma_space h (i ∷ gs))

Without-spaced :
    (gs : List Text) → All (Without b',') gs → All (Without b',') (map (λ h. b' ' ∷ h) gs)
Without-spaced [] a = tt
Without-spaced (h ∷ gs) (w, a) = ((refl, w), Without-spaced gs a)

-- The groups of such a rule are joined with a comma and a space and split at the comma, so each but the
-- first is saved with a space in front.
pub api_groups-spaced :
    (admin all_resources : List Text) (r : Rule) (g : Text) (gs : List Text)
    → r.api_groups ≡ some (g ∷ gs)
    → All (Without b',') (g ∷ gs)
    → (to_rule admin all_resources (load_rule r)).api_groups ≡ some (g ∷ map (λ h. b' ' ∷ h) gs)
unfolding to_rule load_rule split
api_groups-spaced admin all_resources r g gs e (w, a) = rw e (
    rw (join-comma_space g gs) (
      go (join (b',' ∷ []) (g ∷ map (λ h. b' ' ∷ h) gs))
        (split-join b',' g (map (λ h. b' ' ∷ h) gs) (w, Without-spaced gs a))))
  where
    go :
        (t : Text)
        → split b',' t ≡ g ∷ map (λ h. b' ' ∷ h) gs
        → some (if null t then [] ∷ [] else split b',' t) ≡ some (g ∷ map (λ h. b' ' ∷ h) gs)
    go [] h = ap some h
    go (c ∷ t) h = ap some h
