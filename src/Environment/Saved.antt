-- ===== src/Environment/Saved.antt =====
-- What is sent when nothing was edited (frontend/public/components/environment.jsx).
use web_ui.Base.{
  ℕ, suc, ◌≡◌, refl, ap, ap₂, ◌∙◌, Bool, not, Option, none, some, List, [], ◌∷◌, null, filter, map,
  Bool-cases, inl, inr,
}
use web_ui.Base.Text.{Text, codes, join}
use web_ui.Environment.{
  EnvVar, EnvSource, Container, picked, or_empty_value, or_no_prefix, env_pairs_from,
  from_pairs_from, env_pairs, from_pairs, get_pairs_from_object, EnvData, containers, one_object,
  env_vars_to_array, env_vars_to_name_val, has_resource, env_from_vars_to_resource_prefix, is_array,
  env_patches, env_from_patches, save_changes,
}

abbrev pub filled_var : EnvVar → EnvVar
filled_var v = record { name = v.name; env_value = or_empty_value v.env_value }

abbrev pub filled_source : EnvSource → EnvSource
filled_source s = record { prefix = some (or_no_prefix s.prefix); resource = s.resource }

-- The variables and sources of a container that are sent again.
abbrev pub kept_vars : Option (List EnvVar) → List EnvVar
kept_vars none = []
kept_vars (some vs) = map filled_var (filter (λ v. not (null v.name)) vs)

abbrev pub kept_sources : Option (List EnvSource) → List EnvSource
kept_sources none = []
kept_sources (some ss) = map filled_source (filter (λ s. has_resource (picked s.resource)) ss)

abbrev pub containers_of : EnvData → List Container
containers_of (containers cs) = cs
containers_of (one_object c) = c ∷ []

name_val-pairs_from :
    (n : ℕ) (vs : List EnvVar) → env_vars_to_name_val (env_pairs_from n vs) ≡ kept_vars (some vs)
unfolding env_vars_to_name_val env_pairs_from
name_val-pairs_from n [] = refl
name_val-pairs_from n (v ∷ vs) = elim (Bool-cases (not (null v.name))) [
  | inl named ↦ rw named (ap (filled_var v ∷◌) (name_val-pairs_from (suc n) vs))
  | inr unnamed ↦ rw unnamed (name_val-pairs_from (suc n) vs)
]

resource_prefix-pairs_from :
    (n : ℕ) (ss : List EnvSource)
    → env_from_vars_to_resource_prefix (from_pairs_from n ss) ≡ kept_sources (some ss)
unfolding env_from_vars_to_resource_prefix from_pairs_from
resource_prefix-pairs_from n [] = refl
resource_prefix-pairs_from n (s ∷ ss) = elim (Bool-cases (has_resource (picked s.resource))) [
  | inl there ↦ rw there (ap (filled_source s ∷◌) (resource_prefix-pairs_from (suc n) ss))
  | inr missing ↦ rw missing (resource_prefix-pairs_from (suc n) ss)
]

name_val-env_pairs : (o : Option (List EnvVar)) → env_vars_to_name_val (env_pairs o) ≡ kept_vars o
unfolding env_pairs env_vars_to_name_val
name_val-env_pairs none = refl
name_val-env_pairs (some vs) = name_val-pairs_from 0 vs

resource_prefix-from_pairs :
    (o : Option (List EnvSource)) → env_from_vars_to_resource_prefix (from_pairs o) ≡ kept_sources o
unfolding from_pairs env_from_vars_to_resource_prefix
resource_prefix-from_pairs none = refl
resource_prefix-from_pairs (some ss) = resource_prefix-pairs_from 0 ss

module _ (array : Bool) (path : Text) where
  values-env_patches :
      (i : ℕ) (cs : List Container)
      → map (λ p. p.value_added) (env_patches array path i (map get_pairs_from_object cs))
        ≡ map (λ c. kept_vars c.env) cs
  unfolding env_patches get_pairs_from_object
  values-env_patches i [] = refl
  values-env_patches i (c ∷ cs) = ap₂ ◌∷◌ (name_val-env_pairs c.env) (values-env_patches (suc i) cs)

  values-env_from_patches :
      (i : ℕ) (cs : List Container)
      → map (λ p. p.value_added) (env_from_patches array path i (map get_pairs_from_object cs))
        ≡ map (λ c. kept_sources c.env_from) cs
  unfolding env_from_patches get_pairs_from_object
  values-env_from_patches i [] = refl
  values-env_from_patches i (c ∷ cs) =
      ap₂ ◌∷◌ (resource_prefix-from_pairs c.env_from) (values-env_from_patches (suc i) cs)

array_lem : (raw : EnvData) → env_vars_to_array raw ≡ map get_pairs_from_object (containers_of raw)
unfolding env_vars_to_array
array_lem (containers cs) = refl
array_lem (one_object c) = refl

-- Saving what was opened sends, for each container, its variables that have a name and its sources that
-- have a resource, in their order: a missing value is sent as the empty text, and a missing prefix too.
pub save_changes-env_vars_to_array :
    (raw : EnvData) (path : List Text)
    → (map (λ p. p.value_added) (save_changes raw path (env_vars_to_array raw)).0
        ≡ map (λ c. kept_vars c.env) (containers_of raw))
      × (map (λ p. p.value_added) (save_changes raw path (env_vars_to_array raw)).1
          ≡ map (λ c. kept_sources c.env_from) (containers_of raw))
unfolding save_changes
save_changes-env_vars_to_array raw path = (
  ap (λ ps. map (λ p. p.value_added) (env_patches (is_array raw) (join (codes "/") path) 0 ps))
        (array_lem raw)
      ∙ values-env_patches (is_array raw) (join (codes "/") path) 0 (containers_of raw),
  ap (λ ps. map (λ p. p.value_added) (env_from_patches (is_array raw) (join (codes "/") path) 0 ps))
        (array_lem raw)
      ∙ values-env_from_patches (is_array raw) (join (codes "/") path) 0 (containers_of raw),
)
