-- ===== src/Environment/Tests.antt =====
-- Variables of containers, and the theorem at them.
use web_ui.Base.{◌≡◌, refl, none, some, [], ◌∷◌, map}
use web_ui.Base.Text.{codes, join}
use web_ui.Base.Decimal.{show, show_from}
use web_ui.Environment.{
  value, no_value, config_map_ref, EnvData, containers, env_pairs_from, from_pairs_from, env_pairs,
  from_pairs, get_pairs_from_object, env_vars_to_array, env_vars_to_name_val,
  env_from_vars_to_resource_prefix, env_patches, env_from_patches, save_changes,
}
use web_ui.Environment.Saved.{
  kept_vars, kept_sources, containers_of, save_changes-env_vars_to_array,
}

environment : Unit {0}
unfolding env_pairs_from from_pairs_from env_pairs from_pairs get_pairs_from_object
    env_vars_to_array env_vars_to_name_val env_from_vars_to_resource_prefix env_patches
    env_from_patches save_changes
environment = tt

abbrev raw : EnvData
raw = containers (
    record {
      env = some (
          record { name = codes "A"; env_value = no_value }
          ∷ record { name = []; env_value = value (codes "x") }
          ∷ []);
      env_from = some (record { prefix = none; resource = config_map_ref (codes "map") } ∷ []);
    }
    ∷ record { env = none; env_from = none }
    ∷ [])

paths :
    map
      (λ p. p.path)
      (save_changes raw (codes "spec" ∷ codes "containers" ∷ []) (env_vars_to_array raw)).0
    ≡ codes "/spec/containers/0/env" ∷ codes "/spec/containers/1/env" ∷ []
unfolding environment join show show_from
paths = refl

save_changes-env_vars_to_array_example :
    (map (λ p. p.value_added) (save_changes raw (codes "spec" ∷ []) (env_vars_to_array raw)).0
      ≡ map (λ c. kept_vars c.env) (containers_of raw))
    × (map (λ p. p.value_added) (save_changes raw (codes "spec" ∷ []) (env_vars_to_array raw)).1
        ≡ map (λ c. kept_sources c.env_from) (containers_of raw))
save_changes-env_vars_to_array_example = save_changes-env_vars_to_array raw (codes "spec" ∷ [])
