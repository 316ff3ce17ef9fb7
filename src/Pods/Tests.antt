-- ===== src/Pods/Tests.antt =====
-- Pods, and the theorems at them.
use web_ui.Base.{ℕ, ◌≡◌, refl, Bool, true, false, none, some, List, [], ◌∷◌}
use web_ui.Base.Text.{Text, codes, same_text, starts_with}
use web_ui.Lodash.{plain_lodash}
use web_ui.Pods.Phase.{
  ContainerStatus, Condition, PodStatus, Pod, init_step, container_step, status_phase, phase_of,
  pod_phase, contains, filter_phase, pod_phase_filter_reducer, earlier, earliest_step,
  pod_readiness, crash_loop,
}
use web_ui.Pods.Mounts.{
  VolumeMount, PodSpec, mount_key, volume_named, add_mount, mount_step, container_mounts, grouped,
  get_volume_mounts_by_permissions,
}

pods : Unit {0}
unfolding init_step container_step status_phase phase_of pod_phase contains filter_phase
    pod_phase_filter_reducer earlier earliest_step pod_readiness mount_key volume_named add_mount
    mount_step container_mounts grouped get_volume_mounts_by_permissions
pods = tt

abbrev looping : ContainerStatus
looping = record { terminated = none; waiting = some (codes "CrashLoopBackOff") }

abbrev done : ContainerStatus
done = record {
  terminated = some record { exit_code = 0; reason = codes "Completed" };
  waiting = none;
}

abbrev failed : ContainerStatus
failed = record {
  terminated = some record { exit_code = 1; reason = codes "Error" };
  waiting = none;
}

abbrev condition : Text → ℕ → Text → Condition
condition status time kind = record { status = status; time = some time; reason = []; kind = kind }

abbrev status_with : List ContainerStatus → List ContainerStatus → PodStatus
status_with init containers = record {
  phase = some (codes "Running");
  reason = none;
  init_container_statuses = init;
  container_statuses = containers;
  conditions =
      condition (codes "True") 1 (codes "A")
      ∷ condition (codes "False") 9 (codes "B")
      ∷ condition (codes "False") 5 (codes "C")
      ∷ [];
}

abbrev pod_with : List ContainerStatus → List ContainerStatus → Pod
pod_with init containers = record { deleted = false; status = some (status_with init containers) }

phases :
    (pod_phase plain_lodash (some (pod_with (done ∷ []) (looping ∷ [])))
      ≡ some (codes "CrashLoopBackOff"))
    × (pod_phase plain_lodash (some (pod_with (failed ∷ []) (looping ∷ [])))
        ≡ some (codes "InitError"))
    × (pod_phase plain_lodash (some (pod_with [] [])) ≡ some (codes "Running"))
unfolding pods same_text
phases = (refl, refl, refl)

filtered : pod_phase_filter_reducer plain_lodash (pod_with [] (looping ∷ [])) ≡ some crash_loop
unfolding pods same_text starts_with
filtered = refl

-- The condition that is not true and earliest.
not_ready : pod_readiness plain_lodash (status_with [] []) ≡ some (codes "C")
unfolding pods same_text
not_ready = refl

abbrev mount : Text → Bool → VolumeMount
mount path read_only = record { name = codes "data"; read_only = read_only; mount_path = path }

abbrev spec : PodSpec
spec = record {
  volumes = record { name = codes "data"; source = codes "emptyDir" } ∷ [];
  containers =
      record {
        name = codes "a";
        volume_mounts = mount (codes "/x") true ∷ mount (codes "/y") false ∷ [];
      }
      ∷ record { name = codes "b"; volume_mounts = mount (codes "/z") true ∷ [] }
      ∷ [];
}
