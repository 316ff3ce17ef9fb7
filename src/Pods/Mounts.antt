-- ===== src/Pods/Mounts.antt =====
-- frontend/public/module/k8s/pods.ts: the mounts of a pod by volume and permission.
use web_ui.Base.{Bool, Option, none, some, List, [], ◌∷◌, ◌++◌, if◌then◌else◌}
use web_ui.Base.Text.{Text, codes, same_text}
use web_ui.Lodash.{Lodash}

pub record VolumeMount : Type 0 where
  pub name : Text
  pub read_only : Bool
  pub mount_path : Text

pub record Container : Type 0 where
  pub name : Text
  pub volume_mounts : List VolumeMount

-- A volume, with one text for its source.
pub record Volume : Type 0 where
  pub name : Text
  pub source : Text

pub record PodSpec : Type 0 where
  pub volumes : List Volume
  pub containers : List Container

pub record Mount : Type 0 where
  pub container : Text
  pub mount_path : Text

pub record MountGroup : Type 0 where
  pub mounts : List Mount
  pub name : Text
  pub read_only : Bool
  pub volume : Option Volume

unfoldable pub mount_key : VolumeMount → Text
mount_key v = v.name ++ (if v.read_only then codes "_ro" else codes "_rw")

-- `volumes[name]`: a later volume of a name replaces an earlier one.
unfoldable pub volume_named : Text → List Volume → Option Volume
volume_named k [] = none
volume_named k (v ∷ vs) = or_else (volume_named k vs) (if same_text k v.name then some v else none)
  where
    or_else : Option Volume → Option Volume → Option Volume
    or_else none o = o
    or_else (some v) o = some v

abbrev pub with_mount : Mount → MountGroup → MountGroup
with_mount mount g = record {
  mounts = g.mounts ++ mount ∷ [];
  name = g.name;
  read_only = g.read_only;
  volume = g.volume;
}

-- The properties of the object, in the order in which they came: the mount is pushed to the group of the
-- key, or is the first of a new one.
unfoldable pub add_mount :
    Text → Mount → MountGroup → List (Text × MountGroup) → List (Text × MountGroup)
add_mount k mount fresh [] = (k, fresh) ∷ []
add_mount k mount fresh ((j, g) ∷ m) =
    let rest = add_mount k mount fresh m in
    if same_text k j then (j, with_mount mount g) ∷ m else (j, g) ∷ rest

abbrev pub mount_in : Container → VolumeMount → Mount
mount_in c v = record { container = c.name; mount_path = v.mount_path }

abbrev pub values : List (Text × MountGroup) → List MountGroup
values [] = []
values ((k, g) ∷ m) = g ∷ values m

module _ (lodash : Lodash) where
  open lodash use {each}

  unfoldable pub mount_step :
      List Volume → Container → List (Text × MountGroup) → VolumeMount → List (Text × MountGroup)
  mount_step volumes c m v =
      add_mount (mount_key v) (mount_in c v)
        record {
          mounts = mount_in c v ∷ [];
          name = v.name;
          read_only = v.read_only;
          volume = volume_named v.name volumes;
        }
        m

  unfoldable pub container_mounts :
      List Volume → List (Text × MountGroup) → Container → List (Text × MountGroup)
  container_mounts volumes m c = each c.volume_mounts (mount_step volumes c) m

  unfoldable pub grouped : PodSpec → List (Text × MountGroup)
  grouped s = each s.containers (container_mounts s.volumes) []

  -- A pod that is missing, or has no specification, is `none`.
  unfoldable pub get_volume_mounts_by_permissions : Option PodSpec → List MountGroup
  get_volume_mounts_by_permissions none = []
  get_volume_mounts_by_permissions (some s) = values (grouped s)
