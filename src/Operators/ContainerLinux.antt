-- ===== src/Operators/ContainerLinux.antt =====
-- frontend/public/components/utils/container-linux-update-operator.js: what the update operator's
-- labels and annotations say of a node, and of all nodes.
use Prim.Native.String.{String}
use text.Mathlib.Text.{◌==◌}
use web_ui.Base.{
  ℕ, ◌+◌, Bool, true, false, ◌&&◌, ◌||◌, not, Option, none, some, List, [], ◌∷◌, ◌++◌, ltb,
  if◌then◌else◌, length,
}
use web_ui.Lodash.{Lodash}

-- A node's labels and annotations under the operator's prefix, as `_.has` and `_.get` give them.
pub record Node : Type 0 where
  pub id : Bool
  pub before_reboot : Option String
  pub status : Option String
  pub reboot_in_progress : Option String
  pub reboot_needed : Option String

abbrev pub same_as : Option String → String → Bool
same_as none t = false
same_as (some s) t = s == t

unfoldable pub is_operator_installed : Node → Bool
is_operator_installed n = n.id

unfoldable pub is_downloading : Option String → Bool
is_downloading s = same_as s "UPDATE_STATUS_DOWNLOADING"

unfoldable pub is_verifying : Option String → Bool
is_verifying s = same_as s "UPDATE_STATUS_VERIFYING"

unfoldable pub is_finalizing : Option String → Bool
is_finalizing s = same_as s "UPDATE_STATUS_FINALIZING"

unfoldable pub is_updated_need_reboot : Option String → Bool
is_updated_need_reboot s = same_as s "UPDATE_STATUS_UPDATED_NEED_REBOOT"

unfoldable pub is_update_available : Option String → Bool
is_update_available s = same_as s "UPDATE_STATUS_UPDATE_AVAILABLE"

unfoldable pub is_checking_for_update : Option String → Bool
is_checking_for_update s = same_as s "UPDATE_STATUS_CHECKING_FOR_UPDATE"

unfoldable pub is_rebooting : Node → Bool
is_rebooting n = same_as n.reboot_in_progress "true"

unfoldable pub is_pending_reboot : Node → Bool
is_pending_reboot n = same_as n.reboot_needed "true"

unfoldable pub is_updating_docker : Node → Bool
is_updating_docker n = same_as n.before_reboot "true"

unfoldable pub is_software_up_to_date : Node → Bool
is_software_up_to_date n = same_as n.status "UPDATE_STATUS_IDLE" && not (is_pending_reboot n)

-- The texts of `getUpdateStatus`, each with its class name; `none` is null.
pub data UpdateStatus : Type 0 where
  up_to_date downloading rebooting updating_docker queued checking : UpdateStatus

unfoldable pub get_update_status : Node → Option UpdateStatus
get_update_status n =
    if is_software_up_to_date n
    then some up_to_date
    else if is_downloading n.status || is_verifying n.status || is_finalizing n.status
    then some downloading
    else if is_rebooting n
    then some rebooting
    else if is_updating_docker n
    then some updating_docker
    else if is_pending_reboot n
    then some queued
    else if is_checking_for_update n.status
    then some checking
    else none

-- The lists that `getNodeListUpdateStatus` fills.
pub record Lists : Type 0 where
  pub downloading : List Node
  pub verifying : List Node
  pub finalizing : List Node
  pub up_to_date : List Node
  pub rebooting : List Node
  pub updated_needs_reboot : List Node
  pub update_available : List Node

abbrev pub no_lists : Lists
no_lists = record {
  downloading = [];
  verifying = [];
  finalizing = [];
  up_to_date = [];
  rebooting = [];
  updated_needs_reboot = [];
  update_available = [];
}

abbrev pub push_if : Bool → Node → List Node → List Node
push_if true n ns = ns ++ n ∷ []
push_if false n ns = ns

-- One round of `_.each`: two plain tests, and two chains of `else if`.
unfoldable pub add_node : Lists → Node → Lists
add_node l n =
    let current = is_software_up_to_date n in
    let boots = not current && is_rebooting n in
    record {
      downloading = push_if (is_downloading n.status) n l.downloading;
      verifying = push_if (is_verifying n.status) n l.verifying;
      finalizing = push_if (is_finalizing n.status) n l.finalizing;
      updated_needs_reboot =
          push_if (not (is_finalizing n.status) && is_updated_need_reboot n.status) n
            l.updated_needs_reboot;
      up_to_date = push_if current n l.up_to_date;
      rebooting = push_if boots n l.rebooting;
      update_available =
          push_if (not current && (not (is_rebooting n) && is_update_available n.status)) n
            l.update_available;
    }

unfoldable pub upgrade_count : Lists → ℕ
upgrade_count l =
    length l.downloading
    + length l.verifying
    + length l.finalizing
    + length l.update_available
    + length l.updated_needs_reboot
    + length l.rebooting

pub data OverallState : Type 0 where
  updating all_up_to_date : OverallState

unfoldable pub overall_state : Lists → OverallState
overall_state l = if ltb 0 (upgrade_count l) then updating else all_up_to_date

pub data DownloadIcon : Type 0 where
  downloaded spinner pending : DownloadIcon

unfoldable pub get_update_completed_icon_class : Lists → DownloadIcon
get_update_completed_icon_class l =
    if ltb 0 (length l.rebooting) || ltb 0 (length l.updated_needs_reboot) then spinner else pending

module _ (lodash : Lodash) where
  unfoldable pub get_node_list_update_status : List Node → Lists
  get_node_list_update_status nodes = lodash.each nodes add_node no_lists

  unfoldable pub get_download_completed_icon_class : Lists → DownloadIcon
  get_download_completed_icon_class l =
      if lodash.is_empty l.downloading
        && lodash.is_empty l.verifying
        && lodash.is_empty l.finalizing
      then downloaded
      else spinner
