-- ===== src/Operators/Tests.antt =====
-- Update operators and channels at concrete inputs.
use web_ui.Base.{true, false, none, some, List, [], ◌∷◌}
use web_ui.Operators.States.{State, Primary, complete, pending}
use web_ui.Operators.ContainerLinux.{Node}

abbrev primary : Primary
primary = record { paused_status = true; paused_spec = true; failure_status = false }

abbrev components : List State
components = complete ∷ pending ∷ []

abbrev rebooting_node : Node
rebooting_node = record {
  id = true;
  before_reboot = none;
  status = some "UPDATE_STATUS_UPDATED_NEED_REBOOT";
  reboot_in_progress = some "true";
  reboot_needed = some "true";
}
