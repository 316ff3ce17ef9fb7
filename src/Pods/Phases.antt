-- ===== src/Pods/Phases.antt =====
-- What phase a pod has (frontend/public/module/k8s/pods.ts, `podPhase`).
use web_ui.Base.{
  Bool, true, false, ◌&&◌, not, Option, none, some, List, [], ◌∷◌, ◌++◌, null, all, if◌then◌else◌,
}
use web_ui.Base.Text.{Text, codes, same_text}
use web_ui.Lodash.{Lodash}
use web_ui.Store.Maps.{or_first}
use web_ui.Pods.Phase.{
  ContainerStatus, PodStatus, or_text, exited_well, terminated_reason, waiting_reason,
}

-- The specification: the last container that gives a reason.
abbrev pub last_some : (ContainerStatus → Option Text) → List ContainerStatus → Option Text
last_some f [] = none
last_some f (c ∷ cs) = or_first (last_some f cs) (f c)

-- The reason that a container gives, if it gives one.
abbrev pub container_reason : ContainerStatus → Option Text
container_reason c =
    if not (null (terminated_reason c.terminated))
    then some (terminated_reason c.terminated)
    else if not (null (waiting_reason c.waiting))
    then some (waiting_reason c.waiting)
    else none

-- The reason of a container of the initialization, unless it is done or only waits for its turn.
abbrev pub init_reason : ContainerStatus → Option Text
init_reason c =
    if exited_well c.terminated
    then none
    else if not (null (terminated_reason c.terminated))
    then some (codes "Init" ++ terminated_reason c.terminated)
    else if not (null (waiting_reason c.waiting))
        && not (same_text (waiting_reason c.waiting) (codes "PodInitializing"))
    then some (codes "Init" ++ waiting_reason c.waiting)
    else none

abbrev pub initialized : List ContainerStatus → Bool
initialized cs = all (λ c. exited_well c.terminated) cs

-- What the status says: of a pod whose containers of the initialization are all done, the reason of the
-- last container that gives one, and of any other pod, behind Init, that of the last container of the
-- initialization that is not done and gives one; where none gives one, the phase, or else the reason.
abbrev pub described : PodStatus → Option Text
described s =
    or_first
      (if initialized s.init_container_statuses
        then last_some container_reason s.container_statuses
        else last_some init_reason s.init_container_statuses)
      (or_text s.phase s.reason)

abbrev pub phase_by : Bool → Option PodStatus → Option Text
phase_by deleted none = some []
phase_by true (some s) = some (codes "Terminating")
phase_by false (some s) = described s
