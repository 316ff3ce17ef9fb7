-- ===== src/Pods/Phase.antt =====
-- frontend/public/module/k8s/pods.ts: the phase and the readiness of a pod.
use web_ui.Base.{
  ℕ, Bool, true, false, ◌&&◌, not, Option, none, some, List, [], ◌∷◌, ◌++◌, null, ltb, ◌==◌,
  if◌then◌else◌,
}
use web_ui.Base.Text.{Text, codes, same_text, starts_with}
use web_ui.Lodash.{Lodash}

pub record Terminated : Type 0 where
  pub exit_code : ℕ
  pub reason : Text

-- The state of a container; `waiting` has its reason. A reason that is missing is an empty text, which is
-- taken for no reason all the same.
pub record ContainerStatus : Type 0 where
  pub terminated : Option Terminated
  pub waiting : Option Text

-- A condition, with its last transition as a date, which is `none` where it is invalid.
pub record Condition : Type 0 where
  pub status : Text
  pub time : Option ℕ
  pub reason : Text
  pub kind : Text

pub record PodStatus : Type 0 where
  pub phase : Option Text
  pub reason : Option Text
  pub init_container_statuses : List ContainerStatus
  pub container_statuses : List ContainerStatus
  pub conditions : List Condition

pub record Pod : Type 0 where
  pub deleted : Bool
  pub status : Option PodStatus

-- `a || b` on texts that may be missing
abbrev pub or_text : Option Text → Option Text → Option Text
or_text none b = b
or_text (some []) b = b
or_text (some (c ∷ s)) b = some (c ∷ s)

abbrev pub exited_well : Option Terminated → Bool
exited_well none = false
exited_well (some t) = t.exit_code == 0

abbrev pub terminated_reason : Option Terminated → Text
terminated_reason none = []
terminated_reason (some t) = t.reason

abbrev pub waiting_reason : Option Text → Text
waiting_reason none = []
waiting_reason (some r) = r

-- One container of the initialization: whether one is not done, and the phase.
unfoldable pub init_step : Bool × Option Text → ContainerStatus → Bool × Option Text
init_step s c =
    if exited_well c.terminated
    then s
    else if not (null (terminated_reason c.terminated))
    then (true, some (codes "Init" ++ terminated_reason c.terminated))
    else if not (null (waiting_reason c.waiting))
        && not (same_text (waiting_reason c.waiting) (codes "PodInitializing"))
    then (true, some (codes "Init" ++ waiting_reason c.waiting))
    else (true, s.1)

unfoldable pub container_step : Option Text → ContainerStatus → Option Text
container_step phase c =
    if not (null (terminated_reason c.terminated))
    then some (terminated_reason c.terminated)
    else if not (null (waiting_reason c.waiting))
    then some (waiting_reason c.waiting)
    else phase

-- `includes`
unfoldable pub contains : Text → Text → Bool
contains [] part = starts_with [] part
contains (c ∷ s) part =
    let rest = contains s part in if starts_with (c ∷ s) part then true else rest

abbrev pub crash_loop : Text
crash_loop = codes "CrashLoopBackOff"

-- `_.get(pod, 'status.phase', 'Unknown')`
abbrev pub phase_or_unknown : Option PodStatus → Text
phase_or_unknown none = codes "Unknown"
phase_or_unknown (some s) = or_unknown s.phase
  where
    or_unknown : Option Text → Text
    or_unknown none = codes "Unknown"
    or_unknown (some p) = p

abbrev pub is_true : Condition → Bool
is_true c = same_text c.status (codes "True")

-- `<` on dates
abbrev pub is_before : Option ℕ → Option ℕ → Bool
is_before (some a) (some b) = ltb a b
is_before _ _ = false

unfoldable pub earlier : Option Condition → Condition → Option Condition
earlier none c = some c
earlier (some e) c = if is_before c.time e.time then some c else some e

unfoldable pub earliest_step : Option Condition → Condition → Option Condition
unfolding earlier
earliest_step e c = if is_true c then e else earlier e c

abbrev pub all_ready_step : Bool → Condition → Bool
all_ready_step ready c = if not (is_true c) then false else ready

abbrev pub reason_or_kind : Option Condition → Option Text
reason_or_kind none = none
reason_or_kind (some c) = some (if null c.reason then c.kind else c.reason)

module _ (lodash : Lodash) where
  open lodash use {each, is_empty}

  unfoldable pub status_phase : PodStatus → Option Text
  status_phase s =
      let init = each s.init_container_statuses init_step (false, or_text s.phase s.reason) in
      if init.0 then init.1 else each s.container_statuses container_step init.1

  unfoldable pub phase_of : Bool → Option PodStatus → Option Text
  unfolding status_phase
  phase_of deleted none = some []
  phase_of deleted (some s) = if deleted then some (codes "Terminating") else status_phase s

  unfoldable pub pod_phase : Option Pod → Option Text
  unfolding phase_of
  pod_phase none = some []
  pod_phase (some p) = phase_of p.deleted p.status

  -- A phase that is undefined has no `includes`, which throws.
  unfoldable pub filter_phase : Option PodStatus → Option Text → Option Text
  filter_phase status none = none
  filter_phase status (some phase) =
      if same_text phase (codes "Terminating")
      then some phase
      else if contains phase crash_loop
      then some crash_loop
      else some (phase_or_unknown status)

  unfoldable pub pod_phase_filter_reducer : Pod → Option Text
  unfolding pod_phase filter_phase
  pod_phase_filter_reducer p = filter_phase p.status (pod_phase (some p))

  -- `none` is null.
  unfoldable pub pod_readiness : PodStatus → Option Text
  pod_readiness s =
      if is_empty s.conditions
      then none
      else if each s.conditions all_ready_step true
      then some (codes "Ready")
      else reason_or_kind (each s.conditions earliest_step none)
