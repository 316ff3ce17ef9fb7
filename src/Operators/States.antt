-- ===== src/Operators/States.antt =====
-- frontend/public/components/utils/operator-states.jsx: the state of one operator, and of the channel.
use web_ui.Base.{
  ℕ, ◌+◌, Bool, true, false, ◌&&◌, Option, none, some, List, [], ◌∷◌, ltb, if◌then◌else◌,
}
use Prim.Native.String.{String}
use text.Mathlib.Text.{◌==◌}
use web_ui.Lodash.{Lodash}

pub data State : Type 0 where
  complete failed loading needs_attention paused pausing requested update_available updating pending
        up_to_date :
      State

-- What `determineOperatorState` reads.
pub record Operator : Type 0 where
  pub failure_status : Bool
  pub paused_status : Bool
  pub target_version : Bool
  pub current_version : String
  pub desired_version : String

unfoldable pub determine_operator_state : Operator → State
determine_operator_state o =
    if o.failure_status
    then failed
    else if o.paused_status
    then paused
    else if o.target_version
    then updating
    else if o.current_version == o.desired_version
    then complete
    else pending

pub record Primary : Type 0 where
  pub paused_status : Bool
  pub paused_spec : Bool
  pub failure_status : Bool

abbrev pub same_state : State → State → Bool
same_state complete complete = true
same_state failed failed = true
same_state loading loading = true
same_state needs_attention needs_attention = true
same_state paused paused = true
same_state pausing pausing = true
same_state requested requested = true
same_state update_available update_available = true
same_state updating updating = true
same_state pending pending = true
same_state up_to_date up_to_date = true
same_state _ _ = false

-- `aggregateState`: how many components are in a state.
unfoldable pub aggregate_state : List State → State → ℕ
aggregate_state [] p = 0
aggregate_state (s ∷ ss) p =
    let rest = aggregate_state ss p in if same_state s p then rest + 1 else rest

abbrev pub priority : List State
priority = needs_attention ∷ updating ∷ pending ∷ []

-- `config && config.triggerUpdate`
abbrev pub triggered : Option Bool → Bool
triggered none = false
triggered (some b) = b

abbrev pub is_pending : Option State → Bool
is_pending (some pending) = true
is_pending _ = false

abbrev pub is_available : Option State → Bool
is_available (some update_available) = true
is_available _ = false

abbrev pub or_up_to_date : Option State → State
or_up_to_date none = up_to_date
or_up_to_date (some s) = s

module _ (lodash : Lodash) where
  unfoldable pub channel_state : List State → Option State
  channel_state components = lodash.find priority (λ p. ltb 0 (aggregate_state components p))

  -- `config` is the configuration's `triggerUpdate`, if there is a configuration.
  unfoldable pub calculate_channel_state : List State → Primary → Option Bool → State
  calculate_channel_state components primary config =
      let state = channel_state components in
      if is_pending state
      then update_available
      else if primary.paused_status && primary.paused_spec
      then paused
      else if primary.paused_spec
      then pausing
      else if primary.failure_status
      then failed
      else if triggered config && is_available state
      then requested
      else or_up_to_date state
