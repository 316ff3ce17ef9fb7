-- ===== src/Operators/Channel.antt =====
-- What the state of the channel can be (frontend/public/components/utils/operator-states.jsx).
use web_ui.Base.{
  ◌↔◌, ◌≡◌, ◌≢◌, refl, Bool, true, false, Option, none, some, List, [], ◌∷◌, ltb, if◌then◌else◌,
  arith, any,
}
use web_ui.Lodash.{Lodash}
use web_ui.Operators.States.{
  State, failed, needs_attention, paused, pausing, requested, update_available, updating, pending,
  up_to_date, Primary, same_state, aggregate_state, channel_state, calculate_channel_state,
}

aggregate_state-any :
    (ss : List State) (p : State) → ltb 0 (aggregate_state ss p) ≡ any (λ s. same_state s p) ss
unfolding aggregate_state
aggregate_state-any [] p = refl
aggregate_state-any (s ∷ ss) p = ground (arith, aggregate_state-any ss p)

-- Some component is in a state.
abbrev pub some_in : List State → State → Bool
some_in ss p = any (λ s. same_state s p) ss

module _ (lodash : Lodash) where
  channel_state_lem :
      (ss : List State)
      → channel_state lodash ss ≡ (
          if some_in ss needs_attention
          then some needs_attention
          else if some_in ss updating
          then some updating
          else if some_in ss pending
          then some pending
          else none)
  unfolding channel_state
  channel_state_lem ss = rw (lodash.find_cons needs_attention) (
      rw (lodash.find_cons updating) (
        rw (lodash.find_cons pending) (
          rw (lodash.find_nil) (
            rw (aggregate_state-any ss needs_attention)
              (rw (aggregate_state-any ss updating) (rw (aggregate_state-any ss pending)))))))

-- The channel offers an update exactly when a component is pending and none needs attention or is
-- updating, also while the updates are paused or have failed.
pub calculate-eq-update_available_iff :
    (lodash : Lodash) (ss : List State) (p : Primary) (config : Option Bool)
    → (calculate_channel_state lodash ss p config ≡ update_available) ↔ (
        (some_in ss pending ≡ true)
        × (some_in ss needs_attention ≡ false)
        × (some_in ss updating ≡ false))
unfolding calculate_channel_state
calculate-eq-update_available_iff lodash ss p config =
    rw (channel_state_lem lodash ss) (ground arith)

-- Whatever the components, the primary component and the configuration, the channel is never in the
-- state `Requested`.
pub calculate-ne-requested :
    (lodash : Lodash) (ss : List State) (p : Primary) (config : Option Bool)
    → calculate_channel_state lodash ss p config ≢ requested
unfolding calculate_channel_state
calculate-ne-requested lodash ss p config = rw (channel_state_lem lodash ss) (ground arith)

-- With no component pending, updating or in need of attention, the primary component alone decides.
pub calculate_quiet :
    (lodash : Lodash) (ss : List State) (p : Primary) (config : Option Bool)
    → some_in ss pending ≡ false
    → some_in ss needs_attention ≡ false
    → some_in ss updating ≡ false
    → calculate_channel_state lodash ss p config ≡ (
        if p.paused_spec
        then (if p.paused_status then paused else pausing)
        else if p.failure_status
        then failed
        else up_to_date)
unfolding calculate_channel_state
calculate_quiet lodash ss p config a b c = rw (channel_state_lem lodash ss) (ground arith)
