-- ===== src/Ws/Backoff.antt =====
-- The delays between reconnection attempts, and when `attempt` gives up
-- (frontend/public/module/ws-factory.js, `_reconnect`).
use web_ui.Base.{
  ℕ, zero, suc, ◌+◌, ◌≤◌, ◌<◌, ◌≡◌, ◌⊎◌, inl, inr, refl, ◌≢◌, Bool, true, false, Option, none, some,
  List, [], ◌∷◌, arith, length, ==_refl, ltb, ◌&&◌, Bool-cases, ap, ◌∙◌, subst, sym,
}
use native.Mathlib.Decide.{ℕ_discrete}
use web_ui.Ws.Defs.{
  destroyed, is_open, is_destroyed, Options, Timer, Ws, next_delay, attempt, connect, reconnect,
  schedule, destroy, trigger_event, invoke_handlers, clear_attempt, without_timer,
}
use web_ui.Ws.Run.{timer_fires, step, find_timer}

-- Between a second and a minute the next delay is no shorter, at most a minute, and longer unless it
-- is a minute.
pub next_delay_bounds :
    (d : ℕ)
    → 1000 ≤ d
    → d ≤ 60000
    → (d ≤ next_delay d) × (next_delay d ≤ 60000) × (d < 60000 → d < next_delay d)
unfolding next_delay
next_delay_bounds d lo hi = (omega arith, omega arith, λ h. omega arith)

-- The delay of the timeout that is pending after `n` rounds.
unfoldable pub delay_at : ℕ → ℕ
delay_at zero = 1000
delay_at (suc n) = next_delay (delay_at n)

pub delay_at-bounds : (n : ℕ) → (1000 ≤ delay_at n) × (delay_at n ≤ 60000)
unfolding delay_at
delay_at-bounds zero = omega arith
delay_at-bounds (suc n) =
    let (lo, hi) = delay_at-bounds n in
    let (up, cap, _) = next_delay_bounds (delay_at n) lo hi in (omega arith, cap)

delay_at_eleven : delay_at 11 ≡ 60000
unfolding delay_at next_delay
delay_at_eleven = refl

delay_at_cap : (n : ℕ) → delay_at n ≡ 60000 → delay_at (suc n) ≡ 60000
unfolding delay_at next_delay
delay_at_cap n h = omega arith

delay_at-eq_minute : (n : ℕ) → delay_at (11 + n) ≡ 60000
delay_at-eq_minute zero = delay_at_eleven
delay_at-eq_minute (suc n) =
    ap delay_at (eleven_suc n) ∙ delay_at_cap (11 + n) (delay_at-eq_minute n)
  where
    eleven_suc : (m : ℕ) → 11 + suc m ≡ suc (11 + m)
    eleven_suc m = omega arith

without_timer-nil : (c : Option ℕ) → without_timer c [] ≡ []
without_timer-nil none = refl
without_timer-nil (some i) = refl

find_timer_self :
    (i d : ℕ) (ts : List Timer)
    → ts ≡ record { id = i; delay = d } ∷ []
    → find_timer i ts ≡ some (record { id = i; delay = d })
find_timer_self i d ts e = rw e (rw (==_refl i))

without_timer_self :
    (i d : ℕ) (ts : List Timer)
    → ts ≡ record { id = i; delay = d } ∷ []
    → without_timer (some i) ts ≡ []
without_timer_self i d ts e = rw e (rw (==_refl i))

module _ {H D : Type 0} (j : D → Option D) where
  -- The pending timeout fires; `created` says whether its `new WebSocket` returned.
  unfoldable pub fire_pending : Bool → Ws H D → Ws H D
  fire_pending created s = elim s.timers [ [] ↦ s | t ∷ _ ↦ step j s (timer_fires t.id created) ]

  -- One timeout after another fires, and no socket opens.
  pub fire_all : List Bool → Ws H D → Ws H D
  fire_all [] s = s
  fire_all (c ∷ cs) s = fire_all cs (fire_pending c s)

abbrev gives_up : ℕ → ℕ → Bool
gives_up timeout n = ltb 0 timeout && ltb timeout (delay_at n)

gives_up-eleven :
    (timeout n : ℕ) → 0 < timeout → timeout < 60000 → n ≡ 11 → gives_up timeout n ≡ true
gives_up-eleven timeout n on short e = rw e (rw delay_at_eleven (ground arith))

waits-lt-eleven :
    (timeout n : ℕ)
    → 0 < timeout
    → timeout < 60000
    → n ≤ 11
    → gives_up timeout n ≡ false
    → suc n ≤ 11
waits-lt-eleven timeout n on short near under = elim (ℕ_discrete n 11) [
  | yes e ↦ absurd (true-ne-false (sym (gives_up-eleven timeout n on short e) ∙ under))
  | no ne ↦ omega arith
]
  where
    true-ne-false : true ≢ false
    true-ne-false e = cc

-- The object waits for its attempt number `n`, with `timeout` in its options.
pub record IsWaiting {H D : Type 0} (timeout n : ℕ) (s : Ws H D) : Type 0 where
  pub opts : Options
  pub options : s.options ≡ some opts
  pub reconnect : opts.reconnect ≡ true
  pub timeout_is : opts.timeout ≡ timeout
  pub closed : is_open s.state ≡ false
  pub alive : is_destroyed s.state ≡ false
  pub id : ℕ
  pub timers : s.timers ≡ record { id = id; delay = delay_at n } ∷ []
  pub attempt : s.connection_attempt ≡ some id

module _ {H D : Type 0} (j : D → Option D) where
  fire_timers :
      (created : Bool) (i d : ℕ) (s : Ws H D)
      → s.timers ≡ record { id = i; delay = d } ∷ []
      → fire_pending j created s ≡ attempt created d (record s { timers = [] })
  unfolding fire_pending step
  fire_timers created i d s e =
      rw (e, fire_pending)
        (alone (find_timer_self i d s.timers e) (without_timer_self i d s.timers e))
    where
      alone :
          find_timer i s.timers ≡ some (record { id = i; delay = d })
          → without_timer (some i) s.timers ≡ []
          → step j s (timer_fires i created) ≡ attempt created d (record s { timers = [] })
      alone found gone = rw (found, step) (rw gone)

  module _ (timeout n : ℕ) (created : Bool) (s : Ws H D) where
    fire-gives_up :
        IsWaiting timeout n s
        → gives_up timeout n ≡ true
        → ((fire_pending j created s).state ≡ destroyed) × ((fire_pending j created s).timers ≡ [])
    unfolding attempt clear_attempt destroy trigger_event invoke_handlers
    fire-gives_up w h =
        rw (fire_timers created w.id (delay_at n) s w.timers)
          (ground (arith, without_timer-nil s.connection_attempt))

    pub fire-waits :
        IsWaiting timeout n s
        → gives_up timeout n ≡ false
        → IsWaiting timeout (suc n) (fire_pending j created s)
    unfolding attempt connect reconnect schedule delay_at
    fire-waits w h = rw (fire_timers created w.id (delay_at n) s w.timers) (record {
      opts = w.opts;
      options = ground arith;
      reconnect = w.reconnect;
      timeout_is = w.timeout_is;
      closed = ground arith;
      alive = ground arith;
      id = s.next_timer;
      timers = ground arith;
      attempt = ground arith;
    })

module _ {H D : Type 0} (j : D → Option D) where
  fire_pending-idle : (c : Bool) (s : Ws H D) → s.timers ≡ [] → fire_pending j c s ≡ s
  unfolding fire_pending
  fire_pending-idle c s e =
      ap
        (λ (ts : List Timer). elim ts as (λ _. Ws H D) [
          | [] ↦ s
          | t ∷ _ ↦ step j s (timer_fires t.id c)
        ])
        e

  fire_all-destroyed :
      (cs : List Bool) (s : Ws H D)
      → s.state ≡ destroyed
      → s.timers ≡ []
      → (fire_all j cs s).state ≡ destroyed
  unfolding fire_all
  fire_all-destroyed [] s d e = d
  fire_all-destroyed (c ∷ cs) s d e =
      subst (λ t. (fire_all j cs t).state ≡ destroyed) (sym (fire_pending-idle c s e))
        (fire_all-destroyed cs s d e)

  fire_all-IsWaiting :
      (timeout n : ℕ) (cs : List Bool) (s : Ws H D)
      → (timeout ≡ 0) ⊎ (60000 ≤ timeout)
      → IsWaiting timeout n s
      → IsWaiting timeout (n + length cs) (fire_all j cs s)
  unfolding fire_all
  fire_all-IsWaiting timeout n [] s never w = subst (λ k. IsWaiting timeout k s) (omega arith) w
  fire_all-IsWaiting timeout n (c ∷ cs) s never w =
      let w' = fire-waits j timeout n c s w (ground (arith, delay_at-bounds n)) in
      subst (λ k. IsWaiting timeout k (fire_all j cs (fire_pending j c s))) (omega arith)
        (fire_all-IsWaiting timeout (suc n) cs _ never w')

  fire_all-gives_up :
      (timeout n : ℕ) (cs : List Bool) (s : Ws H D)
      → 0 < timeout
      → timeout < 60000
      → IsWaiting timeout n s
      → 12 ≤ n + length cs
      → n ≤ 11
      → (fire_all j cs s).state ≡ destroyed
  unfolding fire_all
  fire_all-gives_up timeout n [] s on short w far near = absurd (omega arith)
  fire_all-gives_up timeout n (c ∷ cs) s on short w far near =
      elim (Bool-cases (gives_up timeout n)) [
        | inl over ↦
            let (d, e) = fire-gives_up j timeout n c s w over in fire_all-destroyed cs _ d e
        | inr under ↦
            fire_all-gives_up timeout (suc n) cs _ on short (fire-waits j timeout n c s w under)
              (omega arith) (waits-lt-eleven timeout n on short near under)
      ]

-- While no socket opens, an object that waits for its first attempt, with a timeout under a minute,
-- is destroyed by twelve attempts or more.
pub fire_all-eq_destroyed :
    {H D : Type 0} (j : D → Option D) (timeout : ℕ) (cs : List Bool) (s : Ws H D)
    → IsWaiting timeout 0 s
    → 0 < timeout
    → timeout < 60000
    → 12 ≤ length cs
    → (fire_all j cs s).state ≡ destroyed
fire_all-eq_destroyed j timeout cs s w on short far =
    fire_all-gives_up j timeout 0 cs s on short w (omega arith) (omega arith)

-- With a timeout of a minute or more, or none, it never gives up: after any number of attempts it
-- waits for the next one, at the delay for that one.
pub fire_all-never_gives_up :
    {H D : Type 0} (j : D → Option D) (timeout : ℕ) (cs : List Bool) (s : Ws H D)
    → IsWaiting timeout 0 s
    → (timeout ≡ 0) ⊎ (60000 ≤ timeout)
    → IsWaiting timeout (length cs) (fire_all j cs s)
fire_all-never_gives_up j timeout cs s w never =
    subst (λ k. IsWaiting timeout k (fire_all j cs s)) (omega arith)
      (fire_all-IsWaiting j timeout 0 cs s never w)
