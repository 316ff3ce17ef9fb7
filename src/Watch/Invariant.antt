-- ===== src/Watch/Invariant.antt =====
-- What every step keeps of a watch (frontend/public/module/k8s/k8s-actions.ts).
use web_ui.Base.{
  ◌⊎◌, Option-cases, sym, ℕ, zero, suc, ◌+◌, ◌-◌, ◌≡◌, refl, subst, Bool, true, false, Option, none,
  some, List, [], get_elem?, ltb, Bool-cases, inl, inr, arith,
}
use web_ui.Base.Text.{Text}
use web_ui.Store.Lists.{Resource}
use web_ui.Store.Reducer.{Action}
use web_ui.Watch.Cell.{
  Maker, by_list, by_object, Handle, Cell, idle, without, set_refs, start_timer, set_loads,
  set_gets, stop_counted, stop, watch_list_counted, watch_object_counted, drop_at, later_at,
  page_arrives, page_fails, after_destroy, destroy_socket, times_out, closes_abnormally, fires,
}
use web_ui.Watch.Steps.{
  Event, call_watch_list, call_watch_object, call_stop, page_comes, page_error, object_comes,
  object_error, timer_goes, socket_closes, socket_times_out, replaced_socket_closes,
  socket_messages, with_load, with_handle, with_get, step,
}
use web_ui.Watch.Valid.{
  Unstored-none, unstored_of, uncounted, counted, Quiet-sockets, Quiet-timers, Held-without_held,
  Held, IsValid, Held-get_elem?, Held-empty, idle-IsValid, set_loads-IsValid, set_gets-IsValid,
  clean_up-IsValid, set_refs-IsValid, open_socket-IsValid, start_timer-IsValid,
  ensure_timer-IsValid, socket_after_load-IsValid, poll_and_watch-IsValid,
}

-- The cells that an id can come to.
pub data Reach (id : Text) : Cell → Type 0 where
  nothing_yet : Reach id idle
  and_then : {c : Cell} (e : Event) → Reach id c → Reach id (step id c e).0

stop-IsValid : (id : Text) (c : Cell) (o : Option ℕ) → IsValid c → IsValid (stop_counted id o c).0
unfolding stop_counted
stop-IsValid id c none v = clean_up-IsValid c v
stop-IsValid id c (some n) v = elim (Bool-cases (ltb 0 (n - 1))) [
  | inl more ↦ rw more (set_refs-IsValid c v (n - 1) (ground (arith, more)))
  | inr last ↦ rw last (clean_up-IsValid c v)
]

watch_list-IsValid :
    (id : Text) (c : Cell) (o : Option ℕ)
    → c.refs ≡ o
    → IsValid c
    → IsValid (watch_list_counted id o c).0
unfolding watch_list_counted set_refs
watch_list-IsValid id c (some n) e v = set_refs-IsValid c v (n + 1) (omega arith)
watch_list-IsValid id c none e v =
    poll_and_watch-IsValid (set_refs (some 1) c) (set_refs-IsValid c v 1 (omega arith))
      (uncounted c v e).1

watch_object-IsValid :
    (id : Text) (c : Cell) (o : Option ℕ)
    → c.refs ≡ o
    → IsValid c
    → IsValid (watch_object_counted id o c).0
unfolding watch_object_counted set_refs set_gets start_timer
watch_object-IsValid id c (some n) e v = set_refs-IsValid c v (n + 1) (omega arith)
watch_object-IsValid id c none e v =
    let counted : IsValid (set_refs (some 1) c) = set_refs-IsValid c v 1 (omega arith) in
    let timed : IsValid (start_timer by_object (set_refs (some 1) c)) =
      start_timer-IsValid (set_refs (some 1) c) counted by_object 1 refl (uncounted c v e).1 in
    open_socket-IsValid (set_gets (c.gets + 1) (start_timer by_object (set_refs (some 1) c)))
      (set_gets-IsValid _ timed (c.gets + 1)) by_object 1 refl (uncounted c v e).0

page_arrives-IsValid :
    (id : Text) (n : ℕ) (first : Bool) (items : List Resource) (more : Bool) (c : Cell)
    (o : Option ℕ)
    → c.refs ≡ o
    → IsValid c
    → IsValid (page_arrives id n first items more c o).0
unfolding page_arrives stop set_loads
page_arrives-IsValid id n first items more c none e v =
    stop-IsValid id _ c.refs (set_loads-IsValid c v (drop_at n c.loads))
page_arrives-IsValid id n first items true c (some k) e v =
    set_loads-IsValid c v (later_at n c.loads)
page_arrives-IsValid id n first items false c (some k) e v =
    socket_after_load-IsValid (set_loads (drop_at n c.loads) c)
      (set_loads-IsValid c v (drop_at n c.loads)) k e c.socket refl

page_fails-IsValid :
    (id : Text) (n : ℕ) (message : Text) (c : Cell) (o : Option ℕ)
    → c.refs ≡ o
    → IsValid c
    → IsValid (page_fails id n message c o).0
unfolding page_fails stop set_loads
page_fails-IsValid id n message c none e v =
    stop-IsValid id _ c.refs (set_loads-IsValid c v (drop_at n c.loads))
page_fails-IsValid id n message c (some k) e v =
    ensure_timer-IsValid (set_loads (drop_at n c.loads) c)
      (set_loads-IsValid c v (drop_at n c.loads)) k e c.timer refl

without_socket-IsValid :
    (c : Cell) (n : ℕ) → IsValid c → without n c.sockets ≡ [] → IsValid (destroy_socket n c)
unfolding destroy_socket
without_socket-IsValid c n v gone = record {
  positive = v.positive;
  sockets_held = Held-empty c.socket _ gone;
  timers_held = v.timers_held;
  quiet = Quiet-sockets c.refs c.sockets _ c.timers gone v.quiet;
  unstored = v.unstored;
}

after_destroy-IsValid :
    (c : Cell) (k : ℕ) → IsValid c → c.refs ≡ some k → c.sockets ≡ [] → IsValid (after_destroy c)
unfolding after_destroy
after_destroy-IsValid c k v r e =
    ensure_timer-IsValid _
      record {
        positive = v.positive;
        sockets_held = Held-empty none c.sockets e;
        timers_held = v.timers_held;
        quiet = v.quiet;
        unstored = Unstored-none c.refs;
      }
      k r c.timer refl

times_out-IsValid :
    (c : Cell) (h : Handle) (k : ℕ) (m : Maker)
    → IsValid c
    → c.refs ≡ some k
    → without h.serial c.sockets ≡ []
    → IsValid (times_out h m c)
unfolding times_out destroy_socket
times_out-IsValid c h k by_list v r gone =
    after_destroy-IsValid (destroy_socket h.serial c) k (without_socket-IsValid c h.serial v gone) r
      gone
times_out-IsValid c h k by_object v r gone = without_socket-IsValid c h.serial v gone

closes_abnormally-IsValid :
    (c : Cell) (k : ℕ) (m : Maker) (o : Option Handle)
    → IsValid c
    → c.refs ≡ some k
    → c.socket ≡ o
    → IsValid (closes_abnormally m o c)
unfolding closes_abnormally
closes_abnormally-IsValid c k by_object o v r e = v
closes_abnormally-IsValid c k by_list none v r e = v
closes_abnormally-IsValid c k by_list (some h) v r e =
    times_out-IsValid c h k h.maker v r
      (Held-without_held (some h) c.sockets (subst (λ o. Held o c.sockets) e v.sockets_held))

closes_replaced-IsValid :
    (c : Cell)
    → IsValid c
    → (c.refs ≡ none) ⊎ ((k : ℕ) × (c.refs ≡ some k))
    → IsValid (closes_abnormally by_list c.socket c)
unfolding closes_abnormally
closes_replaced-IsValid c v (inl absent) =
    subst (λ o. IsValid (closes_abnormally by_list o c)) (sym (unstored_of c v absent)) v
closes_replaced-IsValid c v (inr k) = closes_abnormally-IsValid c k.0 by_list c.socket v k.1 refl

fires-IsValid :
    (c : Cell) (h : Handle) (m : Maker)
    → IsValid c
    → without h.serial c.timers ≡ []
    → IsValid (fires h m c)
unfolding fires
fires-IsValid c h by_object v gone = set_gets-IsValid c v (c.gets + 1)
fires-IsValid c h by_list v gone =
    poll_and_watch-IsValid _
      record {
        positive = v.positive;
        sockets_held = v.sockets_held;
        timers_held = Held-empty c.timer _ gone;
        quiet = Quiet-timers c.refs c.sockets c.timers _ gone v.quiet;
        unstored = v.unstored;
      }
      gone

with_load-IsValid :
    (id : Text) (c : Cell) (o : Option Bool) (f : Bool → Cell × List Action)
    → IsValid c
    → ((first : Bool) → IsValid (f first).0)
    → IsValid (with_load id c o f).0
unfolding with_load
with_load-IsValid id c none f v w = v
with_load-IsValid id c (some first) f v w = w first

with_handle-IsValid :
    (id : Text) (c : Cell) (o : Option Handle) (f : Handle → Cell × List Action)
    → IsValid c
    → ((h : Handle) → o ≡ some h → IsValid (f h).0)
    → IsValid (with_handle id c o f).0
unfolding with_handle
with_handle-IsValid id c none f v w = v
with_handle-IsValid id c (some h) f v w = w h refl

with_get-IsValid :
    (id : Text) (c : Cell) (n : ℕ) (a : Action) → IsValid c → IsValid (with_get id c n a).0
unfolding with_get
with_get-IsValid id c zero a v = v
with_get-IsValid id c (suc n) a v = set_gets-IsValid c v n

pub step-IsValid : (id : Text) (c : Cell) (e : Event) → IsValid c → IsValid (step id c e).0
unfolding step stop
step-IsValid id c call_watch_list v = watch_list-IsValid id c c.refs refl v
step-IsValid id c call_watch_object v = watch_object-IsValid id c c.refs refl v
step-IsValid id c call_stop v = stop-IsValid id c c.refs v
step-IsValid id c (page_comes n items more) v =
    with_load-IsValid id c (get_elem? c.loads n) _ v
      (λ first. page_arrives-IsValid id n first items more c c.refs refl v)
step-IsValid id c (page_error n message) v =
    with_load-IsValid id c (get_elem? c.loads n) _ v
      (λ first. page_fails-IsValid id n message c c.refs refl v)
step-IsValid id c (object_comes r) v = with_get-IsValid id c c.gets _ v
step-IsValid id c (object_error message) v = with_get-IsValid id c c.gets _ v
step-IsValid id c (timer_goes n) v =
    with_handle-IsValid id c (get_elem? c.timers n) _ v
      (λ h e. fires-IsValid c h h.maker v (Held-get_elem? c.timer c.timers n h v.timers_held e))
step-IsValid id c (socket_closes n) v = with_handle-IsValid id c (get_elem? c.sockets n) _ v (λ h e.
    let k : (k : ℕ) × (c.refs ≡ some k) = counted c v n h e in
    closes_abnormally-IsValid c k.0 h.maker c.socket v k.1 refl)
step-IsValid id c (socket_times_out n) v =
    with_handle-IsValid id c (get_elem? c.sockets n) _ v (λ h e.
      let k : (k : ℕ) × (c.refs ≡ some k) = counted c v n h e in
      times_out-IsValid c h k.0 h.maker v k.1
        (Held-get_elem? c.socket c.sockets n h v.sockets_held e))
step-IsValid id c replaced_socket_closes v = closes_replaced-IsValid c v (Option-cases c.refs)
step-IsValid id c (socket_messages n es) v =
    with_handle-IsValid id c (get_elem? c.sockets n) _ v (λ h e. v)

-- Whatever happens, a watch that is there has a positive count, there is at most one socket and one timer, those
-- of WS and POLLs, and there are none without a count.
pub Reach-IsValid : (id : Text) (c : Cell) → Reach id c → IsValid c
Reach-IsValid id _ nothing_yet = idle-IsValid
Reach-IsValid id _ (and_then {c} e r) = step-IsValid id c e (Reach-IsValid id c r)
