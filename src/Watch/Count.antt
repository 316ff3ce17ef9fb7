-- ===== src/Watch/Count.antt =====
-- The count of a watch is the number of its watchers, and what that says of the sockets
-- and timers (frontend/public/module/k8s/k8s-actions.ts).
use web_ui.Base.{
  ℕ, zero, suc, ◌+◌, ◌-◌, ◌≡◌, refl, ap, ◌∙◌, Bool, true, false, Option, none, some, List, [], ◌∷◌,
  get_elem?, ltb, Bool-cases, inl, inr, arith,
}
use web_ui.Base.Text.{Text}
use web_ui.Store.Lists.{Resource}
use web_ui.Store.Reducer.{Action}
use web_ui.Watch.Cell.{
  by_list, Maker, by_list, by_object, Handle, Cell, idle, set_refs, open_socket, start_timer,
  ensure_timer, set_loads, set_gets, poll_and_watch, clean_up, stop_counted, stop,
  watch_list_counted, watch_object_counted, socket_after_load, drop_at, page_arrives, page_fails,
  after_destroy, destroy_socket, times_out, closes_abnormally, fires,
}
use web_ui.Watch.Steps.{
  Event, call_watch_list, call_watch_object, call_stop, page_comes, page_error, object_comes,
  object_error, timer_goes, socket_closes, socket_times_out, replaced_socket_closes,
  socket_messages, with_load, with_handle, with_get, step,
}
use web_ui.Watch.Valid.{uncounted, Positive, IsValid, idle-IsValid}
use web_ui.Watch.Steps.{run}
use web_ui.Watch.Invariant.{step-IsValid}

abbrev pub count : Option ℕ → ℕ
count none = 0
count (some n) = n

-- The specification: the number of those who watch.
abbrev pub watchers : ℕ → Event → ℕ
watchers n call_watch_list = n + 1
watchers n call_watch_object = n + 1
watchers n call_stop = n - 1
watchers n _ = n

abbrev pub watchers_all : ℕ → List Event → ℕ
watchers_all n [] = n
watchers_all n (e ∷ es) = watchers_all (watchers n e) es

count-stop :
    (id : Text) (c : Cell) (o : Option ℕ) → count (stop_counted id o c).0.refs ≡ count o - 1
unfolding stop_counted clean_up set_refs
count-stop id c none = refl
count-stop id c (some n) = elim (Bool-cases (ltb 0 (n - 1))) [
  | inl more ↦ rw more refl
  | inr last ↦ rw last (ground (arith, last))
]

count-watch_list :
    (id : Text) (c : Cell) (o : Option ℕ) → count (watch_list_counted id o c).0.refs ≡ count o + 1
unfolding watch_list_counted set_refs poll_and_watch
count-watch_list id c none = refl
count-watch_list id c (some n) = refl

count-watch_object :
    (id : Text) (c : Cell) (o : Option ℕ) → count (watch_object_counted id o c).0.refs ≡ count o + 1
unfolding watch_object_counted set_refs set_gets start_timer open_socket
count-watch_object id c none = refl
count-watch_object id c (some n) = refl

refs-socket_after_load : (c : Cell) (o : Option Handle) → (socket_after_load c o).refs ≡ c.refs
unfolding socket_after_load open_socket
refs-socket_after_load c none = refl
refs-socket_after_load c (some h) = refl

refs-ensure_timer : (c : Cell) (o : Option Handle) → (ensure_timer c o).refs ≡ c.refs
unfolding ensure_timer start_timer
refs-ensure_timer c none = refl
refs-ensure_timer c (some h) = refl

-- A load that ends without a count stops once more, which leaves it at none.
count-stop_again : (id : Text) (c : Cell) → c.refs ≡ none → count (stop id c).0.refs ≡ count c.refs
unfolding stop
count-stop_again id c e = count-stop id c c.refs ∙ rw e refl

count-page_arrives :
    (id : Text) (n : ℕ) (first : Bool) (items : List Resource) (more : Bool) (c : Cell)
    (o : Option ℕ)
    → c.refs ≡ o
    → count (page_arrives id n first items more c o).0.refs ≡ count c.refs
unfolding page_arrives set_loads
count-page_arrives id n first items more c none e = count-stop_again id _ e
count-page_arrives id n first items true c (some k) e = refl
count-page_arrives id n first items false c (some k) e =
    ap count (refs-socket_after_load (set_loads (drop_at n c.loads) c) c.socket)

count-page_fails :
    (id : Text) (n : ℕ) (message : Text) (c : Cell) (o : Option ℕ)
    → c.refs ≡ o
    → count (page_fails id n message c o).0.refs ≡ count c.refs
unfolding page_fails set_loads
count-page_fails id n message c none e = count-stop_again id _ e
count-page_fails id n message c (some k) e =
    ap count (refs-ensure_timer (set_loads (drop_at n c.loads) c) c.timer)

refs-times_out : (c : Cell) (h : Handle) (m : Maker) → (times_out h m c).refs ≡ c.refs
unfolding times_out after_destroy destroy_socket
refs-times_out c h by_list = refs-ensure_timer _ c.timer
refs-times_out c h by_object = refl

refs-closes_abnormally :
    (c : Cell) (m : Maker) (o : Option Handle) → (closes_abnormally m o c).refs ≡ c.refs
unfolding closes_abnormally
refs-closes_abnormally c by_object o = refl
refs-closes_abnormally c by_list none = refl
refs-closes_abnormally c by_list (some h) = refs-times_out c h h.maker

refs-fires : (c : Cell) (h : Handle) (m : Maker) → (fires h m c).refs ≡ c.refs
unfolding fires set_gets poll_and_watch
refs-fires c h by_list = refl
refs-fires c h by_object = refl

count-with_load :
    (id : Text) (c : Cell) (o : Option Bool) (f : Bool → Cell × List Action)
    → ((first : Bool) → count (f first).0.refs ≡ count c.refs)
    → count (with_load id c o f).0.refs ≡ count c.refs
unfolding with_load
count-with_load id c none f h = refl
count-with_load id c (some first) f h = h first

count-with_handle :
    (id : Text) (c : Cell) (o : Option Handle) (f : Handle → Cell × List Action)
    → ((h : Handle) → (f h).0.refs ≡ c.refs)
    → count (with_handle id c o f).0.refs ≡ count c.refs
unfolding with_handle
count-with_handle id c none f h = refl
count-with_handle id c (some k) f h = ap count (h k)

count-with_get :
    (id : Text) (c : Cell) (n : ℕ) (a : Action) → count (with_get id c n a).0.refs ≡ count c.refs
unfolding with_get set_gets
count-with_get id c zero a = refl
count-with_get id c (suc n) a = refl

count-step :
    (id : Text) (c : Cell) (e : Event) → count (step id c e).0.refs ≡ watchers (count c.refs) e
unfolding step stop
count-step id c call_watch_list = count-watch_list id c c.refs
count-step id c call_watch_object = count-watch_object id c c.refs
count-step id c call_stop = count-stop id c c.refs
count-step id c (page_comes n items more) =
    count-with_load id c (get_elem? c.loads n) _
      (λ first. count-page_arrives id n first items more c c.refs refl)
count-step id c (page_error n message) =
    count-with_load id c (get_elem? c.loads n) _
      (λ first. count-page_fails id n message c c.refs refl)
count-step id c (object_comes r) = count-with_get id c c.gets _
count-step id c (object_error message) = count-with_get id c c.gets _
count-step id c (timer_goes n) =
    count-with_handle id c (get_elem? c.timers n) _ (λ h. refs-fires c h h.maker)
count-step id c (socket_closes n) =
    count-with_handle id c (get_elem? c.sockets n) _
      (λ h. refs-closes_abnormally c h.maker c.socket)
count-step id c (socket_times_out n) =
    count-with_handle id c (get_elem? c.sockets n) _ (λ h. refs-times_out c h h.maker)
count-step id c replaced_socket_closes = ap count (refs-closes_abnormally c by_list c.socket)
count-step id c (socket_messages n es) =
    count-with_handle id c (get_elem? c.sockets n) _ (λ h. refl)

count-run :
    (id : Text) (c : Cell) (es : List Event)
    → count (run id c es).0.refs ≡ watchers_all (count c.refs) es
unfolding run
count-run id c [] = refl
count-run id c (e ∷ es) =
    count-run id (step id c e).0 es ∙ ap (λ n. watchers_all n es) (count-step id c e)

pub run-IsValid : (id : Text) (c : Cell) (es : List Event) → IsValid c → IsValid (run id c es).0
unfolding run
run-IsValid id c [] v = v
run-IsValid id c (e ∷ es) v = run-IsValid id (step id c e).0 es (step-IsValid id c e v)

-- The count refines the number of watchers: whatever happens and in whatever order, it is the number
-- of calls that watch less those that stop, where a stop that nobody waits for counts for nothing.
pub count-run-idle :
    (id : Text) (es : List Event) → count (run id idle es).0.refs ≡ watchers_all 0 es
unfolding idle
count-run-idle id es = count-run id idle es

uncounted-Positive :
    (c : Cell) (o : Option ℕ) → c.refs ≡ o → Positive o → count o ≡ 0 → c.refs ≡ none
unfolding Positive
uncounted-Positive c none e p z = e
uncounted-Positive c (some n) e p z = absurd (omega (arith, p, z))

-- Once everybody who watched has stopped, `destroy` has been called on every WSFactory that was made for
-- the id, and no timer is set, whatever came in between and whatever answers are still to come.
pub run-nothing_left :
    (id : Text) (es : List Event)
    → watchers_all 0 es ≡ 0
    → ((run id idle es).0.sockets ≡ []) × ((run id idle es).0.timers ≡ [])
run-nothing_left id es z =
    let v : IsValid (run id idle es).0 = run-IsValid id idle es idle-IsValid in
    uncounted (run id idle es).0 v (
      uncounted-Positive (run id idle es).0 (run id idle es).0.refs refl v.positive
        (count-run-idle id es ∙ z))
