-- ===== src/Watch/Silence.antt =====
-- What a watch that is over still dispatches, and what that does to the store
-- (frontend/public/module/k8s/k8s-actions.ts, frontend/public/module/k8s/k8s-reducers.ts).
use web_ui.Base.{
  subst, ℕ, zero, suc, ◌≡◌, refl, sym, ap, ◌∙◌, Bool, true, false, Option, none, some, List, [],
  ◌∷◌, get_elem?, arith,
}
use mathlib.Core.Option.{none-ne-some}
use web_ui.Base.Text.{Text}
use web_ui.Store.Lists.{Resource}
use web_ui.Store.Reducer.{Action}
use web_ui.Watch.Cell.{
  by_list, closes_abnormally, Handle, Cell, set_loads, clean_up, stop_counted, stop, drop_at,
  page_arrives, page_fails,
}
use web_ui.Watch.Steps.{
  Event, call_watch_list, call_watch_object, call_stop, page_comes, page_error, object_comes,
  object_error, timer_goes, socket_closes, socket_times_out, replaced_socket_closes,
  socket_messages, with_load, with_handle, with_get, step,
}
use web_ui.Watch.Valid.{unstored_of, uncounted, IsValid}
use web_ui.Watch.Steps.{run}
use web_ui.Watch.Invariant.{step-IsValid}
use mathlib.Core.Bool.{true≢false}
use web_ui.Watch.Invariant.{Reach, Reach-IsValid}
use web_ui.Base.{◌++◌, ◌&&◌}
use web_ui.Base.Text.{same_text_refl}
use web_ui.Store.Views.{Seen, absent, happens, happens_all}

-- Nobody watches again.
abbrev pub no_watch : Event → Bool
no_watch call_watch_list = false
no_watch call_watch_object = false
no_watch _ = true

abbrev pub no_watches : List Event → Bool
no_watches [] = true
no_watches (e ∷ es) = no_watch e && no_watches es

pub happens_all-append :
    (i k : Text) (o : Seen) (as_done later : List Action)
    → happens_all i k o (as_done ++ later) ≡ happens_all i k (happens_all i k o as_done) later
unfolding happens_all
happens_all-append i k o [] later = refl
happens_all-append i k o (a ∷ as_done) later =
    happens_all-append i k (happens i k o a) as_done later

-- A cell without watchers or requests of the poller, of which the store does not hear.
abbrev Over : Text → Text → Cell × List Action → Type 0
Over id k d = (d.0.refs ≡ none) × (d.0.gets ≡ 0) × (happens_all id k absent d.1 ≡ absent)

module _ (id k : Text) where
  nothing-Over : (c : Cell) → c.refs ≡ none → c.gets ≡ 0 → Over id k (c, [])
  unfolding happens_all
  nothing-Over c r g = (r, g, refl)

  stop-Over : (c : Cell) → c.refs ≡ none → c.gets ≡ 0 → Over id k (stop id c)
  unfolding stop stop_counted clean_up happens_all happens
  stop-Over c r g = rw r (refl, g, rw (same_text_refl id) refl)

  stop_load-Over :
      (c : Cell) (ls : List Bool)
      → c.refs ≡ none
      → c.gets ≡ 0
      → Over id k (stop id (set_loads ls c))
  unfolding set_loads
  stop_load-Over c ls r g = stop-Over (set_loads ls c) r g

  with_load-Over :
      (c : Cell) (o : Option Bool) (f : Bool → Cell × List Action)
      → c.refs ≡ none
      → c.gets ≡ 0
      → ((first : Bool) → Over id k (f first))
      → Over id k (with_load id c o f)
  unfolding with_load
  with_load-Over c none f r g h = nothing-Over c r g
  with_load-Over c (some first) f r g h = h first

  with_handle-Over :
      (c : Cell) (n : ℕ) (hs : List Handle) (f : Handle → Cell × List Action)
      → c.refs ≡ none
      → c.gets ≡ 0
      → hs ≡ []
      → Over id k (with_handle id c (get_elem? hs n) f)
  unfolding with_handle
  with_handle-Over c n hs f r g e = rw e (nothing-Over c r g)

  with_get-Over :
      (c : Cell) (n : ℕ) (a : Action)
      → c.refs ≡ none
      → c.gets ≡ 0
      → n ≡ 0
      → Over id k (with_get id c n a)
  unfolding with_get
  with_get-Over c zero a r g e = nothing-Over c r g
  with_get-Over c (suc n) a r g e = absurd (omega (arith, e))

  page_arrives-Over :
      (c : Cell) (n : ℕ) (first : Bool) (items : List Resource) (more : Bool) (o : Option ℕ)
      → c.refs ≡ o
      → c.refs ≡ none
      → c.gets ≡ 0
      → Over id k (page_arrives id n first items more c o)
  unfolding page_arrives
  page_arrives-Over c n first items more none e r g = stop_load-Over c (drop_at n c.loads) r g
  page_arrives-Over c n first items more (some m) e r g = absurd (none-ne-some m (sym r ∙ e))

  page_fails-Over :
      (c : Cell) (n : ℕ) (message : Text) (o : Option ℕ)
      → c.refs ≡ o
      → c.refs ≡ none
      → c.gets ≡ 0
      → Over id k (page_fails id n message c o)
  unfolding page_fails
  page_fails-Over c n message none e r g = stop_load-Over c (drop_at n c.loads) r g
  page_fails-Over c n message (some m) e r g = absurd (none-ne-some m (sym r ∙ e))

  step-Over :
      (c : Cell) (e : Event)
      → IsValid c
      → c.refs ≡ none
      → c.gets ≡ 0
      → no_watch e ≡ true
      → Over id k (step id c e)
  unfolding step closes_abnormally
  step-Over c call_watch_list v r g w = absurd (true≢false (sym w))
  step-Over c call_watch_object v r g w = absurd (true≢false (sym w))
  step-Over c call_stop v r g w = stop-Over c r g
  step-Over c (page_comes n items more) v r g w =
      with_load-Over c (get_elem? c.loads n) _ r g
        (λ first. page_arrives-Over c n first items more c.refs refl r g)
  step-Over c (page_error n message) v r g w =
      with_load-Over c (get_elem? c.loads n) _ r g
        (λ first. page_fails-Over c n message c.refs refl r g)
  step-Over c (object_comes o) v r g w = with_get-Over c c.gets _ r g g
  step-Over c (object_error message) v r g w = with_get-Over c c.gets _ r g g
  step-Over c (timer_goes n) v r g w = with_handle-Over c n c.timers _ r g (uncounted c v r).1
  step-Over c (socket_closes n) v r g w = with_handle-Over c n c.sockets _ r g (uncounted c v r).0
  step-Over c (socket_times_out n) v r g w =
      with_handle-Over c n c.sockets _ r g (uncounted c v r).0
  step-Over c replaced_socket_closes v r g w =
      subst (λ o. Over id k (closes_abnormally by_list o c, [])) (sym (unstored_of c v r))
        (nothing-Over c r g)
  step-Over c (socket_messages n es) v r g w =
      with_handle-Over c n c.sockets _ r g (uncounted c v r).0

  run-Over :
      (c : Cell) (es : List Event)
      → IsValid c
      → c.refs ≡ none
      → c.gets ≡ 0
      → no_watches es ≡ true
      → Over id k (run id c es)
  unfolding run
  run-Over c [] v r g w = nothing-Over c r g
  run-Over c (e ∷ es) v r g w =
      let one : Over id k (step id c e) = step-Over c e v r g (ground (arith, w)) in
      let rest : Over id k (run id (step id c e).0 es) =
        run-Over (step id c e).0 es (step-IsValid id c e v) one.0 one.1 (ground (arith, w)) in
      (
        rest.0,
        rest.1,
        happens_all-append id k absent (step id c e).1 (run id (step id c e).0 es).1
            ∙ ap (λ o. happens_all id k o (run id (step id c e).0 es).1) one.2
            ∙ rest.2,
      )

-- After the last stop the loads of a list that are under way end without a trace: while nobody watches
-- again and no request for an object waits, the store never has an entry of the id.
pub happens_all-run :
    (id k : Text) (c : Cell) (es : List Event)
    → Reach id c
    → c.refs ≡ none
    → c.gets ≡ 0
    → no_watches es ≡ true
    → happens_all id k absent (run id c es).1 ≡ absent
happens_all-run id k c es reached r g w = (run-Over id k c es (Reach-IsValid id c reached) r g w).2
