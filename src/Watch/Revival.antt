-- ===== src/Watch/Revival.antt =====
-- What the answer to a request for an object does after the last stop
-- (frontend/public/module/k8s/k8s-actions.ts, `watchK8sObject`).
use web_ui.Base.{
  subst, ℕ, zero, suc, ◌≡◌, refl, sym, ap, ◌∙◌, Bool, true, false, ◌&&◌, none, List, [], ◌∷◌,
  get_elem?, arith,
}
use mathlib.Core.Bool.{true≢false}
use web_ui.Base.Text.{Text, same_text_refl}
use web_ui.Store.Lists.{Resource}
use web_ui.Store.Reducer.{Action, modify_object}
use web_ui.Watch.Cell.{by_list, closes_abnormally, Handle, Cell, set_gets}
use web_ui.Watch.Steps.{
  Event, call_watch_list, call_watch_object, call_stop, page_comes, page_error, object_comes,
  object_error, timer_goes, socket_closes, socket_times_out, replaced_socket_closes,
  socket_messages, with_load, with_handle, with_get, step, run,
}
use web_ui.Watch.Valid.{unstored_of, uncounted, IsValid}
use web_ui.Watch.Invariant.{step-IsValid, Reach, Reach-IsValid}
use web_ui.Watch.Silence.{happens_all-append}
use web_ui.Store.Views.{absent, object_seen, happens, happens_all}

-- Nobody watches or stops: only the browser reports.
abbrev pub no_call : Event → Bool
no_call call_watch_list = false
no_call call_watch_object = false
no_call call_stop = false
no_call _ = true

abbrev pub no_calls : List Event → Bool
no_calls [] = true
no_calls (e ∷ es) = no_call e && no_calls es

-- A cell without watchers or loads, after which the store still has the object.
abbrev Revived : Text → Text → Cell × List Action → Type 0
Revived id k d =
    (d.0.refs ≡ none) × (d.0.loads ≡ []) × (happens_all id k object_seen d.1 ≡ object_seen)

module _ (id k : Text) where
  nothing-Revived : (c : Cell) → c.refs ≡ none → c.loads ≡ [] → Revived id k (c, [])
  unfolding happens_all
  nothing-Revived c r l = (r, l, refl)

  with_load-Revived :
      (c : Cell) (n : ℕ) (ls : List Bool) (f : Bool → Cell × List Action)
      → c.refs ≡ none
      → c.loads ≡ []
      → ls ≡ []
      → Revived id k (with_load id c (get_elem? ls n) f)
  unfolding with_load
  with_load-Revived c n ls f r l e = rw e (nothing-Revived c r l)

  with_handle-Revived :
      (c : Cell) (n : ℕ) (hs : List Handle) (f : Handle → Cell × List Action)
      → c.refs ≡ none
      → c.loads ≡ []
      → hs ≡ []
      → Revived id k (with_handle id c (get_elem? hs n) f)
  unfolding with_handle
  with_handle-Revived c n hs f r l e = rw e (nothing-Revived c r l)

  with_get-Revived :
      (c : Cell) (n : ℕ) (a : Action)
      → c.refs ≡ none
      → c.loads ≡ []
      → happens id k object_seen a ≡ object_seen
      → Revived id k (with_get id c n a)
  unfolding with_get set_gets happens_all
  with_get-Revived c zero a r l h = (r, l, refl)
  with_get-Revived c (suc n) a r l h = (r, l, h)

  step-Revived :
      (c : Cell) (e : Event)
      → IsValid c
      → c.refs ≡ none
      → c.loads ≡ []
      → no_call e ≡ true
      → Revived id k (step id c e)
  unfolding step closes_abnormally happens
  step-Revived c call_watch_list v r l w = absurd (true≢false (sym w))
  step-Revived c call_watch_object v r l w = absurd (true≢false (sym w))
  step-Revived c call_stop v r l w = absurd (true≢false (sym w))
  step-Revived c (page_comes n items more) v r l w = with_load-Revived c n c.loads _ r l l
  step-Revived c (page_error n message) v r l w = with_load-Revived c n c.loads _ r l l
  step-Revived c (object_comes o) v r l w =
      with_get-Revived c c.gets _ r l (rw (same_text_refl id) refl)
  step-Revived c (object_error message) v r l w = with_get-Revived c c.gets _ r l refl
  step-Revived c (timer_goes n) v r l w = with_handle-Revived c n c.timers _ r l (uncounted c v r).1
  step-Revived c (socket_closes n) v r l w =
      with_handle-Revived c n c.sockets _ r l (uncounted c v r).0
  step-Revived c (socket_times_out n) v r l w =
      with_handle-Revived c n c.sockets _ r l (uncounted c v r).0
  step-Revived c replaced_socket_closes v r l w =
      subst (λ o. Revived id k (closes_abnormally by_list o c, [])) (sym (unstored_of c v r))
        (nothing-Revived c r l)
  step-Revived c (socket_messages n es) v r l w =
      with_handle-Revived c n c.sockets _ r l (uncounted c v r).0

  run-Revived :
      (c : Cell) (es : List Event)
      → IsValid c
      → c.refs ≡ none
      → c.loads ≡ []
      → no_calls es ≡ true
      → Revived id k (run id c es) × IsValid (run id c es).0
  unfolding run
  run-Revived c [] v r l w = (nothing-Revived c r l, v)
  run-Revived c (e ∷ es) v r l w =
      let one : Revived id k (step id c e) = step-Revived c e v r l (ground (arith, w)) in
      let rest : Revived id k (run id (step id c e).0 es) × IsValid (run id (step id c e).0 es).0 =
        run-Revived (step id c e).0 es (step-IsValid id c e v) one.0 one.1 (ground (arith, w)) in
      (
        (
          rest.0.0,
          rest.0.1,
          happens_all-append id k object_seen (step id c e).1 (run id (step id c e).0 es).1
              ∙ ap (λ o. happens_all id k o (run id (step id c e).0 es).1) one.2
              ∙ rest.0.2,
        ),
        rest.1,
      )

  answered :
      (c : Cell) (r : Resource) (g n : ℕ)
      → g ≡ suc n
      → happens_all id k absent (with_get id c g (modify_object id r)).1 ≡ object_seen
  unfolding with_get happens_all happens
  answered c r zero n e = absurd (omega (arith, e))
  answered c r (suc m) n e = rw (same_text_refl id) refl

-- Nobody watches, no load of a list is under way, and a request for an object is: when it is answered, the
-- store has the object again, although it had no entry, and it keeps it whatever the browser reports
-- afterwards, until somebody watches or stops the id. In the end `destroy` has been called on every
-- WSFactory of the id, and no timer is set.
pub happens_all-revived :
    (id k : Text) (c : Cell) (r : Resource) (n : ℕ) (es : List Event)
    → Reach id c
    → c.refs ≡ none
    → c.loads ≡ []
    → c.gets ≡ suc n
    → no_calls es ≡ true
    → (happens_all id k absent (run id c (object_comes r ∷ es)).1 ≡ object_seen)
      × ((run id c (object_comes r ∷ es)).0.sockets ≡ [])
      × ((run id c (object_comes r ∷ es)).0.timers ≡ [])
unfolding run step
happens_all-revived id k c r n es reached none_ ls g w =
    let v : IsValid c = Reach-IsValid id c reached in
    let one : Revived id k (step id c (object_comes r)) =
      step-Revived id k c (object_comes r) v none_ ls refl in
    let rest : Revived id k (run id (step id c (object_comes r)).0 es)
        × IsValid (run id (step id c (object_comes r)).0 es).0 =
      run-Revived id k (step id c (object_comes r)).0 es (step-IsValid id c (object_comes r) v)
        one.0 one.1 w in
    (
      happens_all-append id k absent (step id c (object_comes r)).1
            (run id (step id c (object_comes r)).0 es).1
          ∙ ap (λ o. happens_all id k o (run id (step id c (object_comes r)).0 es).1)
              (answered id k c r c.gets n g)
          ∙ rest.0.2,
      (uncounted _ rest.1 rest.0.0).0,
      (uncounted _ rest.1 rest.0.0).1,
    )
