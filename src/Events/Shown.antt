-- ===== src/Events/Shown.antt =====
-- What a stream of events shows (frontend/public/components/events.jsx).
use web_ui.Base.{
  ℕ, zero, suc, ◌≤◌, ◌≡◌, refl, sym, subst, Bool, true, false, not, Option, none, some, is_some,
  List, [], ◌∷◌, length, take, null, filter, arith,
}
use mathlib.Core.Option.{some-injective, none-ne-some}
use web_ui.Base.Text.{Text}
use web_ui.Selector.Scan.{◌>>=◌}
use web_ui.Store.Maps.{Maps}
use web_ui.Events.{
  max_messages, SysEvent, Change, Filters, StreamError, passes, filter_events, EventStream,
  StreamEvent, opens, fails, toggles, closes, messages_come, filters_change, apply_changes,
  new_stream, emptied, on_open, on_close, on_error, toggle_stream, flush_sorted, on_bulk_message,
  derive_filters, step, run,
}

length-take : {A : Type 0} (n : ℕ) (xs : List A) → length (take n xs) ≤ n
length-take zero xs = omega arith
length-take (suc n) [] = omega arith
length-take (suc n) (x ∷ xs) = omega (arith, length-take n xs)

length-filter : {A : Type 0} (p : A → Bool) (xs : List A) → length (filter p xs) ≤ length xs
length-filter p [] = omega arith
length-filter p (x ∷ xs) = ground (arith, length-filter p xs)

module _ (maps : Maps SysEvent) (lower : Text → Text) (words_of : Text → List Text)
    (ordered : maps.Map → List SysEvent) where
  pub record IsShown (s : EventStream maps.Map) : Type 0 where
    pub few : length s.sorted_messages ≤ max_messages
    pub all_filtered : s.filtered_events ≡ filter_events lower words_of s.filters s.sorted_messages

  emptied-IsShown :
      (error : StreamError) (loading : Bool) (s : EventStream maps.Map)
      → IsShown (emptied maps error loading s)
  unfolding emptied filter_events
  emptied-IsShown error loading s = record { few = omega arith; all_filtered = refl }

  on_close-IsShown :
      (was_clean : Bool) (reason : Text) (s : EventStream maps.Map)
      → IsShown (on_close maps was_clean reason s)
  unfolding on_close
  on_close-IsShown true reason s = emptied-IsShown _ _ s
  on_close-IsShown false reason s = emptied-IsShown _ _ s

  flush_sorted-IsShown :
      (es : List SysEvent) (s t : EventStream maps.Map)
      → flush_sorted maps lower words_of ordered es s ≡ some t
      → IsShown t
  unfolding flush_sorted
  flush_sorted-IsShown [] s t e = absurd (none-ne-some t e)
  flush_sorted-IsShown (x ∷ xs) s t e =
      subst IsShown (some-injective _ t e)
        record { few = length-take max_messages (x ∷ xs); all_filtered = refl }

  step-IsShown :
      (s t : EventStream maps.Map) (e : StreamEvent)
      → IsShown s
      → step maps lower words_of ordered s e ≡ some t
      → IsShown t
  unfolding step on_open on_error toggle_stream on_bulk_message derive_filters
  step-IsShown s t opens v e = subst IsShown (some-injective _ t e) (emptied-IsShown _ _ s)
  step-IsShown s t (closes was_clean reason) v e =
      subst IsShown (some-injective _ t e) (on_close-IsShown was_clean reason s)
  step-IsShown s t fails v e = subst IsShown (some-injective _ t e) (emptied-IsShown _ _ s)
  step-IsShown s t toggles v e =
      subst IsShown (some-injective _ t e) record { few = v.few; all_filtered = v.all_filtered }
  step-IsShown s t (messages_come cs) v e =
      flush_sorted-IsShown (ordered (apply_changes maps s.messages cs)) s t e
  step-IsShown s t (filters_change f) v e =
      subst IsShown (some-injective _ t e) record { few = v.few; all_filtered = refl }

  run-keeps :
      (s t : EventStream maps.Map) (es : List StreamEvent)
      → IsShown s
      → run maps lower words_of ordered s es ≡ some t
      → IsShown t
  unfolding run
  run-keeps s t [] v e = subst IsShown (some-injective s t e) v
  run-keeps s t (a ∷ es) v e =
      go (step maps lower words_of ordered s a) refl e (λ u w. run-keeps u t es w)
    where
      go :
          (o : Option (EventStream maps.Map))
          → step maps lower words_of ordered s a ≡ o
          → (o >>= λ u. run maps lower words_of ordered u es) ≡ some t
          → ((u : EventStream maps.Map)
              → IsShown u
              → run maps lower words_of ordered u es ≡ some t
              → IsShown t)
          → IsShown t
      go none q e rest = absurd (none-ne-some t e)
      go (some u) q e rest = rest u (step-IsShown s u a v q) e

  new_stream-IsShown : (f : Filters) → IsShown (new_stream maps f)
  unfolding new_stream filter_events
  new_stream-IsShown f = record { few = omega arith; all_filtered = refl }

-- Whatever happens to a new stream, and however its events are ordered, it keeps at most 500 of them, and
-- it shows just those of them that its filters let pass.
pub run-new_stream :
    (maps : Maps SysEvent) (lower : Text → Text) (words_of : Text → List Text)
    (ordered : maps.Map → List SysEvent) (f : Filters) (es : List StreamEvent)
    (t : EventStream maps.Map)
    → run maps lower words_of ordered (new_stream maps f) es ≡ some t
    → (length t.sorted_messages ≤ 500)
      × (length t.filtered_events ≤ 500)
      × (t.filtered_events ≡ filter (passes lower words_of t.filters) t.sorted_messages)
unfolding filter_events
run-new_stream maps lower words_of ordered f es t e =
    let v : IsShown maps lower words_of ordered t =
      run-keeps maps lower words_of ordered (new_stream maps f) t es
        (new_stream-IsShown maps lower words_of ordered f) e in
    (
      v.few,
      subst (λ xs. length xs ≤ 500) (sym v.all_filtered)
          (omega (arith, v.few, length-filter (passes lower words_of t.filters) t.sorted_messages)),
      v.all_filtered,
    )

-- Messages that leave no event stored throw, and only they: every other message is taken.
pub is_some-on_bulk_message :
    (maps : Maps SysEvent) (lower : Text → Text) (words_of : Text → List Text)
    (ordered : maps.Map → List SysEvent) (cs : List Change) (s : EventStream maps.Map)
    → is_some (on_bulk_message maps lower words_of ordered cs s)
      ≡ not (null (ordered (apply_changes maps s.messages cs)))
unfolding on_bulk_message flush_sorted
is_some-on_bulk_message maps lower words_of ordered cs s =
    go (ordered (apply_changes maps s.messages cs))
  where
    go :
        (es : List SysEvent)
        → is_some (flush_sorted maps lower words_of ordered es s) ≡ not (null es)
    go [] = refl
    go (e ∷ es) = refl

-- A stream that is paused is shown as active again when its filters change, while its socket stays paused.
pub derive_filters-toggle_stream :
    (maps : Maps SysEvent) (lower : Text → Text) (words_of : Text → List Text)
    (ordered : maps.Map → List SysEvent) (f : Filters) (s : EventStream maps.Map)
    → s.active ≡ true
    → ((derive_filters maps lower words_of ordered f (toggle_stream maps s)).active ≡ true)
      × ((derive_filters maps lower words_of ordered f (toggle_stream maps s)).socket_paused ≡ true)
unfolding derive_filters toggle_stream
derive_filters-toggle_stream maps lower words_of ordered f s a = (refl, a)
