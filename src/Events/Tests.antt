-- ===== src/Events/Tests.antt =====
-- Streams of events, and the theorems at them.
use web_ui.Base.{
  take, ◌⊎◌, sym, ◌∙◌, All, ℕ, ◌≡◌, refl, true, false, Option, none, some, List, [], ◌∷◌,
}
use mathlib.Core.Option.{none-ne-some}
use web_ui.Events.Kept.{IsKeyed, get-on_bulk_message}
use web_ui.Base.Text.{Text, codes, same_text, starts_with}
use web_ui.Store.Maps.{Maps, plain_maps}
use web_ui.Pods.Phase.{contains}
use web_ui.Events.{
  max_messages, SysEvent, Change, added, modified, Filters, category_filter, kind_filter,
  text_matches, passes, filter_events, EventStream, StreamEvent, opens, toggles, messages_come,
  filters_change, add_message, apply_change, apply_changes, key_by_uid, new_stream, emptied,
  on_open, on_close, on_error, toggle_stream, flush_sorted, on_bulk_message, derive_filters, step,
  run,
}
use web_ui.Events.Stored.{with_change, with_changes}

streams : Unit {0}
unfolding category_filter kind_filter text_matches passes filter_events add_message apply_change
    apply_changes key_by_uid new_stream emptied on_open on_close on_error toggle_stream flush_sorted
    on_bulk_message derive_filters step run with_change with_changes plain_maps contains
streams = tt

abbrev maps : Maps SysEvent
maps = plain_maps SysEvent

abbrev found : Option SysEvent → List SysEvent → List SysEvent
found none es = es
found (some e) es = e ∷ es

abbrev all_at : List Text → maps.Map → List SysEvent
all_at [] m = []
all_at (k ∷ ks) m = found (maps.get k m) (all_at ks m)

abbrev stored_order : maps.Map → List SysEvent
stored_order m = all_at (maps.keys m) m

abbrev same : Text → Text
same t = t

abbrev words : Text → List Text
words [] = []
words (c ∷ s) = (c ∷ s) ∷ []

abbrev event : Text → ℕ → Text → SysEvent
event uid count reason = record {
  uid = uid;
  count = count;
  last_timestamp = codes "t";
  involved_name = codes "web";
  involved_kind = codes "Pod";
  reason = reason;
  message = codes "pulled image";
  rest = [];
}

abbrev errors : Filters
errors = record {
  kind = codes "all";
  category = codes "error";
  selected = none;
  text_filter = codes "image";
}

abbrev changes : List Change
changes =
    added (event (codes "1") 2 (codes "failed"))
    ∷ modified (event (codes "1") 1 (codes "failed"))
    ∷ added (event (codes "2") 1 (codes "started"))
    ∷ []

-- The lower count is left out, and only the error is shown.
shown :
    passes same words errors (event (codes "1") 2 (codes "failed")) ≡ true
    × passes same words errors (event (codes "2") 1 (codes "started")) ≡ false
unfolding streams same_text starts_with
shown = (refl, refl)

abbrev or_new : Option (EventStream maps.Map) → EventStream maps.Map
or_new none = new_stream maps errors
or_new (some s) = s

abbrev a_run : List StreamEvent
a_run = opens ∷ messages_come changes ∷ toggles ∷ filters_change errors ∷ []

abbrev final : EventStream maps.Map
final = or_new (run maps same words stored_order (new_stream maps errors) a_run)

found-stored :
    (m : maps.Map) (k : Text) (o : Option SysEvent) (es : List SysEvent)
    → maps.get k m ≡ o
    → All (λ e. (j : Text) × (maps.get j m ≡ some e)) es
    → All (λ e. (j : Text) × (maps.get j m ≡ some e)) (found o es)
found-stored m k none es h all_es = all_es
found-stored m k (some e) es h all_es = ((k, h), all_es)

all_at-stored :
    (ks : List Text) (m : maps.Map) → All (λ e. (j : Text) × (maps.get j m ≡ some e)) (all_at ks m)
all_at-stored [] m = tt
all_at-stored (k ∷ ks) m = found-stored m k (maps.get k m) (all_at ks m) refl (all_at-stored ks m)

abbrev fresh_stream : EventStream maps.Map
fresh_stream = new_stream maps errors

abbrev after_changes : EventStream maps.Map
after_changes = or_new (on_bulk_message maps same words stored_order changes fresh_stream)

fresh-IsKeyed : IsKeyed maps fresh_stream.messages
unfolding new_stream
fresh-IsKeyed k e h = absurd (none-ne-some e (sym (maps.get_empty k) ∙ h))

get-on_bulk_message_example :
    ((k : Text)
      → (maps.get k after_changes.messages ≡ none)
        ⊎ (maps.get k after_changes.messages
            ≡ with_changes k (maps.get k fresh_stream.messages) changes))
    × All
        (λ e. maps.get e.uid after_changes.messages ≡ some e)
        (take max_messages (stored_order (apply_changes maps fresh_stream.messages changes)))
    × IsKeyed maps after_changes.messages
unfolding streams same_text
get-on_bulk_message_example =
    get-on_bulk_message maps same words stored_order (λ m. all_at-stored (maps.keys m) m)
      fresh_stream after_changes changes fresh-IsKeyed refl
