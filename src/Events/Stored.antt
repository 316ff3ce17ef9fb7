-- ===== src/Events/Stored.antt =====
-- Which version of an event is stored (frontend/public/components/events.jsx, `onbulkmessage`).
use web_ui.Base.{
  ◌≡◌, refl, sym, ap, ◌∙◌, true, Option, none, some, List, [], ◌∷◌, ltb, if◌then◌else◌, Bool-cases,
  inl, inr, arith,
}
use web_ui.Base.Text.{Text, same_text, same_text_iff}
use web_ui.Store.Maps.{Maps}
use web_ui.Events.{
  SysEvent, Change, added, modified, deleted, unhandled, add_message, apply_change, apply_changes,
}

-- The specification: a message replaces the stored one of its uid unless its count is lower, and a
-- deletion removes it.
abbrev pub later : Option SysEvent → SysEvent → SysEvent
later none e = e
later (some c) e = if ltb e.count c.count then c else e

unfoldable pub with_change : Text → Option SysEvent → Change → Option SysEvent
with_change k o (added e) = if same_text k e.uid then some (later o e) else o
with_change k o (modified e) = if same_text k e.uid then some (later o e) else o
with_change k o (deleted e) = if same_text k e.uid then none else o
with_change k o (unhandled e) = o

unfoldable pub with_changes : Text → Option SysEvent → List Change → Option SysEvent
with_changes k o [] = o
with_changes k o (c ∷ cs) = with_changes k (with_change k o c) cs

module _ (maps : Maps SysEvent) where
  open maps use {Map, get}

  same_uid : (k j : Text) (m : Map) → same_text k j ≡ true → get k m ≡ get j m
  same_uid k j m e = ap (λ i. get i m) ((same_text_iff k j).0 e)

  get-add_found :
      (k : Text) (m : Map) (e : SysEvent) (o : Option SysEvent)
      → get e.uid m ≡ o
      → get k (add_message maps m e o) ≡ (if same_text k e.uid then some (later o e) else get k m)
  unfolding add_message
  get-add_found k m e none h = maps.get_set k e.uid e m
  get-add_found k m e (some c) h = ground (arith, maps.get_set k e.uid e m, same_uid k e.uid m, h)

  get-add_message :
      (k : Text) (m : Map) (e : SysEvent)
      → get k (add_message maps m e (get e.uid m))
        ≡ (if same_text k e.uid then some (later (get k m) e) else get k m)
  get-add_message k m e =
      get-add_found k m e (get e.uid m) refl ∙ elim (Bool-cases (same_text k e.uid)) [
        | inl same ↦ rw same (ap (λ o. some (later o e)) (sym (same_uid k e.uid m same)))
        | inr other ↦ rw other refl
      ]

  get-apply_change :
      (k : Text) (m : Map) (c : Change) → get k (apply_change maps m c) ≡ with_change k (get k m) c
  unfolding apply_change with_change
  get-apply_change k m (added e) = get-add_message k m e
  get-apply_change k m (modified e) = get-add_message k m e
  get-apply_change k m (deleted e) = maps.get_delete k e.uid m
  get-apply_change k m (unhandled e) = refl

-- While one bulk message is taken in, before the messages are flushed: under each uid stays what was
-- stored or came last, except that a message with a lower count than the stored one is skipped and that a
-- deletion removes what is stored, whatever came for other uids.
pub get-apply_changes :
    (maps : Maps SysEvent) (k : Text) (m : maps.Map) (cs : List Change)
    → maps.get k (apply_changes maps m cs) ≡ with_changes k (maps.get k m) cs
unfolding apply_changes with_changes
get-apply_changes maps k m [] = refl
get-apply_changes maps k m (c ∷ cs) =
    get-apply_changes maps k (apply_change maps m c) cs
    ∙ ap (λ o. with_changes k o cs) (get-apply_change maps k m c)
