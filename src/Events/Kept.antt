-- ===== src/Events/Kept.antt =====
-- Which messages a bulk message leaves (frontend/public/components/events.jsx, `onbulkmessage` and
-- `flushMessages`).
use web_ui.Base.{
  ℕ, zero, suc, ◌≡◌, ◌⊎◌, inl, inr, refl, sym, ap, subst, ◌∙◌, Bool, ltb, true, false, Bool-cases,
  Option, none, some, List, [], ◌∷◌, take, if◌then◌else◌, All,
}
use mathlib.Core.Option.{some-injective, none-ne-some}
use web_ui.Base.Text.{Text, same_text, same_text_iff, same_text_refl}
use web_ui.Store.Maps.{Maps}
use web_ui.Events.{
  max_messages, SysEvent, Change, added, modified, deleted, unhandled, EventStream, apply_changes,
  key_by_uid, flush_sorted, on_bulk_message,
}
use web_ui.Events.Stored.{later, with_change, with_changes, get-apply_changes}

-- A message under this uid, if there is one, has it.
abbrev pub HasUid : Text → Option SysEvent → Type 0
HasUid k o = (e : SysEvent) → o ≡ some e → e.uid ≡ k

same_uid-HasUid : (k : Text) (e : SysEvent) → same_text k e.uid ≡ true → HasUid k (some e)
same_uid-HasUid k e same x h =
    ap (λ y. y.uid) (sym (some-injective e x h)) ∙ sym ((same_text_iff k e.uid).0 same)

HasUid-if :
    (k : Text) (b : Bool) (o p : Option SysEvent)
    → (b ≡ true → HasUid k o)
    → HasUid k p
    → HasUid k (if b then o else p)
HasUid-if k true o p h g = h refl
HasUid-if k false o p h g = g

HasUid-if_some :
    (k : Text) (b : Bool) (c e : SysEvent)
    → HasUid k (some c)
    → HasUid k (some e)
    → HasUid k (some (if b then c else e))
HasUid-if_some k true c e h g = h
HasUid-if_some k false c e h g = g

later-HasUid :
    (k : Text) (o : Option SysEvent) (e : SysEvent)
    → HasUid k o
    → same_text k e.uid ≡ true
    → HasUid k (some (later o e))
later-HasUid k none e h same = same_uid-HasUid k e same
later-HasUid k (some c) e h same =
    HasUid-if_some k (ltb e.count c.count) c e h (same_uid-HasUid k e same)

with_change-HasUid :
    (k : Text) (o : Option SysEvent) (c : Change) → HasUid k o → HasUid k (with_change k o c)
unfolding with_change
with_change-HasUid k o (added e) h =
    HasUid-if k (same_text k e.uid) (some (later o e)) o (later-HasUid k o e h) h
with_change-HasUid k o (modified e) h =
    HasUid-if k (same_text k e.uid) (some (later o e)) o (later-HasUid k o e h) h
with_change-HasUid k o (deleted e) h =
    HasUid-if k (same_text k e.uid) none o (λ same e' f. absurd (none-ne-some e' f)) h
with_change-HasUid k o (unhandled e) h = h

with_changes-HasUid :
    (k : Text) (o : Option SysEvent) (cs : List Change)
    → HasUid k o
    → HasUid k (with_changes k o cs)
unfolding with_changes
with_changes-HasUid k o [] h = h
with_changes-HasUid k o (c ∷ cs) h =
    with_changes-HasUid k (with_change k o c) cs (with_change-HasUid k o c h)

All-take : {A : Type 0} (P : A → Type 0) (n : ℕ) (xs : List A) → All P xs → All P (take n xs)
All-take P zero xs h = tt
All-take P (suc n) [] h = tt
All-take P (suc n) (x ∷ xs) h = (h.0, All-take P n xs h.1)

module _ (maps : Maps SysEvent) where
  open maps use {Map, get, set}

  -- Every message is stored under its uid.
  abbrev pub IsKeyed : Map → Type 0
  IsKeyed m = (k : Text) → HasUid k (get k m)

  -- What one map has under a name, the other one has too.
  abbrev IsPart : Map → Map → Type 0
  IsPart m n = (k : Text) → (get k m ≡ none) ⊎ (get k m ≡ get k n)

  abbrev StoredIn : Map → SysEvent → Type 0
  StoredIn n e = get e.uid n ≡ some e

  set-IsPart : (m n : Map) (e : SysEvent) → StoredIn n e → IsPart m n → IsPart (set e.uid e m) n
  set-IsPart m n e h p k = elim (Bool-cases (same_text k e.uid)) [
    | inl same ↦ inr (
        maps.get_set k e.uid e m
        ∙ ap (λ b. if b then some e else get k m) same
        ∙ sym h
        ∙ ap (λ j. get j n) (sym ((same_text_iff k e.uid).0 same)))
    | inr other ↦
        subst (λ o. (o ≡ none) ⊎ (o ≡ get k n))
          (sym (maps.get_set k e.uid e m ∙ ap (λ b. if b then some e else get k m) other)) (p k)
  ]

  key_by_uid-IsPart :
      (m n : Map) (es : List SysEvent)
      → All (StoredIn n) es
      → IsPart m n
      → IsPart (key_by_uid maps m es) n
  unfolding key_by_uid
  key_by_uid-IsPart m n [] h p = p
  key_by_uid-IsPart m n (e ∷ es) h p =
      key_by_uid-IsPart (set e.uid e m) n es h.1 (set-IsPart m n e h.0 p)

  apply_changes-IsKeyed :
      (m : Map) (cs : List Change) → IsKeyed m → IsKeyed (apply_changes maps m cs)
  apply_changes-IsKeyed m cs keyed k =
      subst (HasUid k) (sym (get-apply_changes maps k m cs))
        (with_changes-HasUid k (get k m) cs (keyed k))

  StoredIn-keyed :
      (m : Map) (e : SysEvent) → IsKeyed m → (k : Text) × (get k m ≡ some e) → StoredIn m e
  StoredIn-keyed m e keyed found = ap (λ j. get j m) (keyed found.0 e found.1) ∙ found.1

  All-StoredIn :
      (m : Map) (es : List SysEvent)
      → IsKeyed m
      → All (λ e. (k : Text) × (get k m ≡ some e)) es
      → All (StoredIn m) es
  All-StoredIn m [] keyed h = tt
  All-StoredIn m (e ∷ es) keyed h = (StoredIn-keyed m e keyed h.0, All-StoredIn m es keyed h.1)

  StoredIn-set_self : (n : Map) (e : SysEvent) → StoredIn (set e.uid e n) e
  StoredIn-set_self n e =
      maps.get_set e.uid e.uid e n
      ∙ ap (λ b. if b then some e else get e.uid n) (same_text_refl e.uid)

  -- Of the messages of one map, none takes the place of another.
  StoredIn-set :
      (m n : Map) (e x : SysEvent)
      → StoredIn m e
      → StoredIn m x
      → StoredIn n e
      → StoredIn (set x.uid x n) e
  StoredIn-set m n e x h g o = elim (Bool-cases (same_text e.uid x.uid)) [
    | inl same ↦
        maps.get_set e.uid x.uid x n
        ∙ ap (λ b. if b then some x else get e.uid n) same
        ∙ sym g
        ∙ ap (λ j. get j m) (sym ((same_text_iff e.uid x.uid).0 same))
        ∙ h
    | inr other ↦
        maps.get_set e.uid x.uid x n ∙ ap (λ b. if b then some x else get e.uid n) other ∙ o
  ]

  StoredIn-key_by_uid :
      (m n : Map) (es : List SysEvent) (e : SysEvent)
      → StoredIn m e
      → All (StoredIn m) es
      → StoredIn n e
      → StoredIn (key_by_uid maps n es) e
  unfolding key_by_uid
  StoredIn-key_by_uid m n [] e h g o = o
  StoredIn-key_by_uid m n (x ∷ xs) e h g o =
      StoredIn-key_by_uid m (set x.uid x n) xs e h g.1 (StoredIn-set m n e x h g.0 o)

  All-key_by_uid :
      (m n : Map) (es : List SysEvent)
      → All (StoredIn m) es
      → All (StoredIn (key_by_uid maps n es)) es
  unfolding key_by_uid
  All-key_by_uid m n [] h = tt
  All-key_by_uid m n (e ∷ es) h = (
    StoredIn-key_by_uid m (set e.uid e n) es e h.0 h.1 (StoredIn-set_self n e),
    All-key_by_uid m (set e.uid e n) es h.1,
  )

  module _ (lower : Text → Text) (words_of : Text → List Text) (ordered : Map → List SysEvent) where
    -- What a flush of the messages of `m` leaves is a part of them.
    flush_sorted-IsPart :
        (m : Map) (es : List SysEvent) (s t : EventStream Map)
        → All (StoredIn m) es
        → flush_sorted maps lower words_of ordered es s ≡ some t
        → IsPart t.messages m
    unfolding flush_sorted
    flush_sorted-IsPart m [] s t h e = absurd (none-ne-some t e)
    flush_sorted-IsPart m (x ∷ xs) s t h e =
        subst (λ u. IsPart u.messages m) (some-injective _ t e)
          (key_by_uid-IsPart maps.empty m (take max_messages (x ∷ xs))
            (All-take (StoredIn m) max_messages (x ∷ xs) h) (λ k. inl (maps.get_empty k)))

    flush_sorted-All :
        (m : Map) (es : List SysEvent) (s t : EventStream Map)
        → All (StoredIn m) es
        → flush_sorted maps lower words_of ordered es s ≡ some t
        → All (StoredIn t.messages) (take max_messages es)
    unfolding flush_sorted
    flush_sorted-All m [] s t h e = tt
    flush_sorted-All m (x ∷ xs) s t h e =
        subst (λ u. All (StoredIn u.messages) (take max_messages (x ∷ xs))) (some-injective _ t e)
          (All-key_by_uid m maps.empty (take max_messages (x ∷ xs))
            (All-take (StoredIn m) max_messages (x ∷ xs) h))

  -- After a bulk message, the message under a uid is gone, or it is what was stored or came last under
  -- this uid, except that one with a lower count than the stored one is skipped and that a deletion removes
  -- what is stored; the first 500 in the order of `_.orderBy` are all there. This is so if `_.orderBy` gives
  -- only messages that are there, and every message was stored under its uid. Then it still is.
  pub get-on_bulk_message :
      (lower : Text → Text) (words_of : Text → List Text) (ordered : Map → List SysEvent)
      → ((m : Map) → All (λ e. (k : Text) × (get k m ≡ some e)) (ordered m))
      → (s t : EventStream Map) (cs : List Change) → IsKeyed s.messages
      → on_bulk_message maps lower words_of ordered cs s ≡ some t
      → ((k : Text)
          → (get k t.messages ≡ none) ⊎ (get k t.messages ≡ with_changes k (get k s.messages) cs))
        × All
            (λ e. get e.uid t.messages ≡ some e)
            (take max_messages (ordered (apply_changes maps s.messages cs)))
        × IsKeyed t.messages
  unfolding on_bulk_message
  get-on_bulk_message lower words_of ordered only s t cs keyed e =
      let m = apply_changes maps s.messages cs in
      let still : IsKeyed m = apply_changes-IsKeyed s.messages cs keyed in
      let part : IsPart t.messages m =
        flush_sorted-IsPart lower words_of ordered m (ordered m) s t
          (All-StoredIn m (ordered m) still (only m)) e in
      (
        λ k. elim (part k) [
          | inl gone ↦ inl gone
          | inr kept ↦ inr (kept ∙ get-apply_changes maps k s.messages cs)
        ],
        flush_sorted-All lower words_of ordered m (ordered m) s t
            (All-StoredIn m (ordered m) still (only m)) e,
        λ k. elim (part k) [
          | inl gone ↦ λ x h. absurd (none-ne-some x (sym gone ∙ h))
          | inr kept ↦ λ x h. still k x (sym kept ∙ h)
        ],
      )
