-- ===== src/Store/Events.antt =====
-- What the events of a watch leave at each name (frontend/public/module/k8s/k8s-reducers.ts,
-- `updateListFromWS`).
use web_ui.Base.{
  ℕ, ◌≡◌, refl, sym, ap, ◌∙◌, true, false, ◌&&◌, not, Option, none, some, List, [], ◌∷◌, ltb,
  if◌then◌else◌, Bool-cases, inl, inr, arith,
}
use web_ui.Base.Text.{Text, same_text, same_text_iff, same_text_refl}
use web_ui.Store.Maps.{Maps}
use web_ui.Store.Lists.{
  Resource, qn, more_recent, same_but_version, WatchEvent, added, modified, deleted_event, unknown,
  remove_from_list, update_current, update_list, apply_event, apply_events,
}

-- The specification: what one object goes through, with no list around it.
abbrev pub updated : Option Resource → Resource → Resource
updated none r = r
updated (some c) r = if more_recent r c && not (same_but_version c r) then r else c

unfoldable pub happen : Text → Option Resource → WatchEvent → Option Resource
happen k o (deleted_event r) = if same_text k (qn r) then none else o
happen k o (added r) = if same_text k (qn r) then some (updated o r) else o
happen k o (modified r) = if same_text k (qn r) then some (updated o r) else o
happen k o (unknown r) = o

unfoldable pub happen_all : Text → Option Resource → List WatchEvent → Option Resource
happen_all k o [] = o
happen_all k o (e ∷ es) = happen_all k (happen k o e) es

module _ (maps : Maps Resource) where
  open maps use {Map, get}

  same_name : (k j : Text) (list : Map) → same_text k j ≡ true → get k list ≡ get j list
  same_name k j list e = ap (λ i. get i list) ((same_text_iff k j).0 e)

  get-update_found :
      (k : Text) (list : Map) (r : Resource) (o : Option Resource)
      → get (qn r) list ≡ o
      → get k (update_current maps list r o)
        ≡ (if same_text k (qn r) then some (updated o r) else get k list)
  unfolding update_current
  get-update_found k list r none e = maps.get_set k (qn r) r list
  get-update_found k list r (some c) e =
      ground (arith, maps.get_set k (qn r) r list, same_name k (qn r) list, e)

  get-update_list :
      (k : Text) (list : Map) (r : Resource)
      → get k (update_list maps list r)
        ≡ (if same_text k (qn r) then some (updated (get k list) r) else get k list)
  unfolding update_list
  get-update_list k list r =
      get-update_found k list r (get (qn r) list) refl ∙ elim (Bool-cases (same_text k (qn r))) [
        | inl same ↦ rw same (ap (λ o. some (updated o r)) (sym (same_name k (qn r) list same)))
        | inr other ↦ rw other refl
      ]

  get-apply_event :
      (k : Text) (list : Map) (e : WatchEvent)
      → get k (apply_event maps list e) ≡ happen k (get k list) e
  unfolding apply_event happen remove_from_list
  get-apply_event k list (deleted_event r) = maps.get_delete k (qn r) list
  get-apply_event k list (added r) = get-update_list k list r
  get-apply_event k list (modified r) = get-update_list k list r
  get-apply_event k list (unknown r) = refl

-- The list refines the independent histories of its names: after any events, what it has under a name is
-- what the events of this name make of what it had, in their order.
pub get-apply_events :
    (maps : Maps Resource) (k : Text) (list : maps.Map) (es : List WatchEvent)
    → maps.get k (apply_events maps list es) ≡ happen_all k (maps.get k list) es
unfolding apply_events happen_all
get-apply_events maps k list [] = refl
get-apply_events maps k list (e ∷ es) =
    get-apply_events maps k (apply_event maps list e) es
    ∙ ap (λ o. happen_all k o es) (get-apply_event maps k list e)

-- Objects that differ in the version at most have one uid.
same_uid : (c n : Resource) → same_but_version c n ≡ true → same_text c.uid n.uid ≡ true
unfolding same_but_version
same_uid c n same = ground (arith, same)

more_recent_versions :
    (a b : Resource) (v w : ℕ)
    → same_text a.uid b.uid ≡ true
    → a.version ≡ some v
    → b.version ≡ some w
    → more_recent a b ≡ ltb w v
unfolding more_recent
more_recent_versions a b v w uid av bw = rw uid (rw av (rw bw refl))

updated-same : (c n : Resource) → same_but_version c n ≡ true → updated (some c) n ≡ c
updated-same c n same =
    rw same (elim (Bool-cases (more_recent n c)) [ inl new ↦ rw new refl | inr old ↦ rw old refl ])

happen-modified :
    (k : Text) (o : Option Resource) (r : Resource)
    → qn r ≡ k
    → happen k o (modified r) ≡ some (updated o r)
unfolding happen
happen-modified k o r e = rw e (rw (same_text_refl k) refl)

happen_all-stale :
    (c n s : Resource) (v w x : ℕ)
    → c.version ≡ some v
    → s.version ≡ some w
    → n.version ≡ some x
    → ltb v w ≡ true
    → ltb x w ≡ false
    → same_text s.uid c.uid ≡ true
    → qn s ≡ qn c
    → qn n ≡ qn c
    → same_but_version c n ≡ true
    → same_but_version c s ≡ false
    → (happen_all (qn c) (some c) (modified n ∷ modified s ∷ []) ≡ some s)
      × (more_recent s n ≡ false)
unfolding happen_all
happen_all-stale c n s v w x cv sv nv vw xw uid sq nq same differs = (
  ap (λ o. happen (qn c) o (modified s))
        (happen-modified (qn c) (some c) n nq ∙ ap some (updated-same c n same))
      ∙ happen-modified (qn c) (some c) s sq
      ∙ rw (more_recent_versions s c w v uid sv cv ∙ vw) (rw differs refl),
  more_recent_versions s n w x
        ((same_text_iff s.uid n.uid).1
          ((same_text_iff s.uid c.uid).0 uid ∙ (same_text_iff c.uid n.uid).0 (same_uid c n same)))
        sv nv
      ∙ xw,
)

-- A newer version that changes nothing else is not stored. So when the list has an object, and events
-- report a newer version of it that is the same otherwise, and then one between the two that differs, the
-- list ends with the one between, although what came first is not older.
pub get-apply_events_stale :
    (maps : Maps Resource) (list : maps.Map) (c n s : Resource) (v w x : ℕ)
    → maps.get (qn c) list ≡ some c
    → c.version ≡ some v
    → s.version ≡ some w
    → n.version ≡ some x
    → ltb v w ≡ true
    → ltb x w ≡ false
    → same_text s.uid c.uid ≡ true
    → qn s ≡ qn c
    → qn n ≡ qn c
    → same_but_version c n ≡ true
    → same_but_version c s ≡ false
    → (maps.get (qn c) (apply_events maps list (modified n ∷ modified s ∷ [])) ≡ some s)
      × (more_recent s n ≡ false)
get-apply_events_stale maps list c n s v w x h cv sv nv vw xw uid sq nq same differs =
    let (stored, older) = happen_all-stale c n s v w x cv sv nv vw xw uid sq nq same differs in
    (
      get-apply_events maps (qn c) list (modified n ∷ modified s ∷ [])
          ∙ ap (λ o. happen_all (qn c) o (modified n ∷ modified s ∷ [])) h
          ∙ stored,
      older,
    )
