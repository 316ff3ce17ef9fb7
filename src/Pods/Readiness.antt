-- ===== src/Pods/Readiness.antt =====
-- Which condition keeps a pod from being ready (frontend/public/module/k8s/pods.ts, `podReadiness`).
use web_ui.Base.{
  ℕ, zero, suc, ◌≡◌, refl, sym, ap, ◌∙◌, Bool, true, false, ◌&&◌, ◌||◌, not, Option, none, some,
  is_some, List, [], ◌∷◌, null, all, get_elem?, if◌then◌else◌, Bool-cases, ◌⊎◌, inl, inr, arith,
}
use mathlib.Core.Bool.{true≢false}
use web_ui.Base.Text.{Text, codes}
use web_ui.Lodash.{Lodash}
use web_ui.Pods.Phase.{
  Condition, PodStatus, is_true, is_before, earlier, earliest_step, all_ready_step, reason_or_kind,
  pod_readiness,
}

-- No condition that is not true is before `x`.
abbrev pub none_before : Condition → List Condition → Bool
none_before x ds = all (λ d. is_true d || not (is_before d.time x.time)) ds

abbrev pub dated : List Condition → Bool
dated ds = all (λ d. is_some d.time) ds

pub record Earliest (ds : List Condition) (x : Condition) : Type 0 where
  pub place : (i : ℕ) × (get_elem? ds i ≡ some x)
  pub not_true : is_true x ≡ false
  pub none_earlier : none_before x ds ≡ true

-- What the loop makes of `c` and the conditions that follow.
record Kept (c : Condition) (ds : List Condition) (x : Condition) : Type 0 where
  date : is_some x.time ≡ true
  first_not_before : is_before c.time x.time ≡ false
  none_earlier : none_before x ds ≡ true
  not_true : is_true x ≡ false
  origin : (x ≡ c) ⊎ ((i : ℕ) × (get_elem? ds i ≡ some x))

before_both :
    (a b c : Option ℕ)
    → is_some c ≡ true
    → is_before a b ≡ true
    → is_before a c ≡ false
    → is_before b c ≡ false
before_both (some a) (some b) (some c) v h k = ground (arith, h, k)
before_both none b c v h k = absurd (true≢false (sym h))
before_both (some a) none c v h k = absurd (true≢false (sym h))
before_both a b none v h k = absurd (true≢false (sym v))

not_before_both :
    (a b c : Option ℕ)
    → is_some b ≡ true
    → is_before a b ≡ false
    → is_before b c ≡ false
    → is_before a c ≡ false
not_before_both none b c v h k = refl
not_before_both (some a) b none v h k = refl
not_before_both (some a) (some b) (some c) v h k = ground (arith, h, k)
not_before_both (some a) none (some c) v h k = absurd (true≢false (sym v))

not_before_self : (a : Option ℕ) → is_before a a ≡ false
not_before_self none = refl
not_before_self (some a) = ground arith

later_place :
    (c d x : Condition) (ds : List Condition)
    → (x ≡ c) ⊎ ((i : ℕ) × (get_elem? ds i ≡ some x))
    → (x ≡ c) ⊎ ((i : ℕ) × (get_elem? (d ∷ ds) i ≡ some x))
later_place c d x ds (inl e) = inl e
later_place c d x ds (inr (i, e)) = inr (suc i, e)

from_head :
    (c d x : Condition) (ds : List Condition)
    → (x ≡ d) ⊎ ((i : ℕ) × (get_elem? ds i ≡ some x))
    → (x ≡ c) ⊎ ((i : ℕ) × (get_elem? (d ∷ ds) i ≡ some x))
from_head c d x ds (inl e) = inr (zero, ap some (sym e))
from_head c d x ds (inr (i, e)) = inr (suc i, e)

step_fine : (d c : Condition) → is_true d ≡ true → earliest_step (some c) d ≡ some c
unfolding earliest_step
step_fine d c e = rw e refl

step_before :
    (d c : Condition)
    → is_true d ≡ false
    → is_before d.time c.time ≡ true
    → earliest_step (some c) d ≡ some d
unfolding earliest_step earlier
step_before d c e b = rw e (rw b refl)

step_after :
    (d c : Condition)
    → is_true d ≡ false
    → is_before d.time c.time ≡ false
    → earliest_step (some c) d ≡ some c
unfolding earliest_step earlier
step_after d c e b = rw e (rw b refl)

start_fine : (d : Condition) → is_true d ≡ true → earliest_step none d ≡ none
unfolding earliest_step
start_fine d e = rw e refl

start_not_fine : (d : Condition) → is_true d ≡ false → earliest_step none d ≡ some d
unfolding earliest_step earlier
start_not_fine d e = rw e refl

head_place :
    (d x : Condition) (ds : List Condition)
    → (x ≡ d) ⊎ ((i : ℕ) × (get_elem? ds i ≡ some x))
    → (i : ℕ) × (get_elem? (d ∷ ds) i ≡ some x)
head_place d x ds (inl e) = (zero, ap some (sym e))
head_place d x ds (inr (i, e)) = (suc i, e)

module _ (lodash : Lodash) where
  open lodash use {each}

  each-earliest_step :
      (ds : List Condition) (c : Condition)
      → dated ds ≡ true
      → is_some c.time ≡ true
      → is_true c ≡ false
      → (x : Condition) × (each ds earliest_step (some c) ≡ some x) × Kept c ds x
  each-earliest_step [] c v w n = (
    c,
    lodash.each_nil earliest_step (some c),
    record {
      date = w;
      first_not_before = not_before_self c.time;
      none_earlier = refl;
      not_true = n;
      origin = inl refl;
    },
  )
  each-earliest_step (d ∷ ds) c v w n = elim (Bool-cases (is_true d)) [
    | inl fine ↦
        let r : (x : Condition) × (each ds earliest_step (some c) ≡ some x) × Kept c ds x =
          each-earliest_step ds c (ground (arith, v)) w n in
        (
          r.0,
          lodash.each_cons d ds earliest_step (some c)
              ∙ ap (each ds earliest_step) (step_fine d c fine)
              ∙ r.1,
          record {
            date = r.2.date;
            first_not_before = r.2.first_not_before;
            none_earlier = rw fine r.2.none_earlier;
            not_true = r.2.not_true;
            origin = later_place c d r.0 ds r.2.origin;
          },
        )
    | inr not_fine ↦ elim (Bool-cases (is_before d.time c.time)) [
      | inl before ↦
          let r : (x : Condition) × (each ds earliest_step (some d) ≡ some x) × Kept d ds x =
            each-earliest_step ds d (ground (arith, v)) (ground (arith, v)) not_fine in
          (
            r.0,
            lodash.each_cons d ds earliest_step (some c)
                ∙ ap (each ds earliest_step) (step_before d c not_fine before)
                ∙ r.1,
            record {
              date = r.2.date;
              first_not_before =
                  before_both d.time c.time (r.0).time r.2.date before r.2.first_not_before;
              none_earlier = rw r.2.first_not_before (rw not_fine r.2.none_earlier);
              not_true = r.2.not_true;
              origin = from_head c d r.0 ds r.2.origin;
            },
          )
      | inr after ↦
          let r : (x : Condition) × (each ds earliest_step (some c) ≡ some x) × Kept c ds x =
            each-earliest_step ds c (ground (arith, v)) w n in
          (
            r.0,
            lodash.each_cons d ds earliest_step (some c)
                ∙ ap (each ds earliest_step) (step_after d c not_fine after)
                ∙ r.1,
            record {
              date = r.2.date;
              first_not_before = r.2.first_not_before;
              none_earlier =
                  rw (not_before_both d.time c.time (r.0).time w after r.2.first_not_before)
                    (rw not_fine r.2.none_earlier);
              not_true = r.2.not_true;
              origin = later_place c d r.0 ds r.2.origin;
            },
          )
    ]
  ]

  -- Nothing is found yet: the first condition that is not true is taken.
  each-none :
      (ds : List Condition)
      → dated ds ≡ true
      → all is_true ds ≡ false
      → (x : Condition) × (each ds earliest_step none ≡ some x) × Earliest ds x
  each-none [] v n = absurd (true≢false n)
  each-none (d ∷ ds) v n = elim (Bool-cases (is_true d)) [
    | inl fine ↦
        let r : (x : Condition) × (each ds earliest_step none ≡ some x) × Earliest ds x =
          each-none ds (ground (arith, v)) (ground (arith, n, fine)) in
        (
          r.0,
          lodash.each_cons d ds earliest_step none
              ∙ ap (each ds earliest_step) (start_fine d fine)
              ∙ r.1,
          record {
            place = (suc r.2.place.0, r.2.place.1);
            not_true = r.2.not_true;
            none_earlier = rw fine r.2.none_earlier;
          },
        )
    | inr not_fine ↦
        let r : (x : Condition) × (each ds earliest_step (some d) ≡ some x) × Kept d ds x =
          each-earliest_step ds d (ground (arith, v)) (ground (arith, v)) not_fine in
        (
          r.0,
          lodash.each_cons d ds earliest_step none
              ∙ ap (each ds earliest_step) (start_not_fine d not_fine)
              ∙ r.1,
          record {
            place = head_place d r.0 ds r.2.origin;
            not_true = r.2.not_true;
            none_earlier = rw r.2.first_not_before (rw not_fine r.2.none_earlier);
          },
        )
  ]

  each-all_ready_step :
      (ds : List Condition) (b : Bool) → each ds all_ready_step b ≡ (b && all is_true ds)
  each-all_ready_step [] b = lodash.each_nil all_ready_step b ∙ ground arith
  each-all_ready_step (d ∷ ds) b =
      lodash.each_cons d ds all_ready_step b
      ∙ each-all_ready_step ds (all_ready_step b d)
      ∙ ground arith

-- A pod without conditions has no readiness, and one with conditions that are all true is ready. With
-- dates that are valid, any other pod has the reason, or else the type, of one of its conditions that are
-- not true, and none of these is earlier.
pub pod_readiness_lem :
    (lodash : Lodash) (s : PodStatus)
    → dated s.conditions ≡ true
    → ((null s.conditions ≡ true) × (pod_readiness lodash s ≡ none))
      ⊎ ((null s.conditions ≡ false)
          × (all is_true s.conditions ≡ true)
          × (pod_readiness lodash s ≡ some (codes "Ready")))
      ⊎ ((x : Condition) × Earliest s.conditions x
          × (pod_readiness lodash s ≡ reason_or_kind (some x)))
unfolding pod_readiness
pod_readiness_lem lodash s v = go s.conditions v
  where
    of_conditions : List Condition → Option Text
    of_conditions cs =
        if lodash.is_empty cs
        then none
        else if lodash.each cs all_ready_step true
        then some (codes "Ready")
        else reason_or_kind (lodash.each cs earliest_step none)

    go :
        (cs : List Condition)
        → dated cs ≡ true
        → ((null cs ≡ true) × (of_conditions cs ≡ none))
          ⊎ ((null cs ≡ false)
              × (all is_true cs ≡ true)
              × (of_conditions cs ≡ some (codes "Ready")))
          ⊎ ((x : Condition) × Earliest cs x × (of_conditions cs ≡ reason_or_kind (some x)))
    go [] v = inl (refl, rw lodash.is_empty_nil refl)
    go (c ∷ cs) v = elim (Bool-cases (all is_true (c ∷ cs))) [
      | inl ready ↦ inr (
          inl (
            refl,
            ready,
            rw (lodash.is_empty_cons c cs)
                (rw (each-all_ready_step lodash (c ∷ cs) true) (rw ready refl)),
          ))
      | inr not_ready ↦
          let r : (x : Condition) × (lodash.each (c ∷ cs) earliest_step none ≡ some x)
              × Earliest (c ∷ cs) x =
            each-none lodash (c ∷ cs) v not_ready in
          inr (
            inr (
              r.0,
              r.2,
              rw (lodash.is_empty_cons c cs) (
                  rw (each-all_ready_step lodash (c ∷ cs) true)
                    (rw not_ready (ap reason_or_kind r.1))),
            ))
    ]
