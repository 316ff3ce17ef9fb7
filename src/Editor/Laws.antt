-- ===== src/Editor/Laws.antt =====
-- What the operations of the editors do to the pairs
-- (frontend/public/components/utils/name-value-editor.jsx).
use web_ui.Base.{
  ℕ, zero, suc, ◌≡◌, refl, ap, ap₂, ◌∙◌, Bool, true, false, none, some, List, [], ◌∷◌, ◌++◌, length,
  get_elem?, null, if◌then◌else◌, ltb, ◌==◌, arith,
}
use web_ui.Editor.Pairs.{Pair, append, splice, or_one, remove, assign, exchange, move}

get_elem?-assign :
    (i k : ℕ) (p : Pair) (ps : List Pair)
    → get_elem? (assign i p ps) k
      ≡ (if k == i then (if ltb i (length ps) then some p else none) else get_elem? ps k)
unfolding assign
get_elem?-assign i k p [] = ground arith
get_elem?-assign zero zero p (q ∷ ps) = ground arith
get_elem?-assign zero (suc k) p (q ∷ ps) = ground arith
get_elem?-assign (suc i) zero p (q ∷ ps) = ground arith
get_elem?-assign (suc i) (suc k) p (q ∷ ps) = ground (arith, get_elem?-assign i k p ps)

length-assign : (i : ℕ) (p : Pair) (ps : List Pair) → length (assign i p ps) ≡ length ps
unfolding assign
length-assign i p [] = refl
length-assign zero p (q ∷ ps) = refl
length-assign (suc i) p (q ∷ ps) = omega (arith, length-assign i p ps)

in_range : (i : ℕ) (p : Pair) (ps : List Pair) → get_elem? ps i ≡ some p → ltb i (length ps) ≡ true
in_range i p [] h = cc
in_range zero p (q ∷ ps) h = ground arith
in_range (suc i) p (q ∷ ps) h = ground (arith, in_range i p ps h)

exchanged :
    (i j : ℕ) (p q : Pair) (ps : List Pair)
    → get_elem? ps i ≡ some p
    → get_elem? ps j ≡ some q
    → move i j ps ≡ assign j p (assign i q ps)
unfolding move exchange
exchanged i j p q ps h k = ap₂ (λ a b. exchange i j a b ps) h k

-- Moving between two rows exchanges their pairs, leaves every other row as it was, and keeps the number
-- of rows.
pub move_lem :
    (i j k : ℕ) (p q : Pair) (ps : List Pair)
    → get_elem? ps i ≡ some p
    → get_elem? ps j ≡ some q
    → (get_elem? (move i j ps) k
        ≡ (if k == j then some p else if k == i then some q else get_elem? ps k))
      × (length (move i j ps) ≡ length ps)
move_lem i j k p q ps h l = (
  ap (λ t. get_elem? t k) (exchanged i j p q ps h l)
      ∙ get_elem?-assign j k p (assign i q ps)
      ∙ ap₂ (λ b o. if k == j then (if b then some p else none) else o)
          (ap (ltb j) (length-assign i q ps) ∙ in_range j q ps l)
          (get_elem?-assign i k q ps
            ∙ ap (λ b. if k == i then (if b then some q else none) else get_elem? ps k)
                (in_range i p ps h)),
  ap length (exchanged i j p q ps h l) ∙ length-assign j p (assign i q ps) ∙ length-assign i q ps,
)

splice-last : (ps : List Pair) (p : Pair) → splice (length ps) (ps ++ p ∷ []) ≡ ps
unfolding splice
splice-last [] p = refl
splice-last (q ∷ ps) p = ap (q ∷◌) (splice-last ps p)

null-or_one : (p : Pair) (rs : List Pair) → null (or_one p rs) ≡ false
unfolding or_one
null-or_one p [] = refl
null-or_one p (r ∷ rs) = refl

-- Removing the row that was appended gives back the rows before, if there were any, and the rows are
-- never empty after a removal.
pub remove-append :
    (allow_sorting : Bool) (i : ℕ) (ps qs : List Pair)
    → null ps ≡ false
    → (remove (length ps) (append allow_sorting ps) ≡ ps) × (null (remove i qs) ≡ false)
unfolding remove append or_one
remove-append allow_sorting i [] qs h = cc
remove-append allow_sorting i (p ∷ ps) qs h =
    (ap (or_one _) (splice-last (p ∷ ps) _), null-or_one _ (splice i qs))
