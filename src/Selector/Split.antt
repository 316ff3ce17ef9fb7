-- ===== src/Selector/Split.antt =====
-- Splitting a printed selector at the commas between its requirements
-- (frontend/public/module/k8s/selector.js, `split`).
use web_ui.Base.{
  ◌≡◌, refl, ◌∙◌, ap, sym, Bool, true, false, ◌&&◌, not, List, [], ◌∷◌, ◌++◌, ◌==◌, All, arith,
  append-nil, append_assoc,
}
use web_ui.Base.Text.{Text, codes, join, Without}
use web_ui.Selector.Selectors.{closes_first, split_commas}

abbrev pub NoParens : Text → Type 0
NoParens s = All (λ c. ((c == b'(') ≡ false) × ((c == b')') ≡ false)) s

-- A text with its commas between parentheses, if it has any.
pub data IsPiece (s : Text) : Type 0 where
  plain : Without b',' s → NoParens s → IsPiece s
  listing :
      (a inner : Text)
      → s ≡ a ++ b'(' ∷ (inner ++ b')' ∷ [])
      → Without b',' a
      → NoParens a
      → NoParens inner
      → IsPiece s

walk : (cur a r : Text) → Without b',' a → split_commas cur (a ++ r) ≡ split_commas (cur ++ a) r
unfolding split_commas
walk cur [] r h = rw append-nil
walk cur (c ∷ a) r (e, h) =
    rw e (walk (cur ++ c ∷ []) a r h ∙ ap (λ x. split_commas x r) (append_assoc cur (c ∷ []) a))

closes_first-inner : (inner r : Text) → NoParens inner → closes_first (inner ++ b')' ∷ r) ≡ true
unfolding closes_first
closes_first-inner [] r h = refl
closes_first-inner (c ∷ inner) r ((o, e), h) = rw e (rw o (closes_first-inner inner r h))

and-not-true : (b : Bool) → (b && not true) ≡ false
and-not-true b = ground arith

walk_inner :
    (cur inner r : Text)
    → NoParens inner
    → split_commas cur (inner ++ b')' ∷ r) ≡ split_commas (cur ++ (inner ++ b')' ∷ [])) r
unfolding split_commas
walk_inner cur [] r h = refl
walk_inner cur (c ∷ inner) r (_, h) = rw (closes_first-inner inner r h) (
    rw (and-not-true (c == b',')) (
      walk_inner (cur ++ c ∷ []) inner r h
      ∙ ap (λ x. split_commas x r) (append_assoc cur (c ∷ []) (inner ++ b')' ∷ []))))

-- A piece is walked over whole, whatever follows.
walk_piece : (cur p r : Text) → IsPiece p → split_commas cur (p ++ r) ≡ split_commas (cur ++ p) r
walk_piece cur p r (plain h _) = walk cur p r h
walk_piece cur p r (listing a inner e h _ hi) =
    ap (λ x. split_commas cur (x ++ r)) e
    ∙ ap (split_commas cur) (append_assoc a (b'(' ∷ (inner ++ b')' ∷ [])) r)
    ∙ walk cur a (b'(' ∷ ((inner ++ b')' ∷ []) ++ r)) h
    ∙ opened
    ∙ ap (λ x. split_commas x r)
        (append_assoc cur a (b'(' ∷ (inner ++ b')' ∷ [])) ∙ ap (cur ++◌) (sym e))
  where
    opened :
        split_commas (cur ++ a) (b'(' ∷ ((inner ++ b')' ∷ []) ++ r))
        ≡ split_commas ((cur ++ a) ++ b'(' ∷ (inner ++ b')' ∷ [])) r
    opened =
        walk (cur ++ a) (b'(' ∷ []) ((inner ++ b')' ∷ []) ++ r) (refl, tt)
        ∙ ap (split_commas ((cur ++ a) ++ b'(' ∷ [])) (append_assoc inner (b')' ∷ []) r)
        ∙ walk_inner ((cur ++ a) ++ b'(' ∷ []) inner r hi
        ∙ ap (λ x. split_commas x r) (append_assoc (cur ++ a) (b'(' ∷ []) (inner ++ b')' ∷ []))

closes_first-skip : (a r : Text) → NoParens a → closes_first (a ++ r) ≡ closes_first r
unfolding closes_first
closes_first-skip [] r h = refl
closes_first-skip (c ∷ a) r ((o, e), h) = rw e (rw o (closes_first-skip a r h))

-- No parenthesis closes first in what follows a piece, or begins one.
closes_first-piece :
    (p r : Text) → IsPiece p → closes_first r ≡ false → closes_first (p ++ r) ≡ false
unfolding closes_first
closes_first-piece p r (plain _ h) e = closes_first-skip p r h ∙ e
closes_first-piece p r (listing a inner e _ h _) _ =
    ap (λ x. closes_first (x ++ r)) e
    ∙ ap closes_first (append_assoc a (b'(' ∷ (inner ++ b')' ∷ [])) r)
    ∙ closes_first-skip a (b'(' ∷ ((inner ++ b')' ∷ []) ++ r)) h

closes_first-join :
    (p : Text) (ps : List Text)
    → All IsPiece (p ∷ ps)
    → closes_first (join (codes ",") (p ∷ ps)) ≡ false
unfolding join closes_first
closes_first-join p [] (h, _) =
    ap closes_first (sym (append-nil p)) ∙ closes_first-piece p [] h refl
closes_first-join p (q ∷ ps) (h, hs) =
    closes_first-piece p (b',' ∷ join (codes ",") (q ∷ ps)) h (closes_first-join q ps hs)

-- Splitting gives back the pieces that were joined.
pub split_commas-join :
    (p : Text) (ps : List Text)
    → All IsPiece (p ∷ ps)
    → split_commas [] (join (codes ",") (p ∷ ps)) ≡ p ∷ ps
unfolding join split_commas
split_commas-join p [] (h, _) = ap (split_commas []) (sym (append-nil p)) ∙ walk_piece [] p [] h
split_commas-join p (q ∷ ps) (h, hs) =
    walk_piece [] p (b',' ∷ join (codes ",") (q ∷ ps)) h
    ∙ rw (closes_first-join q ps hs) (ap (p ∷◌) (split_commas-join q ps hs))
