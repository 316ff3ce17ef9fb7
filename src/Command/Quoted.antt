-- ===== src/Command/Quoted.antt =====
-- The parts of a quoted argument, put together (frontend/public/module/k8s/command.js).
use web_ui.Base.{
  ℕ, ◌≡◌, ◌⊎◌, inl, inr, refl, ◌∙◌, ap, sym, false, Option, none, some, List, [], ◌∷◌, ◌++◌, ◌==◌,
  length, arith, append_assoc, append-nil, Bool-cases, Option-cases, ==_refl, ==_iff, suc-ne-zero,
  All-append,
}
use web_ui.Base.Text.{Text, join, split_from, Without}
use web_ui.Command.{
  index_of, single_quote, double_quote, quote_kind, Parse, last_char, drop_last, same_char,
  continue_part, take_part, take_parts,
}

pub take_parts-append :
    (p : Parse) (xs ys : List Text) → take_parts p (xs ++ ys) ≡ take_parts (take_parts p xs) ys
unfolding take_parts
take_parts-append p [] ys = refl
take_parts-append p (x ∷ xs) ys = take_parts-append (take_part p x) xs ys

index_of_of_Without : (c : ℕ) (s : Text) → Without c s → index_of c s ≡ none
unfolding index_of
index_of_of_Without c [] h = refl
index_of_of_Without c (d ∷ s) (e, h) = rw e (rw (index_of_of_Without c s h))

Without-of_index_of : (c : ℕ) (s : Text) → index_of c s ≡ none → Without c s
unfolding index_of
Without-of_index_of c [] h = tt
Without-of_index_of c (d ∷ s) h = elim (Bool-cases (d == c)) [
  | inl e ↦ absurd (some-ne-none (rw e at h))
  | inr e ↦ (e, Without-of_index_of c s (ground arith))
]
  where
    some-ne-none : ¬ (◌≡◌ {A = Option ℕ} (some 0) none)
    some-ne-none e = cc

-- The quote that is chosen does not occur, if one of them does not.
pub quote_kind-Without :
    (arg : Text)
    → Without single_quote arg ⊎ Without double_quote arg
    → Without (quote_kind arg) arg
unfolding quote_kind
quote_kind-Without arg (inl none_single) =
    rw (index_of_of_Without single_quote arg none_single) none_single
quote_kind-Without arg (inr none_double) = elim (Option-cases (index_of single_quote arg)) [
  | inl absent ↦ rw absent (Without-of_index_of single_quote arg absent)
  | inr (i, here) ↦ rw (here, index_of_of_Without double_quote arg none_double) none_double
]

last_char-snoc : (s : Text) (c : ℕ) → last_char (s ++ c ∷ []) ≡ some c
unfolding last_char
last_char-snoc [] c = refl
last_char-snoc (d ∷ []) c = refl
last_char-snoc (d ∷ e ∷ s) c = last_char-snoc (e ∷ s) c

pub drop_last-snoc : (s : Text) (c : ℕ) → drop_last (s ++ c ∷ []) ≡ s
unfolding drop_last
drop_last-snoc [] c = refl
drop_last-snoc (d ∷ []) c = refl
drop_last-snoc (d ∷ e ∷ s) c = ap (d ∷◌) (drop_last-snoc (e ∷ s) c)

last_char_of_Without : (q : ℕ) (s : Text) → Without q s → same_char (last_char s) (some q) ≡ false
unfolding last_char
last_char_of_Without q [] h = refl
last_char_of_Without q (c ∷ []) (e, _) = e
last_char_of_Without q (c ∷ d ∷ s) (_, h) = last_char_of_Without q (d ∷ s) h

join-snoc :
    (t : Text) (ts : List Text) (z : Text)
    → join (0x20 ∷ []) ((t ∷ ts) ++ z ∷ []) ≡ join (0x20 ∷ []) (t ∷ ts) ++ 0x20 ∷ z
unfolding join
join-snoc t [] z = refl
join-snoc t (u ∷ ts) z = ap (λ r. t ++ 0x20 ∷ r) (join-snoc u ts z) ∙ sym (append_assoc t _ _)

abbrev pub parse : List Text → Option ℕ → List Text → Parse
parse args quote quoted = record { args = args; quote = quote; quoted_args = quoted }

take_part-quoted :
    (args : List Text) (q : Option ℕ) (t : Text) (ts : List Text) (part : Text)
    → take_part (parse args q (t ∷ ts)) part ≡ continue_part (parse args q (t ∷ ts)) part
unfolding take_part
take_part-quoted args q t ts part = rw (suc-ne-zero (length ts))

pub continue_part-push :
    (args : List Text) (q : ℕ) (t : Text) (ts : List Text) (part : Text)
    → Without q part
    → take_part (parse args (some q) (t ∷ ts)) part ≡ parse args (some q) (t ∷ (ts ++ part ∷ []))
unfolding continue_part
continue_part-push args q t ts part h =
    rw (take_part-quoted args (some q) t ts part) (rw (last_char_of_Without q part h))

continue_part-close :
    (args : List Text) (q : ℕ) (t : Text) (ts : List Text) (cur : Text)
    → take_part (parse args (some q) (t ∷ ts)) (cur ++ q ∷ [])
      ≡ parse (args ++ (join (0x20 ∷ []) (t ∷ ts) ++ 0x20 ∷ cur) ∷ []) (some q) []
unfolding continue_part
continue_part-close args q t ts cur = rw (take_part-quoted args (some q) t ts (cur ++ q ∷ [])) (
    rw (last_char-snoc cur q) (
      rw (==_refl q) (
        ap (λ x. parse (args ++ x ∷ []) (some q) [])
          (ap drop_last (
              join-snoc t ts (cur ++ q ∷ [])
              ∙ sym (append_assoc (join (0x20 ∷ []) (t ∷ ts)) (0x20 ∷ cur) (q ∷ [])))
            ∙ drop_last-snoc (join (0x20 ∷ []) (t ∷ ts) ++ 0x20 ∷ cur) q))))

-- Between quotes of kind `q`: the parts of a text free of `q`, and then the closing quote.
pub take_parts-quoted :
    (args : List Text) (q : ℕ) (t : Text) (ts : List Text) (cur y : Text)
    → (q == 0x20) ≡ false
    → Without q cur
    → Without q y
    → take_parts (parse args (some q) (t ∷ ts)) (split_from 0x20 cur (y ++ q ∷ []))
      ≡ parse (args ++ (join (0x20 ∷ []) (t ∷ ts) ++ 0x20 ∷ (cur ++ y)) ∷ []) (some q) []
unfolding split_from take_parts
take_parts-quoted args q t ts cur [] no_space hc hy =
    rw no_space (rw (continue_part-close args q t ts cur) (rw append-nil))
take_parts-quoted args q t ts cur (c ∷ y) no_space hc (e', hy) = elim (Bool-cases (c == 0x20)) [
  | inl e ↦ rw e (
      ap (λ p. take_parts p (split_from 0x20 [] (y ++ q ∷ [])))
        (continue_part-push args q t ts cur hc)
      ∙ take_parts-quoted args q t (ts ++ cur ∷ []) [] y no_space tt hy
      ∙ ap (λ x. parse (args ++ x ∷ []) (some q) [])
          (ap (λ r. r ++ 0x20 ∷ y) (join-snoc t ts cur)
            ∙ append_assoc (join (0x20 ∷ []) (t ∷ ts)) (0x20 ∷ cur) (0x20 ∷ y)
            ∙ ap (λ d. join (0x20 ∷ []) (t ∷ ts) ++ 0x20 ∷ (cur ++ d ∷ y))
                (sym ((==_iff c 0x20).0 e))))
  | inr e ↦ rw e (
      take_parts-quoted args q t ts (cur ++ c ∷ []) y no_space
        (All-append _ cur (c ∷ []) hc (e', tt)) hy
      ∙ ap (λ z. parse (args ++ (join (0x20 ∷ []) (t ∷ ts) ++ 0x20 ∷ z) ∷ []) (some q) [])
          (append_assoc cur (c ∷ []) y))
]
