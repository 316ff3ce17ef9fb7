-- ===== src/Command/Laws.antt =====
-- Printing arguments and reading them back (frontend/public/module/k8s/command.js).
use web_ui.Base.{
  ℕ, ◌≡◌, ◌⊎◌, inl, inr, refl, ◌∙◌, ap, sym, Bool, true, false, ◌||◌, Option, none, some, List, [],
  ◌∷◌, ◌++◌, map, ◌==◌, any, All, arith, append_assoc, subst,
}
use web_ui.Base.Text.{
  Text, is_space, split, join, split_from, split_from-append, split_from_of_Without, Without,
}
use web_ui.Command.{
  single_quote, double_quote, quote_kind, from_arg, from_args, is_quote, start_part, take_part,
  take_parts, to_args,
}
use web_ui.Command.Quoted.{take_parts-append, quote_kind-Without, parse, take_parts-quoted}

-- An argument that is printed as it is.
pub record IsWord (arg : Text) : Type 0 where
  pub head : ℕ
  pub tail : Text
  pub cons : arg ≡ head ∷ tail
  pub bare : is_quote head ≡ false
  pub solid : any is_space arg ≡ false

-- An argument that is quoted: it holds a space, and one of the two quotes does not occur in it.
pub record IsPhrase (arg : Text) : Type 0 where
  pub before : Text
  pub after : Text
  pub cut : arg ≡ before ++ 0x20 ∷ after
  pub first : Without 0x20 before
  pub free : Without single_quote arg ⊎ Without double_quote arg

abbrev pub Reparses : Text → Type 0
Reparses arg = IsWord arg ⊎ IsPhrase arg

or-eq-false : (a b : Bool) → (a || b) ≡ false → (a ≡ false) × (b ≡ false)
or-eq-false a b h = ground arith

or-true : (b : Bool) → (b || true) ≡ true
or-true b = ground arith

space-solid : (c : ℕ) → is_space c ≡ false → (c == 0x20) ≡ false
unfolding is_space
space-solid c h = ground arith

pub solid-Without : (s : Text) → any is_space s ≡ false → Without 0x20 s
solid-Without [] h = tt
solid-Without (c ∷ s) h =
    let (e, hs) = or-eq-false (is_space c) (any is_space s) h in
    (space-solid c e, solid-Without s hs)

any-space : (a b : Text) → any is_space (a ++ 0x20 ∷ b) ≡ true
unfolding is_space
any-space [] b = refl
any-space (c ∷ a) b = rw (any-space a b) (or-true (is_space c))

quote_kind-cases : (arg : Text) → (quote_kind arg ≡ single_quote) ⊎ (quote_kind arg ≡ double_quote)
unfolding quote_kind
quote_kind-cases arg = ground arith

quote_kind-is_quote : (arg : Text) → is_quote (quote_kind arg) ≡ true
quote_kind-is_quote arg = elim (quote_kind-cases arg) [ inl e ↦ rw e | inr e ↦ rw e ]

quote_kind-ne-space : (arg : Text) → (quote_kind arg == 0x20) ≡ false
quote_kind-ne-space arg = elim (quote_kind-cases arg) [ inl e ↦ rw e | inr e ↦ rw e ]

from_arg-phrase :
    (arg : Text)
    → any is_space arg ≡ true
    → from_arg arg ≡ quote_kind arg ∷ (arg ++ quote_kind arg ∷ [])
unfolding from_arg
from_arg-phrase [] h = cc
from_arg-phrase (c ∷ s) h = rw h

Without-append : (q : ℕ) (a b : Text) → Without q (a ++ b) → Without q b
Without-append q [] b h = h
Without-append q (c ∷ a) b (_, h) = Without-append q a b h

split_quoted :
    (q : ℕ) (before rest : Text)
    → (q == 0x20) ≡ false
    → Without 0x20 before
    → split_from 0x20 [] (q ∷ (before ++ 0x20 ∷ rest)) ≡ (q ∷ before) ∷ split_from 0x20 [] rest
unfolding split_from
split_quoted q before rest e h = rw e (
    split_from-append 0x20 (q ∷ []) before rest
    ∙ ap (λ ts. ts ++ split_from 0x20 [] rest) (split_from_of_Without 0x20 (q ∷ []) before h))

pub take_part-opens :
    (acc : List Text) (k : Option ℕ) (q : ℕ) (s : Text)
    → is_quote q ≡ true
    → take_part (parse acc k []) (q ∷ s) ≡ parse acc (some q) (s ∷ [])
unfolding take_part start_part
take_part-opens acc k q s e = rw e

read_phrase :
    (acc : List Text) (k : Option ℕ) (arg : Text)
    → IsPhrase arg
    → take_parts (parse acc k []) (split_from 0x20 [] (from_arg arg))
      ≡ parse (acc ++ arg ∷ []) (some (quote_kind arg)) []
unfolding take_parts join
read_phrase acc k arg p =
    let q = quote_kind arg in
    let free : Without q (p.before ++ 0x20 ∷ p.after) =
      subst (Without q) p.cut (quote_kind-Without arg p.free) in
    let spaced : any is_space arg ≡ true =
      subst (λ t. any is_space t ≡ true) (sym p.cut) (any-space p.before p.after) in
    let shape : from_arg arg ≡ q ∷ (p.before ++ 0x20 ∷ (p.after ++ q ∷ [])) =
      from_arg-phrase arg spaced
      ∙ ap (λ t. q ∷ (t ++ q ∷ [])) p.cut
      ∙ ap (q ∷◌) (append_assoc p.before (0x20 ∷ p.after) (q ∷ [])) in
    ap (λ t. take_parts (parse acc k []) (split_from 0x20 [] t)) shape
    ∙ ap (take_parts (parse acc k []))
        (split_quoted q p.before (p.after ++ q ∷ []) (quote_kind-ne-space arg) p.first)
    ∙ ap (λ st. take_parts st (split_from 0x20 [] (p.after ++ q ∷ [])))
        (take_part-opens acc k q p.before (quote_kind-is_quote arg))
    ∙ take_parts-quoted acc q p.before [] [] p.after (quote_kind-ne-space arg) tt
        (Without-append q p.before (0x20 ∷ p.after) free).1
    ∙ ap (λ t. parse (acc ++ t ∷ []) (some q) []) (sym p.cut)

-- Each argument is read back on its own, from a state with no open quote.
read_arg :
    (acc : List Text) (k : Option ℕ) (arg : Text)
    → Reparses arg
    → (k' : Option ℕ) × (take_parts (parse acc k []) (split_from 0x20 [] (from_arg arg))
        ≡ parse (acc ++ arg ∷ []) k' [])
unfolding take_parts take_part start_part from_arg
read_arg acc k [] (inl w) = cc
read_arg acc k (c ∷ s) (inl w) =
    let bare : is_quote c ≡ false = ground arith in
    (
      k,
      rw w.solid
          (rw (split_from_of_Without 0x20 [] (c ∷ s) (solid-Without (c ∷ s) w.solid)) (rw bare)),
    )
read_arg acc k arg (inr p) = (some (quote_kind arg), read_phrase acc k arg p)

pub read_args :
    (acc : List Text) (k : Option ℕ) (arg : Text) (args : List Text)
    → All Reparses (arg ∷ args)
    → (k' : Option ℕ) × (take_parts
          (parse acc k [])
          (split_from 0x20 [] (join (0x20 ∷ []) (map from_arg (arg ∷ args))))
        ≡ parse (acc ++ arg ∷ args) k' [])
unfolding join
read_args acc k arg [] (h, _) = read_arg acc k arg h
read_args acc k arg (b ∷ rest) (h, hs) =
    let (k1, one) = read_arg acc k arg h in
    let (k2, more) = read_args (acc ++ arg ∷ []) k1 b rest hs in
    (
      k2,
      ap (take_parts (parse acc k []))
            (split_from-append 0x20 [] (from_arg arg) (join (0x20 ∷ []) (map from_arg (b ∷ rest))))
          ∙ take_parts-append (parse acc k []) (split_from 0x20 [] (from_arg arg)) _
          ∙ ap
              (λ st.
                take_parts st (split_from 0x20 [] (join (0x20 ∷ []) (map from_arg (b ∷ rest)))))
              one
          ∙ more
          ∙ ap (λ ts. parse ts k2 []) (append_assoc acc (arg ∷ []) (b ∷ rest)),
    )

to_args-nil : to_args (from_args []) ≡ []
unfolding to_args from_args split split_from take_parts take_part start_part join
to_args-nil = refl

-- Arguments are read back as they were, if each is a word (not empty, no white space, no quote at its
-- start) or a phrase (it holds a space, and at most one kind of quote).
pub to_args-from_args : (args : List Text) → All Reparses args → to_args (from_args args) ≡ args
unfolding to_args from_args split
to_args-from_args [] h = to_args-nil
to_args-from_args (arg ∷ args) h = ap (λ p. p.args) (read_args [] none arg args h).1
