-- ===== src/Command/Loss.antt =====
-- What an empty argument does to the arguments behind it (frontend/public/module/k8s/command.js).
use web_ui.Base.{
  ℕ, ◌≡◌, refl, ◌∙◌, ap, sym, Option, none, some, List, [], ◌∷◌, ◌++◌, map, All, append_assoc,
}
use mathlib.Core.List.{map-append}
use web_ui.Base.Text.{Text, split, join, split_from, split_from-append, split-join, Without}
use web_ui.Command.{single_quote, from_arg, from_args, take_parts, to_args}
use web_ui.Command.Quoted.{take_parts-append, continue_part-push, parse}
use web_ui.Command.Laws.{IsWord, Reparses, read_args, take_part-opens, solid-Without}

-- A word with no single quote.
abbrev pub IsTame : Text → Type 0
IsTame arg = IsWord arg × Without single_quote arg

open_stays :
    (args : List Text) (t : Text) (ts parts : List Text)
    → All (Without single_quote) parts
    → (take_parts (parse args (some single_quote) (t ∷ ts)) parts).args ≡ args
unfolding take_parts
open_stays args t ts [] h = refl
open_stays args t ts (part ∷ parts) (h, hs) =
    ap (λ p. (take_parts p parts).args) (continue_part-push args single_quote t ts part h)
    ∙ open_stays args t (ts ++ part ∷ []) parts hs

from_arg-word : (arg : Text) → IsWord arg → from_arg arg ≡ arg
unfolding from_arg
from_arg-word [] w = cc
from_arg-word (c ∷ s) w = rw w.solid

map-from_arg : (ys : List Text) → All IsTame ys → map from_arg ys ≡ ys
map-from_arg [] h = refl
map-from_arg (y ∷ ys) ((w, _), h) = cc (from_arg-word y w, map-from_arg ys h)

tame_unspaced : (ys : List Text) → All IsTame ys → All (Without 0x20) ys
tame_unspaced [] h = tt
tame_unspaced (y ∷ ys) ((w, _), h) = (solid-Without y w.solid, tame_unspaced ys h)

tame_unquoted : (ys : List Text) → All IsTame ys → All (Without single_quote) ys
tame_unquoted [] h = tt
tame_unquoted (y ∷ ys) ((_, q), h) = (q, tame_unquoted ys h)

abbrev quotes : Text
quotes = single_quote ∷ single_quote ∷ []

-- From a state with no open quote, the line of an empty argument and tame ones adds nothing.
empty_adds_nothing :
    (acc : List Text) (k : Option ℕ) (ys : List Text)
    → All IsTame ys
    → (take_parts
        (parse acc k [])
        (split_from 0x20 [] (join (0x20 ∷ []) (map from_arg ([] ∷ ys))))).args
      ≡ acc
unfolding take_parts from_arg split
empty_adds_nothing acc k ys h =
    ap (λ zs. (take_parts (parse acc k []) (split 0x20 (join (0x20 ∷ []) (quotes ∷ zs)))).args)
      (map-from_arg ys h)
    ∙ ap (λ zs. (take_parts (parse acc k []) zs).args)
        (split-join 0x20 quotes ys ((refl, (refl, tt)), tame_unspaced ys h))
    ∙ ap (λ p. (take_parts p ys).args) (take_part-opens acc k single_quote (single_quote ∷ []) refl)
    ∙ open_stays acc (single_quote ∷ []) [] ys (tame_unquoted ys h)

join-append :
    (x : Text) (xs : List Text) (y : Text) (ys : List Text)
    → join (0x20 ∷ []) ((x ∷ xs) ++ y ∷ ys)
      ≡ join (0x20 ∷ []) (x ∷ xs) ++ 0x20 ∷ join (0x20 ∷ []) (y ∷ ys)
unfolding join
join-append x [] y ys = refl
join-append x (u ∷ xs) y ys =
    ap (λ r. x ++ 0x20 ∷ r) (join-append u xs y ys) ∙ sym (append_assoc x _ _)

-- Behind arguments that are read back, an empty argument is lost with all the words after it, if none
-- of those holds a single quote: the quotes that it is printed as are read as an opening quote alone.
pub to_args-from_args_empty :
    (xs ys : List Text) → All Reparses xs → All IsTame ys → to_args (from_args (xs ++ [] ∷ ys)) ≡ xs
unfolding to_args from_args split
to_args-from_args_empty [] ys hx hy = empty_adds_nothing [] none ys hy
to_args-from_args_empty (x ∷ xs) ys hx hy =
    let (k, read) = read_args [] none x xs hx in
    let sep : Text = 0x20 ∷ [] in
    let first = split_from 0x20 [] (join sep (map from_arg (x ∷ xs))) in
    let last = split_from 0x20 [] (join sep (map from_arg ([] ∷ ys))) in
    let start = parse [] none [] in
    ap (λ zs. (take_parts start (split_from 0x20 [] (join sep zs))).args)
      (map-append from_arg (x ∷ xs) ([] ∷ ys))
    ∙ ap (λ t. (take_parts start (split_from 0x20 [] t)).args)
        (join-append (from_arg x) (map from_arg xs) (from_arg []) (map from_arg ys))
    ∙ ap (λ zs. (take_parts start zs).args)
        (split_from-append 0x20 [] (join sep (map from_arg (x ∷ xs)))
          (join sep (map from_arg ([] ∷ ys))))
    ∙ ap (λ p. p.args) (take_parts-append start first last)
    ∙ ap (λ p. (take_parts p last).args) read
    ∙ empty_adds_nothing (x ∷ xs) k ys hy
