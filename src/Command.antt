-- ===== src/Command.antt =====
-- frontend/public/module/k8s/command.js: a container's arguments to and from one line of text.
pub mod Quoted
pub mod Laws
pub mod Loss
mod Tests
use web_ui.Base.{
  ℕ, suc, ◌≡◌, Bool, true, false, ◌&&◌, ◌||◌, not, Option, none, some, List, [], ◌∷◌, ◌++◌, map,
  ltb, ◌==◌, if◌then◌else◌, any, length,
}
use web_ui.Base.Text.{Text, is_space, split, join}

-- `indexOf`, where `none` is -1.
unfoldable pub index_of : ℕ → Text → Option ℕ
index_of c [] = none
index_of c (d ∷ s) =
    if d == c then some 0 else elim (index_of c s) [ none ↦ none | some i ↦ some (suc i) ]

abbrev pub greater : Option ℕ → Option ℕ → Bool
greater none j = false
greater (some i) none = true
greater (some i) (some j) = ltb j i

abbrev pub single_quote : ℕ
single_quote = 0x27

abbrev pub double_quote : ℕ
double_quote = 0x22

unfoldable pub quote_kind : Text → ℕ
quote_kind arg =
    if greater (index_of single_quote arg) (index_of double_quote arg)
    then double_quote
    else single_quote

unfoldable pub from_arg : Text → Text
from_arg [] = single_quote ∷ single_quote ∷ []
from_arg (c ∷ s) =
    let arg = c ∷ s in
    if not (any is_space arg) then arg else quote_kind arg ∷ (arg ++ quote_kind arg ∷ [])

unfoldable pub from_args : List Text → Text
from_args args = join (0x20 ∷ []) (map from_arg args)

-- The variables of `toArgs`: `quoteKind` is null at first.
pub record Parse : Type 0 where
  pub args : List Text
  pub quote : Option ℕ
  pub quoted_args : List Text

abbrev pub is_quote : ℕ → Bool
is_quote c = c == single_quote || c == double_quote

-- part[part.length - 1]
unfoldable pub last_char : Text → Option ℕ
last_char [] = none
last_char (c ∷ []) = some c
last_char (c ∷ d ∷ s) = last_char (d ∷ s)

-- slice(0, -1)
unfoldable pub drop_last : Text → Text
drop_last [] = []
drop_last (c ∷ []) = []
drop_last (c ∷ d ∷ s) = c ∷ drop_last (d ∷ s)

-- `===` on a character that may be undefined and a quote kind that may be null
abbrev pub same_char : Option ℕ → Option ℕ → Bool
same_char (some c) (some d) = c == d
same_char _ _ = false

-- A part outside quotes.
unfoldable pub start_part : Parse → Text → Parse
start_part p [] = p
start_part p (c ∷ s) =
    if is_quote c
    then record p { quote = some c; quoted_args = s ∷ [] }
    else record p { args = p.args ++ (c ∷ s) ∷ [] }

-- A part between quotes.
unfoldable pub continue_part : Parse → Text → Parse
continue_part p part =
    let quoted = p.quoted_args ++ part ∷ [] in
    if same_char (last_char part) p.quote
    then record p { args = p.args ++ drop_last (join (0x20 ∷ []) quoted) ∷ []; quoted_args = [] }
    else record p { quoted_args = quoted }

unfoldable pub take_part : Parse → Text → Parse
take_part p part = if length p.quoted_args == 0 then start_part p part else continue_part p part

unfoldable pub take_parts : Parse → List Text → Parse
take_parts p [] = p
take_parts p (part ∷ parts) = take_parts (take_part p part) parts

unfoldable pub to_args : Text → List Text
unfolding take_parts
to_args cmd =
    (take_parts (record { args = []; quote = none; quoted_args = [] }) (split 0x20 cmd)).args
