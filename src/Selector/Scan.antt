-- ===== src/Selector/Scan.antt =====
-- The pieces of the regular expressions of frontend/public/module/k8s/selector-requirement.js. In each
-- expression a run is followed by a character that the run's class does not hold, so that the greedy
-- match is the only one and no step is ever taken back.
use web_ui.Base.{
  ℕ, Bool, true, false, ◌&&◌, ◌||◌, Option, none, some, [], ◌∷◌, leb, ◌==◌, if◌then◌else◌,
}
use web_ui.Base.Text.{Text, is_space}

-- [0-9A-Za-z/\-_.]
unfoldable pub is_key_char : ℕ → Bool
is_key_char c =
    leb b'0' c && leb c b'9'
    || leb b'A' c && leb c b'Z'
    || leb b'a' c && leb c b'z'
    || c == b'/'
    || c == b'-'
    || c == b'_'
    || c == b'.'

-- [0-9.]
unfoldable pub is_decimal_char : ℕ → Bool
is_decimal_char c = leb b'0' c && leb c b'9' || c == b'.'

-- [0-9A-Za-z/\-_.,\s]
unfoldable pub is_list_char : ℕ → Bool
unfolding is_key_char is_space
is_list_char c = is_key_char c || c == b',' || is_space c

-- What follows a run of any length: `[…]*`.
unfoldable pub skip_run : (ℕ → Bool) → Text → Text
skip_run p [] = []
skip_run p (c ∷ s) = let rest = skip_run p s in if p c then rest else c ∷ s

-- What follows a run that is not empty: `[…]+`.
unfoldable pub skip_run1 : (ℕ → Bool) → Text → Option Text
skip_run1 p [] = none
skip_run1 p (c ∷ s) = if p c then some (skip_run p s) else none

-- What follows one character, or a word.
unfoldable pub skip_char : ℕ → Text → Option Text
skip_char c [] = none
skip_char c (d ∷ s) = if d == c then some s else none

unfoldable pub skip_word : Text → Text → Option Text
skip_word [] s = some s
skip_word (c ∷ w) [] = none
skip_word (c ∷ w) (d ∷ s) = if d == c then skip_word w s else none

-- What follows a character that may be missing: `=?`.
unfoldable pub skip_optional : ℕ → Text → Text
skip_optional c [] = []
skip_optional c (d ∷ s) = if d == c then s else d ∷ s

infixl 5 ◌>>=◌
abbrev pub ◌>>=◌ {ℓ κ} : {A : Type ℓ} {B : Type κ} → Option A → (A → Option B) → Option B
none >>= f = none
some a >>= f = f a

-- `$`: nothing follows.
abbrev pub at_end : Option Text → Bool
at_end (some []) = true
at_end _ = false

-- The first two parts of a split at the leftmost match of a separator, `sep`, which gives what follows
-- a match at the head of a text. The second part ends at the next match.
unfoldable pub cut : (Text → Option Text) → Text → Text × Option Text
cut sep [] = ([], none)
cut sep (c ∷ s) =
    let later = cut sep s in
    elim (sep (c ∷ s)) [ some rest ↦ ([], some rest) | none ↦ (c ∷ later.0, later.1) ]

unfoldable pub split_two : (Text → Option Text) → Text → Text × Option Text
split_two sep s =
    let (before, rest) = cut sep s in
    (before, elim rest [ none ↦ none | some r ↦ some (cut sep r).0 ])
