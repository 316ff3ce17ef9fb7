-- ===== src/Base/Text.antt =====
-- Texts as lists of UTF-16 code units, for the code that walks its strings.
use Prim.Native.Char.{code}
use Prim.Native.Nat.{ℕ}
use Prim.Native.String.{String}
use mathlib.Core.Path.{◌≡◌, refl, ◌∙◌, sym, ap, ap₂, subst}
use mathlib.Core.Logic.{◌↔◌, inl, inr}
use mathlib.Core.Bool.{Bool, true, false, ◌&&◌, ◌||◌}
use mathlib.Core.List.{List, [], ◌∷◌, ◌++◌, append-nil, append_assoc}
use web_ui.Base.Tests.{if◌then◌else◌, ◌==◌, leb, ==_refl, ==_iff, Bool-cases}
use web_ui.Base.Lists.{All}

abbrev pub Text : Type 0
Text = List ℕ

-- The code units of a literal, which is ASCII wherever the models use one.
abbrev pub codes : String → Text
codes String.[] = []
codes (String.◌∷◌ c s) = code c ∷ codes s

-- What `\s` matches and `trim` removes.
unfoldable pub is_space : ℕ → Bool
is_space c =
    c == 0x20
    || leb 0x09 c && leb c 0x0d
    || c == 0xa0
    || c == 0x1680
    || leb 0x2000 c && leb c 0x200a
    || c == 0x2028
    || c == 0x2029
    || c == 0x202f
    || c == 0x205f
    || c == 0x3000
    || c == 0xfeff

-- `split` at a one-character separator, and the `join` that puts it back.
unfoldable pub split_from : ℕ → Text → Text → List Text
split_from sep cur [] = cur ∷ []
split_from sep cur (c ∷ s) =
    let closed = cur ∷ split_from sep [] s in
    let longer = split_from sep (cur ++ c ∷ []) s in if c == sep then closed else longer

unfoldable pub split : ℕ → Text → List Text
unfolding split_from
split sep s = split_from sep [] s

unfoldable pub join : Text → List Text → Text
join sep [] = []
join sep (t ∷ []) = t
join sep (t ∷ u ∷ ts) = t ++ (sep ++ join sep (u ∷ ts))

-- No character of a text is `c`.
abbrev pub Without : ℕ → Text → Type 0
Without c s = All (λ x. (x == c) ≡ false) s

pub split_from-append :
    (sep : ℕ) (cur a b : Text)
    → split_from sep cur (a ++ sep ∷ b) ≡ split_from sep cur a ++ split_from sep [] b
unfolding split_from
split_from-append sep cur [] b = rw (==_refl sep)
split_from-append sep cur (c ∷ a) b = elim (Bool-cases (c == sep)) [
  | inl e ↦ rw e (ap (cur ∷◌) (split_from-append sep [] a b))
  | inr e ↦ rw e (split_from-append sep (cur ++ c ∷ []) a b)
]

pub split_from_of_Without :
    (sep : ℕ) (cur a : Text) → Without sep a → split_from sep cur a ≡ (cur ++ a) ∷ []
unfolding split_from
split_from_of_Without sep cur [] h = rw append-nil
split_from_of_Without sep cur (c ∷ a) (e, h) =
    rw e (
      split_from_of_Without sep (cur ++ c ∷ []) a h
      ∙ ap (λ t. t ∷ []) (append_assoc cur (c ∷ []) a))

-- Splitting gives back what was joined, if no piece holds the separator.
pub split-join :
    (sep : ℕ) (t : Text) (ts : List Text)
    → All (Without sep) (t ∷ ts)
    → split sep (join (sep ∷ []) (t ∷ ts)) ≡ t ∷ ts
unfolding split join
split-join sep t [] (h, _) = split_from_of_Without sep [] t h
split-join sep t (u ∷ ts) (h, hs) =
    split_from-append sep [] t (join (sep ∷ []) (u ∷ ts))
    ∙ ap₂ ◌++◌ (split_from_of_Without sep [] t h) (split-join sep u ts hs)

unfoldable pub same_text : Text → Text → Bool
same_text [] [] = true
same_text (c ∷ s) (d ∷ t) = c == d && same_text s t
same_text _ _ = false

unfoldable pub starts_with : Text → Text → Bool
starts_with s [] = true
starts_with [] (c ∷ p) = false
starts_with (d ∷ s) (c ∷ p) = d == c && starts_with s p

pub same_text_refl : (s : Text) → same_text s s ≡ true
unfolding same_text
same_text_refl [] = refl
same_text_refl (c ∷ s) = rw (==_refl c) (same_text_refl s)

pub same_text_eq : (s t : Text) → same_text s t ≡ true → s ≡ t
unfolding same_text
same_text_eq [] [] h = refl
same_text_eq [] (d ∷ t) h = cc
same_text_eq (c ∷ s) [] h = cc
same_text_eq (c ∷ s) (d ∷ t) h = elim (Bool-cases (c == d)) [
  | inl e ↦ ap₂ ◌∷◌ ((==_iff c d).0 e) (same_text_eq s t (sym (ap (λ b. b && same_text s t) e) ∙ h))
  | inr e ↦ cc
]

pub same_text_iff : (s t : Text) → (same_text s t ≡ true) ↔ (s ≡ t)
same_text_iff s t = (same_text_eq s t, λ e. subst (λ u. same_text s u ≡ true) e (same_text_refl s))
