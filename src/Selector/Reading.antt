-- ===== src/Selector/Reading.antt =====
-- How the scanners of frontend/public/module/k8s/selector-requirement.js run over printed requirements.
use web_ui.Base.{
  ℕ, ◌≡◌, refl, ◌∙◌, ap, sym, Bool, true, false, not, Option, none, some, [], ◌∷◌, ◌++◌, ◌==◌, All,
  arith, append-nil,
}
use web_ui.Base.Text.{Text, is_space}
use web_ui.Selector.Scan.{is_key_char, skip_run, skip_run1, skip_char, skip_word, cut, split_two}
use web_ui.Selector.Requirement.{
  bang_sep, equals_sep, not_equals_sep, spaced_sep, trim, trim_start, trim_end,
}

-- A text that is not empty, all of whose characters pass `p`.
abbrev pub IsRun : (ℕ → Bool) → Text → Type 0
IsRun p [] = ⊥
IsRun p (c ∷ s) = (p c ≡ true) × All (λ d. p d ≡ true) s

-- A run of `p` ends where this text begins.
abbrev pub Stops : (ℕ → Bool) → Text → Type 0
Stops p [] = Unit
Stops p (c ∷ s) = p c ≡ false

abbrev pub Chars : (ℕ → Bool) → Text → Type 0
Chars p s = All (λ c. p c ≡ true) s

pub IsRun-Chars : (p : ℕ → Bool) (s : Text) → IsRun p s → Chars p s
IsRun-Chars p [] h = absurd h
IsRun-Chars p (c ∷ s) h = h

skip_run-append : (p : ℕ → Bool) (a r : Text) → Chars p a → Stops p r → skip_run p (a ++ r) ≡ r
unfolding skip_run
skip_run-append p [] [] h e = refl
skip_run-append p [] (c ∷ r) h e = rw e
skip_run-append p (c ∷ a) r (h, hs) e = rw h (skip_run-append p a r hs e)

pub skip_run_stop : (p : ℕ → Bool) (r : Text) → Stops p r → skip_run p r ≡ r
skip_run_stop p r e = skip_run-append p [] r tt e

pub skip_run1-append :
    (p : ℕ → Bool) (a r : Text) → IsRun p a → Stops p r → skip_run1 p (a ++ r) ≡ some r
unfolding skip_run1
skip_run1-append p [] r h e = absurd h
skip_run1-append p (c ∷ a) r (h, hs) e = rw h (ap some (skip_run-append p a r hs e))

pub skip_run1_all : (p : ℕ → Bool) (a : Text) → IsRun p a → skip_run1 p a ≡ some []
skip_run1_all p a h = ap (skip_run1 p) (sym (append-nil a)) ∙ skip_run1-append p a [] h tt

-- A separator that never matches at a character of `p`.
abbrev pub Avoids : (ℕ → Bool) → (Text → Option Text) → Type 0
Avoids p sep = (c : ℕ) (s : Text) → p c ≡ true → sep (c ∷ s) ≡ none

pub cut-append :
    (p : ℕ → Bool) (sep : Text → Option Text) (a : Text) (d : ℕ) (r rest : Text)
    → Avoids p sep
    → Chars p a
    → sep (d ∷ r) ≡ some rest
    → cut sep (a ++ d ∷ r) ≡ (a, some rest)
unfolding cut
cut-append p sep [] d r rest avoid h e = rw (e, cut)
cut-append p sep (c ∷ a) d r rest avoid (h, hs) e =
    rw (avoid c (a ++ d ∷ r) h, cut) (rw (cut-append p sep a d r rest avoid hs e))

pub cut_all :
    (p : ℕ → Bool) (sep : Text → Option Text) (a : Text)
    → Avoids p sep
    → Chars p a
    → cut sep a ≡ (a, none)
unfolding cut
cut_all p sep [] avoid h = refl
cut_all p sep (c ∷ a) avoid (h, hs) = rw (avoid c a h, cut) (rw (cut_all p sep a avoid hs))

pub split_two-append :
    (p : ℕ → Bool) (sep : Text → Option Text) (a : Text) (d : ℕ) (r b : Text)
    → Avoids p sep
    → Chars p a
    → sep (d ∷ r) ≡ some b
    → Chars p b
    → split_two sep (a ++ d ∷ r) ≡ (a, some b)
unfolding split_two
split_two-append p sep a d r b avoid ha e hb =
    rw (cut-append p sep a d r b avoid ha e) (rw (cut_all p sep b avoid hb))

-- The characters of a key are no white space, and no separator begins with one.
pub key-solid : (c : ℕ) → is_key_char c ≡ true → is_space c ≡ false
unfolding is_key_char is_space
key-solid c h = ground arith

abbrev pub is_solid : ℕ → Bool
is_solid c = not (is_space c)

pub key-Avoids-bang : Avoids is_key_char bang_sep
unfolding bang_sep skip_char is_key_char
key-Avoids-bang c s h = let e : (c == b'!') ≡ false = ground arith in rw e

pub key-Avoids-equals : Avoids is_key_char equals_sep
unfolding equals_sep skip_char skip_run
key-Avoids-equals c s h =
    let solid = key-solid c h in
    let e : (c == b'=') ≡ false = unfold is_key_char in ground arith in rw solid (rw e)

pub key-Avoids-not_equals : Avoids is_key_char not_equals_sep
unfolding not_equals_sep skip_word skip_run
key-Avoids-not_equals c s h =
    let solid = key-solid c h in
    let e : (c == b'!') ≡ false = unfold is_key_char in ground arith in rw solid (rw e)

pub solid-Avoids-spaced : (w : Text) → Avoids is_solid (spaced_sep w)
unfolding spaced_sep skip_run1
solid-Avoids-spaced w c s h = let e : is_space c ≡ false = ground arith in rw e

pub Chars-solid : (s : Text) → Chars is_key_char s → Chars is_solid s
Chars-solid [] h = tt
Chars-solid (c ∷ s) (h, hs) = (ap not (key-solid c h), Chars-solid s hs)

-- A text that `trim` leaves alone: its first and last characters are no white space.
abbrev pub EndsSolid : Text → Type 0
EndsSolid [] = ⊥
EndsSolid (c ∷ []) = is_space c ≡ false
EndsSolid (c ∷ d ∷ s) = EndsSolid (d ∷ s)

pub EndsSolid-append : (a : Text) (c : ℕ) (s : Text) → EndsSolid (c ∷ s) → EndsSolid (a ++ c ∷ s)
EndsSolid-append [] c s h = h
EndsSolid-append (d ∷ []) c s h = h
EndsSolid-append (d ∷ e ∷ a) c s h = EndsSolid-append (e ∷ a) c s h

pub EndsSolid-of_IsRun : (s : Text) → IsRun is_key_char s → EndsSolid s
EndsSolid-of_IsRun [] h = h
EndsSolid-of_IsRun (c ∷ []) (h, _) = key-solid c h
EndsSolid-of_IsRun (c ∷ d ∷ s) (_, hs) = EndsSolid-of_IsRun (d ∷ s) hs

trim_end-EndsSolid : (s : Text) → EndsSolid s → trim_end s ≡ s
unfolding trim_end
trim_end-EndsSolid [] h = refl
trim_end-EndsSolid (c ∷ []) h = rw h
trim_end-EndsSolid (c ∷ d ∷ s) h = rw (trim_end-EndsSolid (d ∷ s) h, trim_end)

pub trim_id : (c : ℕ) (s : Text) → is_space c ≡ false → EndsSolid (c ∷ s) → trim (c ∷ s) ≡ c ∷ s
unfolding trim trim_start skip_run
trim_id c s h e = rw h (trim_end-EndsSolid (c ∷ s) e)
