-- ===== src/Selector/Evaluate.antt =====
-- What each test of `requirementFromString` says of a key and what follows it, and the requirements
-- with one value (frontend/public/module/k8s/selector-requirement.js).
use web_ui.Base.{ℕ, ◌≡◌, refl, true, false, none, some, [], ◌∷◌, ◌++◌, ◌==◌, arith}
use web_ui.Base.Text.{Text, is_space}
use web_ui.Selector.Scan.{
  is_key_char, is_decimal_char, skip_run, skip_run1, skip_char, skip_word, skip_optional, ◌>>=◌,
  at_end,
}
use web_ui.Selector.Requirement.{
  not_equals, create_equals, bang_sep, equals_sep, not_equals_sep, spaced_sep, is_exists,
  is_does_not_exist, is_equals, is_not_equals, is_set, is_comparison, in_parentheses,
  read_requirement,
}
use web_ui.Selector.Reading.{
  IsRun, Chars, IsRun-Chars, skip_run_stop, skip_run1-append, skip_run1_all, split_two-append,
  key-solid, key-Avoids-bang, key-Avoids-equals, key-Avoids-not_equals,
}

pub decimal-key : (c : ℕ) → is_decimal_char c ≡ true → is_key_char c ≡ true
unfolding is_decimal_char is_key_char
decimal-key c h = ground arith

pub IsRun-decimal : (v : Text) → IsRun is_decimal_char v → IsRun is_key_char v
IsRun-decimal [] h = h
IsRun-decimal (c ∷ v) (h, hs) = (decimal-key c h, chars v hs)
  where
    chars : (s : Text) → Chars is_decimal_char s → Chars is_key_char s
    chars [] e = tt
    chars (d ∷ s) (e, es) = (decimal-key d e, chars s es)

-- What the first tests say of a key and what follows it.
module _ (k : Text) (key : IsRun is_key_char k) (d : ℕ) (r : Text)
    (ends : is_key_char d ≡ false) where
  pub not_exists : is_exists (k ++ d ∷ r) ≡ false
  unfolding is_exists
  not_exists = rw (skip_run1-append is_key_char k (d ∷ r) key ends)

  pub not_negated : is_does_not_exist (k ++ d ∷ r) ≡ false
  unfolding is_does_not_exist
  not_negated = bang_fails k key
    where
      bang_fails :
          (k' : Text)
          → IsRun is_key_char k'
          → at_end (bang_sep (k' ++ d ∷ r) >>= λ s. skip_run1 is_key_char s) ≡ false
      bang_fails [] h = absurd h
      bang_fails (c ∷ k') (h, hs) = rw (key-Avoids-bang c (k' ++ d ∷ r) h)

  pub test_equals :
      is_equals (k ++ d ∷ r) ≡ at_end (equals_sep (d ∷ r) >>= λ s. skip_run1 is_key_char s)
  unfolding is_equals
  test_equals = rw (skip_run1-append is_key_char k (d ∷ r) key ends)

  pub test_not_equals :
      is_not_equals (k ++ d ∷ r) ≡ at_end (not_equals_sep (d ∷ r) >>= λ s. skip_run1 is_key_char s)
  unfolding is_not_equals
  test_not_equals = rw (skip_run1-append is_key_char k (d ∷ r) key ends)

  pub test_set :
      (w : Text) → is_set w (k ++ d ∷ r) ≡ at_end (spaced_sep w (d ∷ r) >>= in_parentheses)
  unfolding is_set
  test_set w = rw (skip_run1-append is_key_char k (d ∷ r) key ends)

  pub test_comparison :
      (w : Text)
      → is_comparison w (k ++ d ∷ r)
        ≡ at_end (spaced_sep w (d ∷ r) >>= λ s. skip_run1 is_decimal_char s)
  unfolding is_comparison
  test_comparison w = rw (skip_run1-append is_key_char k (d ∷ r) key ends)

key-Stops-optional : (v : Text) → IsRun is_key_char v → skip_run is_space (skip_optional b'=' v) ≡ v
unfolding skip_optional
key-Stops-optional [] h = absurd h
key-Stops-optional (c ∷ v) (h, hs) =
    let e : (c == b'=') ≡ false = unfold is_key_char in ground arith in
    rw e (skip_run_stop is_space (c ∷ v) (key-solid c h))

pub key-Stops-space : (v : Text) → IsRun is_key_char v → skip_run is_space v ≡ v
key-Stops-space [] h = absurd h
key-Stops-space (c ∷ v) (h, hs) = skip_run_stop is_space (c ∷ v) (key-solid c h)

equals_stops : is_key_char b'=' ≡ false
unfolding is_key_char
equals_stops = refl

bang_stops : is_key_char b'!' ≡ false
unfolding is_key_char
bang_stops = refl

pub space_stops : is_key_char 0x20 ≡ false
unfolding is_key_char
space_stops = refl

module _ (t : Text → Text) (k v : Text) (key : IsRun is_key_char k)
    (value : IsRun is_key_char v) where
  equals_rest : equals_sep (b'=' ∷ v) ≡ some v
  unfolding equals_sep skip_run skip_char is_space
  equals_rest = rw (key-Stops-optional v value)

  not_equals_rest : not_equals_sep (b'!' ∷ b'=' ∷ v) ≡ some v
  unfolding not_equals_sep skip_run skip_word is_space
  not_equals_rest = rw (key-Stops-space v value)

  bang_equals : equals_sep (b'!' ∷ b'=' ∷ v) ≡ none
  unfolding equals_sep skip_run skip_char is_space
  bang_equals = refl

  pub read-equals : read_requirement t (k ++ b'=' ∷ v) ≡ some (create_equals k v)
  unfolding read_requirement
  read-equals = rw (not_exists k key b'=' v equals_stops) (
      rw (not_negated k key b'=' v equals_stops) (
        rw (test_equals k key b'=' v equals_stops) (
          rw equals_rest (
            rw (skip_run1_all is_key_char v value) (
              rw (
                split_two-append is_key_char equals_sep k b'=' v v key-Avoids-equals
                  (IsRun-Chars _ k key) equals_rest (IsRun-Chars _ v value)))))))

  pub read-not_equals :
      read_requirement t (k ++ b'!' ∷ b'=' ∷ v)
      ≡ some (record { key = k; operator = not_equals; values = v ∷ [] })
  unfolding read_requirement
  read-not_equals = rw (not_exists k key b'!' (b'=' ∷ v) bang_stops) (
      rw (not_negated k key b'!' (b'=' ∷ v) bang_stops) (
        rw (test_equals k key b'!' (b'=' ∷ v) bang_stops) (
          rw bang_equals (
            rw (test_not_equals k key b'!' (b'=' ∷ v) bang_stops) (
              rw not_equals_rest (
                rw (skip_run1_all is_key_char v value) (
                  rw (
                    split_two-append is_key_char not_equals_sep k b'!' (b'=' ∷ v) v
                      key-Avoids-not_equals (IsRun-Chars _ k key) not_equals_rest
                      (IsRun-Chars _ v value)))))))))
