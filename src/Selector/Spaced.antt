-- ===== src/Selector/Spaced.antt =====
-- Reading a bare key, a negated key, and the requirements whose operator is a word between spaces
-- (frontend/public/module/k8s/selector-requirement.js).
use web_ui.Base.{
  ℕ, ◌≡◌, refl, ◌∙◌, ap, false, none, some, List, [], ◌∷◌, ◌++◌, ◌==◌, if◌then◌else◌, All,
}
use web_ui.Base.Text.{Text, codes, is_space}
use web_ui.Selector.Scan.{is_key_char, is_decimal_char, skip_run, skip_run1, skip_char, skip_word}
use web_ui.Selector.Requirement.{
  Operator, exists, does_not_exist, in_set, not_in, greater_than, less_than, bang_sep, equals_sep,
  not_equals_sep, spaced_sep, is_exists, is_does_not_exist, is_set, is_comparison, set_requirement,
  comparison_requirement, read_requirement,
}
use web_ui.Selector.Reading.{
  IsRun, Chars, IsRun-Chars, skip_run1_all, split_two-append, is_solid, key-Avoids-bang,
  solid-Avoids-spaced, Chars-solid,
}
use web_ui.Selector.Evaluate.{
  not_exists, not_negated, test_equals, test_not_equals, test_set, test_comparison, space_stops,
  IsRun-decimal, key-Stops-space,
}
use web_ui.Selector.Sets.{listed, in_parentheses-listed, set_requirement-listed}

module _ (t : Text → Text) (k : Text) (key : IsRun is_key_char k) where
  pub read-exists : read_requirement t k ≡ some (record { key = k; operator = exists; values = [] })
  unfolding read_requirement is_exists
  read-exists = rw (skip_run1_all is_key_char k key)

  negated_rest : bang_sep (b'!' ∷ k) ≡ some k
  unfolding bang_sep skip_char
  negated_rest = rw (key-Stops-space k key)

  pub read-does_not_exist :
      read_requirement t (b'!' ∷ k)
      ≡ some (record { key = k; operator = does_not_exist; values = [] })
  unfolding read_requirement is_exists skip_run1 is_key_char is_does_not_exist
  read-does_not_exist = rw negated_rest (
      rw (unfold_key k key) (
        rw (
          split_two-append is_key_char bang_sep [] b'!' k k key-Avoids-bang tt negated_rest
            (IsRun-Chars _ k key))))
    where
      unfold_key : (s : Text) → IsRun is_key_char s → skip_run1 is_key_char s ≡ some []
      unfold_key s h = skip_run1_all is_key_char s h

  -- A key, a space and a word that begins with no `=` or `!` pass none of the first four tests.
  module _ (c : ℕ) (s : Text) (solid : is_space c ≡ false) (ne : (c == b'=') ≡ false)
      (nb : (c == b'!') ≡ false) where
    space_equals : equals_sep (0x20 ∷ c ∷ s) ≡ none
    unfolding equals_sep skip_run skip_char is_space
    space_equals = rw solid (rw ne)

    space_not_equals : not_equals_sep (0x20 ∷ c ∷ s) ≡ none
    unfolding not_equals_sep skip_run skip_word is_space
    space_not_equals = rw solid (rw nb)

module _ (v : Text) (vs : List Text) (values : All (IsRun is_key_char) (v ∷ vs)) where
  in_rest :
      spaced_sep (codes "in") (0x20 ∷ (codes "in " ++ listed v vs values))
      ≡ some (listed v vs values)
  unfolding spaced_sep skip_run1 skip_run skip_word is_space
  in_rest = refl

  in_not_notin : spaced_sep (codes "in") (0x20 ∷ (codes "notin " ++ listed v vs values)) ≡ none
  unfolding spaced_sep skip_run1 skip_run skip_word is_space
  in_not_notin = refl

  notin_rest :
      spaced_sep (codes "notin") (0x20 ∷ (codes "notin " ++ listed v vs values))
      ≡ some (listed v vs values)
  unfolding spaced_sep skip_run1 skip_run skip_word is_space
  notin_rest = refl

letters_solid :
    (is_space b'i' ≡ false)
    × (is_space b'n' ≡ false)
    × (is_space b'>' ≡ false)
    × (is_space b'<' ≡ false)
unfolding is_space
letters_solid = (refl, refl, refl, refl)

module _ (t : Text → Text) (trim_keeps : (s : Text) → Chars is_solid s → t s ≡ s) (k : Text)
    (key : IsRun is_key_char k) where
  -- The first four tests fail at a key, a space and such a word.
  past_four :
      (c : ℕ) (s : Text)
      → is_space c ≡ false
      → (c == b'=') ≡ false
      → (c == b'!') ≡ false
      → read_requirement t (k ++ 0x20 ∷ c ∷ s) ≡ (
          let x = k ++ 0x20 ∷ c ∷ s in
          if is_set (codes "in") x
          then some (set_requirement t in_set (codes "in") x)
          else if is_set (codes "notin") x
          then some (set_requirement t not_in (codes "notin") x)
          else if is_comparison (codes ">") x
          then some (comparison_requirement t greater_than (codes ">") x)
          else if is_comparison (codes "<") x
          then some (comparison_requirement t less_than (codes "<") x)
          else none)
  unfolding read_requirement
  past_four c s solid ne nb = rw (not_exists k key 0x20 (c ∷ s) space_stops) (
      rw (not_negated k key 0x20 (c ∷ s) space_stops) (
        rw (test_equals k key 0x20 (c ∷ s) space_stops) (
          rw (space_equals t k key c s solid ne nb) (
            rw (test_not_equals k key 0x20 (c ∷ s) space_stops)
              (rw (space_not_equals t k key c s solid ne nb))))))

  module _ (v : Text) (vs : List Text) (values : All (IsRun is_key_char) (v ∷ vs)) where
    pub read-in :
        read_requirement t (k ++ 0x20 ∷ (codes "in " ++ listed v vs values))
        ≡ some (record { key = k; operator = in_set; values = v ∷ vs })
    read-in =
        past_four b'i' (codes "n " ++ listed v vs values) letters_solid.0 refl refl
        ∙ rw (test_set k key 0x20 (codes "in " ++ listed v vs values) space_stops (codes "in")) (
            rw (in_rest v vs values) (
              rw (in_parentheses-listed v vs values) (
                ap some (
                  set_requirement-listed v vs values t trim_keeps in_set (codes "in") k
                    (codes "in " ++ listed v vs values) key (in_rest v vs values)))))

    pub read-notin :
        read_requirement t (k ++ 0x20 ∷ (codes "notin " ++ listed v vs values))
        ≡ some (record { key = k; operator = not_in; values = v ∷ vs })
    read-notin =
        past_four b'n' (codes "otin " ++ listed v vs values) letters_solid.1 refl refl
        ∙ rw (test_set k key 0x20 (codes "notin " ++ listed v vs values) space_stops (codes "in")) (
            rw (in_not_notin v vs values) (
              rw
                (test_set k key 0x20 (codes "notin " ++ listed v vs values) space_stops
                  (codes "notin"))
                (rw (notin_rest v vs values) (
                  rw (in_parentheses-listed v vs values) (
                    ap some (
                      set_requirement-listed v vs values t trim_keeps not_in (codes "notin") k
                        (codes "notin " ++ listed v vs values) key (notin_rest v vs values)))))))

  module _ (v : Text) (value : IsRun is_decimal_char v) where
    after_space : skip_run is_space v ≡ v
    after_space = key-Stops-space v (IsRun-decimal v value)

    greater_rest : spaced_sep (codes ">") (0x20 ∷ (codes "> " ++ v)) ≡ some v
    unfolding spaced_sep skip_run1 skip_run skip_word is_space
    greater_rest = ap some after_space

    less_rest : spaced_sep (codes "<") (0x20 ∷ (codes "< " ++ v)) ≡ some v
    unfolding spaced_sep skip_run1 skip_run skip_word is_space
    less_rest = ap some after_space

    comparison_requirement-append :
        (op : Operator) (w r : Text)
        → spaced_sep w (0x20 ∷ r) ≡ some v
        → comparison_requirement t op w (k ++ 0x20 ∷ r)
          ≡ record { key = k; operator = op; values = v ∷ [] }
    unfolding comparison_requirement
    comparison_requirement-append op w r e = rw (
        split_two-append is_solid (spaced_sep w) k 0x20 r v (solid-Avoids-spaced w)
          (Chars-solid k (IsRun-Chars is_key_char k key)) e
          (Chars-solid v (IsRun-Chars is_key_char v (IsRun-decimal v value))))

    no_set :
        (w : Text) (c : ℕ) (d : ℕ) (w' : Text)
        → w ≡ d ∷ w'
        → is_space c ≡ false
        → (c == d) ≡ false
        → is_set w (k ++ 0x20 ∷ c ∷ 0x20 ∷ v) ≡ false
    unfolding spaced_sep skip_run1 skip_run skip_word is_space
    no_set w c d w' e solid ne =
        rw (test_set k key 0x20 (c ∷ 0x20 ∷ v) space_stops w) (rw e (rw solid (rw ne)))

    less_not_greater : spaced_sep (codes ">") (0x20 ∷ (codes "< " ++ v)) ≡ none
    unfolding spaced_sep skip_run1 skip_run skip_word is_space
    less_not_greater = refl

    pub read-greater :
        read_requirement t (k ++ 0x20 ∷ (codes "> " ++ v))
        ≡ some (record { key = k; operator = greater_than; values = v ∷ [] })
    read-greater =
        past_four b'>' (0x20 ∷ v) letters_solid.2 refl refl
        ∙ rw (no_set (codes "in") b'>' b'i' (codes "n") refl letters_solid.2 refl) (
            rw (no_set (codes "notin") b'>' b'n' (codes "otin") refl letters_solid.2 refl) (
              rw (test_comparison k key 0x20 (codes "> " ++ v) space_stops (codes ">")) (
                rw greater_rest (
                  rw (skip_run1_all is_decimal_char v value) (
                    ap some (
                      comparison_requirement-append greater_than (codes ">") (codes "> " ++ v)
                        greater_rest))))))

    pub read-less :
        read_requirement t (k ++ 0x20 ∷ (codes "< " ++ v))
        ≡ some (record { key = k; operator = less_than; values = v ∷ [] })
    read-less =
        past_four b'<' (0x20 ∷ v) letters_solid.3 refl refl
        ∙ rw (no_set (codes "in") b'<' b'i' (codes "n") refl letters_solid.3 refl) (
            rw (no_set (codes "notin") b'<' b'n' (codes "otin") refl letters_solid.3 refl) (
              rw (test_comparison k key 0x20 (codes "< " ++ v) space_stops (codes ">")) (
                rw less_not_greater (
                  rw (test_comparison k key 0x20 (codes "< " ++ v) space_stops (codes "<")) (
                    rw less_rest (
                      rw (skip_run1_all is_decimal_char v value) (
                        ap some (
                          comparison_requirement-append less_than (codes "<") (codes "< " ++ v)
                            less_rest))))))))
