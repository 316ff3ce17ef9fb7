-- ===== src/Selector/Whole.antt =====
-- A printed selector is read back as it was (frontend/public/module/k8s/selector.js).
use web_ui.Base.{
  ℕ, ◌≡◌, refl, ◌∙◌, ap, sym, subst, Bool, true, false, ◌&&◌, not, some, List, [], ◌∷◌, ◌++◌, map,
  ◌==◌, if◌then◌else◌, all, All, All-append, arith, append-nil, append_assoc, length,
}
use web_ui.Base.Text.{Text, codes, is_space, join, Without}
use web_ui.Selector.Scan.{is_key_char, skip_run}
use web_ui.Selector.Requirement.{
  Operator, equals, not_equals, exists, does_not_exist, in_set, not_in, greater_than, less_than,
  Requirement, create_equals, print_requirement, requirement_from_string, requirement_to_string,
  trim, trim_start, trim_end,
}
use web_ui.Selector.Reading.{skip_run_stop, IsRun, Chars, IsRun-Chars, key-solid, is_solid}
use web_ui.Selector.Evaluate.{IsRun-decimal}
use web_ui.Selector.RoundTrip.{Fits, IsWellFormed, requirement_from_string-to_string}
use web_ui.Selector.Selectors.{
  Labels, Selector, new_format, whole, from_requirements, is_equals_operator, keys, to_requirements,
  split_commas, split_selector, printed, selector_to_string, selector_from_string,
}
use web_ui.Selector.Split.{NoParens, IsPiece, plain, listing, split_commas-join}
use web_ui.Selector.Labels.{
  Ascending, Distinct, entry_requirement, label_requirements_lem, all_some, add_requirements_lem,
}

key-quiet :
    (c : ℕ)
    → is_key_char c ≡ true
    → ((c == b',') ≡ false) × ((c == b'(') ≡ false) × ((c == b')') ≡ false)
unfolding is_key_char
key-quiet c h = ground arith

key_no_comma : (s : Text) → Chars is_key_char s → Without b',' s
key_no_comma [] h = tt
key_no_comma (c ∷ s) (h, hs) = ((key-quiet c h).0, key_no_comma s hs)

key-NoParens : (s : Text) → Chars is_key_char s → NoParens s
key-NoParens [] h = tt
key-NoParens (c ∷ s) (h, hs) = let (_, o, e) = key-quiet c h in ((o, e), key-NoParens s hs)

-- A key, a mark with no comma or parenthesis, and a value.
marked :
    (k mark v : Text)
    → Chars is_key_char k
    → Without b',' mark × NoParens mark
    → Chars is_key_char v
    → IsPiece (k ++ (mark ++ v))
marked k mark v hk (c, p) hv =
    plain
      (All-append _ k (mark ++ v) (key_no_comma k hk) (All-append _ mark v c (key_no_comma v hv)))
      (All-append _ k (mark ++ v) (key-NoParens k hk) (All-append _ mark v p (key-NoParens v hv)))

listed_parens : (vs : List Text) → All (IsRun is_key_char) vs → NoParens (join (codes ",") vs)
unfolding join
listed_parens [] h = tt
listed_parens (v ∷ []) (h, _) = key-NoParens v (IsRun-Chars is_key_char v h)
listed_parens (v ∷ u ∷ vs) (h, hs) =
    All-append _ v _ (key-NoParens v (IsRun-Chars is_key_char v h))
      ((refl, refl), listed_parens (u ∷ vs) hs)

-- A key, a word with no comma or parenthesis, and values in parentheses.
worded :
    (k word : Text) (vs : List Text)
    → Chars is_key_char k
    → Without b',' word × NoParens word
    → All (IsRun is_key_char) vs
    → IsPiece (k ++ (word ++ b'(' ∷ (join (codes ",") vs ++ b')' ∷ [])))
worded k word vs hk (c, p) h =
    listing (k ++ word) (join (codes ",") vs) (sym (append_assoc k word _))
      (All-append _ k word (key_no_comma k hk) c) (All-append _ k word (key-NoParens k hk) p)
      (listed_parens vs h)

abbrev is_quiet : ℕ → Bool
is_quiet c = not (c == b',') && (not (c == b'(') && not (c == b')'))

quiet : (s : Text) → all is_quiet s ≡ true → Without b',' s × NoParens s
quiet [] h = (tt, tt)
quiet (c ∷ s) h =
    let rest : all is_quiet s ≡ true = ground arith in
    let (no_comma, no_parens) = quiet s rest in
    ((ground arith, no_comma), ((ground arith, ground arith), no_parens))

printed-IsPiece :
    (k : Text) (op : Operator) (vs : List Text)
    → IsRun is_key_char k
    → Fits op vs
    → IsPiece (printed (print_requirement op k vs))
printed-IsPiece k equals (v ∷ []) key h =
    marked k (codes "=") v (IsRun-Chars _ k key) (quiet (codes "=") refl) (IsRun-Chars _ v h)
printed-IsPiece k not_equals (v ∷ []) key h =
    marked k (codes "!=") v (IsRun-Chars _ k key) (quiet (codes "!=") refl) (IsRun-Chars _ v h)
printed-IsPiece k exists [] key h =
    plain (key_no_comma k (IsRun-Chars _ k key)) (key-NoParens k (IsRun-Chars _ k key))
printed-IsPiece k does_not_exist [] key h =
    marked [] (codes "!") k tt (quiet (codes "!") refl) (IsRun-Chars _ k key)
printed-IsPiece k in_set (v ∷ vs) key h =
    worded k (codes " in ") (v ∷ vs) (IsRun-Chars _ k key) (quiet (codes " in ") refl) h
printed-IsPiece k not_in (v ∷ vs) key h =
    worded k (codes " notin ") (v ∷ vs) (IsRun-Chars _ k key) (quiet (codes " notin ") refl) h
printed-IsPiece k greater_than (v ∷ []) key h =
    marked k (codes " > ") v (IsRun-Chars _ k key) (quiet (codes " > ") refl)
      (IsRun-Chars _ v (IsRun-decimal v h))
printed-IsPiece k less_than (v ∷ []) key h =
    marked k (codes " < ") v (IsRun-Chars _ k key) (quiet (codes " < ") refl)
      (IsRun-Chars _ v (IsRun-decimal v h))
printed-IsPiece k _ _ key h = absurd h

abbrev StartsSolid : Text → Type 0
StartsSolid [] = ⊥
StartsSolid (c ∷ s) = is_space c ≡ false

key-StartsSolid : (k s : Text) → IsRun is_key_char k → StartsSolid (k ++ s)
key-StartsSolid [] s h = absurd h
key-StartsSolid (c ∷ k) s (h, _) = key-solid c h

printed-StartsSolid :
    (k : Text) (op : Operator) (vs : List Text)
    → IsRun is_key_char k
    → Fits op vs
    → StartsSolid (printed (print_requirement op k vs))
unfolding is_space
printed-StartsSolid k equals (v ∷ []) key h = key-StartsSolid k _ key
printed-StartsSolid k not_equals (v ∷ []) key h = key-StartsSolid k _ key
printed-StartsSolid k exists [] key h = subst StartsSolid (append-nil k) (key-StartsSolid k [] key)
printed-StartsSolid k does_not_exist [] key h = refl
printed-StartsSolid k in_set (v ∷ vs) key h = key-StartsSolid k _ key
printed-StartsSolid k not_in (v ∷ vs) key h = key-StartsSolid k _ key
printed-StartsSolid k greater_than (v ∷ []) key h = key-StartsSolid k _ key
printed-StartsSolid k less_than (v ∷ []) key h = key-StartsSolid k _ key
printed-StartsSolid k _ _ key h = absurd h

trim_end-filled : (c : ℕ) (s : Text) → is_space c ≡ false → (length (trim_end (c ∷ s)) == 0) ≡ false
unfolding trim_end
trim_end-filled c s h = ground arith

trim-StartsSolid : (s : Text) → StartsSolid s → (length (trim s) == 0) ≡ false
unfolding trim trim_start
trim-StartsSolid [] h = absurd h
trim-StartsSolid (c ∷ s) h = rw (skip_run_stop is_space (c ∷ s) h) (trim_end-filled c s h)

abbrev print : Requirement → Text
print r = printed (requirement_to_string r)

All-IsPiece : (rs : List Requirement) → All IsWellFormed rs → All IsPiece (map print rs)
unfolding requirement_to_string
All-IsPiece [] h = tt
All-IsPiece (r ∷ rs) (w, h) =
    (printed-IsPiece r.key r.operator r.values w.key_run w.fits, All-IsPiece rs h)

join-StartsSolid :
    (p : Text) (ps : List Text) → StartsSolid p → StartsSolid (join (codes ",") (p ∷ ps))
unfolding join
join-StartsSolid p [] h = h
join-StartsSolid [] (q ∷ ps) h = absurd h
join-StartsSolid (c ∷ p) (q ∷ ps) h = h

split_selector-join :
    (rs : List Requirement)
    → All IsWellFormed rs
    → split_selector (join (codes ",") (map print rs)) ≡ map print rs
unfolding split_selector
split_selector-join [] h = empty_split
  where
    empty_split :
        (if length (trim (join (codes ",") [])) == 0
          then []
          else split_commas [] (join (codes ",") []))
        ≡ []
    empty_split = unfold trim trim_start trim_end skip_run join in refl
split_selector-join (r ∷ rs) (w, h) =
    rw
      (trim-StartsSolid (join (codes ",") (map print (r ∷ rs))) (
        join-StartsSolid (print r) (map print rs) (
          unfold requirement_to_string in
          printed-StartsSolid r.key r.operator r.values w.key_run w.fits)))
      (split_commas-join (print r) (map print rs) (All-IsPiece (r ∷ rs) (w, h)))

module _ (t : Text → Text) (keeps : (s : Text) → Chars is_solid s → t s ≡ s) where
  read_print : (r : Requirement) → IsWellFormed r → requirement_from_string t (print r) ≡ some r
  read_print r w =
      let (s, prints, reads) = requirement_from_string-to_string t r keeps w in
      ap (λ x. requirement_from_string t (printed x)) prints ∙ reads

  read-All :
      (rs : List Requirement)
      → All IsWellFormed rs
      → map (requirement_from_string t) (map print rs) ≡ all_some rs
  read-All [] h = refl
  read-All (r ∷ rs) (w, h) = cc (read_print r w, read-All rs h)

-- A selector in its canonical form: labels in the order of their keys, which differ, with keys and
-- values that the requirement `key=value` can carry, and well-formed expressions of other operators.
pub record IsCanonical (s : Selector) : Type 0 where
  pub ascending : Ascending (keys s.match_labels)
  pub distinct : Distinct (keys s.match_labels)
  pub labels : All (λ e. IsRun is_key_char e.0 × IsRun is_key_char e.1) s.match_labels
  pub expressions : All IsWellFormed s.match_expressions
  pub no_equals : All (λ r. is_equals_operator r.operator ≡ false) s.match_expressions

labels-IsWellFormed :
    (ls : Labels)
    → All (λ e. IsRun is_key_char e.0 × IsRun is_key_char e.1) ls
    → All IsWellFormed (map entry_requirement ls)
unfolding create_equals
labels-IsWellFormed [] h = tt
labels-IsWellFormed (e ∷ ls) ((k, v), h) =
    (record { key_run = k; fits = v }, labels-IsWellFormed ls h)

-- A canonical selector is printed to a text that is read back as the same selector, if `_.trim`
-- changes no text without white space.
pub selector_from_string-to_string :
    (lodash_trim : Text → Text) (s : Selector)
    → ((x : Text) → Chars is_solid x → lodash_trim x ≡ x)
    → IsCanonical s
    → selector_from_string lodash_trim
        (selector_to_string (new_format (some s.match_labels) (some s.match_expressions)))
      ≡ some (whole s)
unfolding selector_from_string selector_to_string to_requirements from_requirements
selector_from_string-to_string t s keeps c =
    let rs = map entry_requirement s.match_labels ++ s.match_expressions in
    let formed : All IsWellFormed rs =
      All-append _ (map entry_requirement s.match_labels) s.match_expressions
        (labels-IsWellFormed s.match_labels c.labels) c.expressions in
    rw (label_requirements_lem s.match_labels c.ascending c.distinct) (
      rw (split_selector-join rs formed) (
        rw (read-All t keeps rs formed)
          (rw (add_requirements_lem s.match_labels s.match_expressions c.distinct c.no_equals))))
