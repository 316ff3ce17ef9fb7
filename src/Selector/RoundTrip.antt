-- ===== src/Selector/RoundTrip.antt =====
-- Every well-formed requirement is read back from its printed form
-- (frontend/public/module/k8s/selector-requirement.js).
use web_ui.Base.{ℕ, ◌≡◌, refl, ◌∙◌, ap, false, some, List, [], ◌∷◌, ◌++◌, All}
use web_ui.Base.Text.{Text, codes, is_space, join}
use web_ui.Selector.Scan.{is_key_char, is_decimal_char}
use web_ui.Selector.Requirement.{
  Operator, equals, not_equals, exists, does_not_exist, in_set, not_in, greater_than, less_than,
  Requirement, create_equals, trim, read_requirement, requirement_from_string,
  requirement_to_string, print_requirement,
}
use web_ui.Selector.Reading.{
  IsRun, Chars, key-solid, is_solid, EndsSolid, EndsSolid-append, EndsSolid-of_IsRun, trim_id,
}
use web_ui.Selector.Evaluate.{read-equals, read-not_equals, IsRun-decimal}
use web_ui.Selector.Sets.{listed}
use web_ui.Selector.Spaced.{
  read-exists, read-does_not_exist, read-in, read-notin, read-greater, read-less,
}

-- The values that an operator takes.
abbrev pub Fits : Operator → List Text → Type 0
Fits equals (v ∷ []) = IsRun is_key_char v
Fits not_equals (v ∷ []) = IsRun is_key_char v
Fits exists [] = Unit
Fits does_not_exist [] = Unit
Fits in_set (v ∷ vs) = All (IsRun is_key_char) (v ∷ vs)
Fits not_in (v ∷ vs) = All (IsRun is_key_char) (v ∷ vs)
Fits greater_than (v ∷ []) = IsRun is_decimal_char v
Fits less_than (v ∷ []) = IsRun is_decimal_char v
Fits _ _ = ⊥

pub record IsWellFormed (r : Requirement) : Type 0 where
  pub key_run : IsRun is_key_char r.key
  pub fits : Fits r.operator r.values

-- A printed requirement has no white space at its ends.
trim-key :
    (k : Text) (d : ℕ) (s : Text)
    → IsRun is_key_char k
    → EndsSolid (d ∷ s)
    → trim (k ++ d ∷ s) ≡ k ++ d ∷ s
trim-key [] d s h e = absurd h
trim-key (c ∷ k) d s (h, hs) e =
    trim_id c (k ++ d ∷ s) (key-solid c h) (EndsSolid-append (c ∷ k) d s e)

trim-run : (k : Text) → IsRun is_key_char k → trim k ≡ k
trim-run [] h = absurd h
trim-run (c ∷ k) (h, hs) = trim_id c k (key-solid c h) (EndsSolid-of_IsRun (c ∷ k) (h, hs))

ends_append : (d : ℕ) (a v : Text) → IsRun is_key_char v → EndsSolid (d ∷ (a ++ v))
ends_append d a [] h = absurd h
ends_append d a (c ∷ v) h = EndsSolid-append (d ∷ a) c v (EndsSolid-of_IsRun (c ∷ v) h)

close_solid : is_space b')' ≡ false
unfolding is_space
close_solid = refl

bang_solid : is_space b'!' ≡ false
unfolding is_space
bang_solid = refl

module _ (t : Text → Text) (keeps : (s : Text) → Chars is_solid s → t s ≡ s) (k : Text)
    (key : IsRun is_key_char k) where
  -- The result for one operator and its values.
  abbrev Returns : Operator → List Text → Type 0
  Returns op vs =
      (s : Text) × (print_requirement op k vs ≡ some s)
      × (requirement_from_string t s ≡ some (record { key = k; operator = op; values = vs }))

  read_trimmed :
      (s : Text) (r : Requirement)
      → trim s ≡ s
      → read_requirement t s ≡ some r
      → requirement_from_string t s ≡ some r
  unfolding requirement_from_string
  read_trimmed s r e h = ap (read_requirement t) e ∙ h

  closes : (d : ℕ) (a : Text) → EndsSolid (d ∷ (a ++ b')' ∷ []))
  closes d a = EndsSolid-append (d ∷ a) b')' [] close_solid

  round_trip : (op : Operator) (vs : List Text) → Fits op vs → Returns op vs
  unfolding create_equals
  round_trip equals (v ∷ []) h = (
    k ++ b'=' ∷ v,
    refl,
    read_trimmed _ _ (trim-key k b'=' v key (ends_append b'=' [] v h)) (read-equals t k v key h),
  )
  round_trip not_equals (v ∷ []) h = (
    k ++ b'!' ∷ b'=' ∷ v,
    refl,
    read_trimmed _ _ (trim-key k b'!' (b'=' ∷ v) key (ends_append b'!' (codes "=") v h))
        (read-not_equals t k v key h),
  )
  round_trip exists [] h = (k, refl, read_trimmed k _ (trim-run k key) (read-exists t k key))
  round_trip does_not_exist [] h = (
    b'!' ∷ k,
    refl,
    read_trimmed _ _ (trim_id b'!' k bang_solid (ends_append b'!' [] k key))
        (read-does_not_exist t k key),
  )
  round_trip in_set (v ∷ vs) h = (
    k ++ 0x20 ∷ (codes "in " ++ listed v vs h),
    refl,
    read_trimmed _ _
        (trim-key k 0x20 _ key (closes 0x20 (codes "in (" ++ join (codes ",") (v ∷ vs))))
        (read-in t keeps k key v vs h),
  )
  round_trip not_in (v ∷ vs) h = (
    k ++ 0x20 ∷ (codes "notin " ++ listed v vs h),
    refl,
    read_trimmed _ _
        (trim-key k 0x20 _ key (closes 0x20 (codes "notin (" ++ join (codes ",") (v ∷ vs))))
        (read-notin t keeps k key v vs h),
  )
  round_trip greater_than (v ∷ []) h = (
    k ++ 0x20 ∷ (codes "> " ++ v),
    refl,
    read_trimmed _ _ (trim-key k 0x20 _ key (ends_append 0x20 (codes "> ") v (IsRun-decimal v h)))
        (read-greater t keeps k key v h),
  )
  round_trip less_than (v ∷ []) h = (
    k ++ 0x20 ∷ (codes "< " ++ v),
    refl,
    read_trimmed _ _ (trim-key k 0x20 _ key (ends_append 0x20 (codes "< ") v (IsRun-decimal v h)))
        (read-less t keeps k key v h),
  )
  round_trip _ _ h = absurd h

-- The printed form of a well-formed requirement is read as that requirement, whatever the operator:
-- the key and the values are not empty and of the characters that the expressions allow, as many
-- values as the operator takes, and `_.trim` changes no text without white space.
pub requirement_from_string-to_string :
    (lodash_trim : Text → Text) (r : Requirement)
    → ((s : Text) → Chars is_solid s → lodash_trim s ≡ s)
    → IsWellFormed r
    → (s : Text) × (requirement_to_string r ≡ some s)
      × (requirement_from_string lodash_trim s ≡ some r)
unfolding requirement_to_string
requirement_from_string-to_string t r keeps w =
    round_trip t keeps r.key w.key_run r.operator r.values w.fits
