-- ===== src/Selector/Sets.antt =====
-- The values in parentheses of the `in` and `notin` requirements
-- (frontend/public/module/k8s/selector-requirement.js).
use web_ui.Base.{
  ℕ, ◌≡◌, ◌≢◌, refl, ap, Bool, true, false, not, some, List, [], ◌∷◌, ◌++◌, map, ◌==◌, All, arith,
  All-append,
}
use web_ui.Base.Text.{Text, codes, is_space, join, Without, split-join}
use web_ui.Command.Quoted.{drop_last-snoc}
use web_ui.Selector.Scan.{is_key_char, is_list_char, skip_char}
use web_ui.Selector.Requirement.{Operator, spaced_sep, in_parentheses, slice_inner, set_requirement}
use web_ui.Selector.Reading.{
  IsRun, Chars, IsRun-Chars, skip_run1-append, split_two-append, key-solid, is_solid,
  solid-Avoids-spaced, Chars-solid,
}

key-list : (c : ℕ) → is_key_char c ≡ true → is_list_char c ≡ true
unfolding is_list_char
key-list c h = rw h

key-no_comma : (c : ℕ) → is_key_char c ≡ true → (c == b',') ≡ false
unfolding is_key_char
key-no_comma c h = ground arith

pub Chars-imply :
    (p q : ℕ → Bool) → ((c : ℕ) → p c ≡ true → q c ≡ true) → (s : Text) → Chars p s → Chars q s
Chars-imply p q f [] h = tt
Chars-imply p q f (c ∷ s) (h, hs) = (f c h, Chars-imply p q f s hs)

unjoined : (s : Text) → Chars is_key_char s → Without b',' s
unjoined [] h = tt
unjoined (c ∷ s) (h, hs) = (key-no_comma c h, unjoined s hs)

All-unjoined : (vs : List Text) → All (IsRun is_key_char) vs → All (Without b',') vs
All-unjoined [] h = tt
All-unjoined (v ∷ vs) (h, hs) = (unjoined v (IsRun-Chars is_key_char v h), All-unjoined vs hs)

comma_list : is_list_char b',' ≡ true
unfolding is_list_char
comma_list = refl

comma_solid : is_solid b',' ≡ true
unfolding is_space
comma_solid = refl

-- The characters between the parentheses, for a class that holds those of a key and the comma.
join-Chars :
    (p : ℕ → Bool)
    → ((c : ℕ) → is_key_char c ≡ true → p c ≡ true)
    → p b',' ≡ true
    → (vs : List Text) → All (IsRun is_key_char) vs
    → Chars p (join (codes ",") vs)
unfolding join
join-Chars p f comma [] h = tt
join-Chars p f comma (v ∷ []) (h, _) = Chars-imply is_key_char p f v (IsRun-Chars is_key_char v h)
join-Chars p f comma (v ∷ u ∷ vs) (h, hs) =
    All-append _ v _ (Chars-imply is_key_char p f v (IsRun-Chars is_key_char v h))
      (comma, join-Chars p f comma (u ∷ vs) hs)

join-IsRun :
    (v : Text) (vs : List Text)
    → All (IsRun is_key_char) (v ∷ vs)
    → IsRun is_list_char (join (codes ",") (v ∷ vs))
join-IsRun v vs h =
    run (join (codes ",") (v ∷ vs)) (filled v vs h.0)
      (join-Chars is_list_char key-list comma_list (v ∷ vs) h)
  where
    run : (s : Text) → s ≢ [] → Chars is_list_char s → IsRun is_list_char s
    run [] ne hs = ne refl
    run (c ∷ s) ne hs = hs

    filled : (u : Text) (us : List Text) → IsRun is_key_char u → join (codes ",") (u ∷ us) ≢ []
    filled [] us e = absurd e
    filled (c ∷ u) [] e = unfold join in cc
    filled (c ∷ u) (x ∷ us) e = unfold join in cc

close_stops : is_list_char b')' ≡ false
unfolding is_list_char
close_stops = refl

module _ (v : Text) (vs : List Text) (values : All (IsRun is_key_char) (v ∷ vs)) where
  -- `(v1,v2,…)`
  abbrev pub listed : Text
  listed = b'(' ∷ (join (codes ",") (v ∷ vs) ++ b')' ∷ [])

  pub in_parentheses-listed : in_parentheses listed ≡ some []
  unfolding in_parentheses skip_char
  in_parentheses-listed = rw (
      skip_run1-append is_list_char (join (codes ",") (v ∷ vs)) (b')' ∷ []) (join-IsRun v vs values)
        close_stops)

  listed-solid : Chars is_solid listed
  unfolding is_space
  listed-solid = (
    refl,
    All-append _ (join (codes ",") (v ∷ vs)) (b')' ∷ [])
        (join-Chars is_solid (λ c h. ap not (key-solid c h)) comma_solid (v ∷ vs) values)
        (refl, tt),
  )

  module _ (t : Text → Text) (trim_keeps : (s : Text) → Chars is_solid s → t s ≡ s) where
    map-trim : (us : List Text) → All (IsRun is_key_char) us → map t us ≡ us
    map-trim [] h = refl
    map-trim (u ∷ us) (h, hs) =
        cc (trim_keeps u (Chars-solid u (IsRun-Chars is_key_char u h)), map-trim us hs)

    pub set_requirement-listed :
        (op : Operator) (w k : Text) (r : Text)
        → IsRun is_key_char k
        → spaced_sep w (0x20 ∷ r) ≡ some listed
        → set_requirement t op w (k ++ 0x20 ∷ r)
          ≡ record { key = k; operator = op; values = v ∷ vs }
    unfolding set_requirement slice_inner
    set_requirement-listed op w k r key e =
        rw
          (split_two-append is_solid (spaced_sep w) k 0x20 r listed (solid-Avoids-spaced w)
            (Chars-solid k (IsRun-Chars is_key_char k key)) e listed-solid)
          (rw (drop_last-snoc (join (codes ",") (v ∷ vs)) b')') (
            rw (split-join b',' v vs (All-unjoined (v ∷ vs) values))
              (rw (map-trim (v ∷ vs) values))))
