-- ===== src/Ui/Pieces.antt =====
-- The pieces that a namespace is written as (frontend/public/ui/ui-actions.js and
-- frontend/public/components/utils/link.jsx).
use web_ui.Base.{
  ℕ, ◌≡◌, refl, sym, ap, subst, ◌&&◌, ◌∙◌, ◌⊎◌, inl, inr, Bool, true, false, Option, some, List, [],
  ◌∷◌, ◌++◌, ◌==◌, head, null, filter, not, if◌then◌else◌, Bool-cases, All, append-nil, drop, arith,
}
use web_ui.Base.Text.{
  Text, codes, split, split_from, split_from-append, split_from_of_Without, Without, same_text,
  same_text_eq, join,
}
use web_ui.Ui.Link.{
  slash, all_namespaces_key, is_legal_char, legal_rest, match_legal_name, namespaced_prefixes,
  non_empty, found, or_null, is_piece, match_piece, namespace_of_pieces,
}
use web_ui.Ui.Actions.{is_all, namespace_prefix, path_tail}

-- The pattern of names matches the whole text.
abbrev pub IsLegal : Text → Type 0
IsLegal ns = match_legal_name ns ≡ some ns

legal_char-slash : (c : ℕ) → is_legal_char c ≡ true → (c == slash) ≡ false
unfolding is_legal_char
legal_char-slash c h = ground arith

legal_rest-Without : (s : Text) → Without slash (legal_rest s)
unfolding legal_rest is_legal_char
legal_rest-Without [] = tt
legal_rest-Without (c ∷ s) = elim (Bool-cases (is_legal_char c)) [
  | inl e ↦ rw e (legal_char-slash c e, legal_rest-Without s)
  | inr e ↦ elim (Bool-cases (c == b'-' && not (null (legal_rest s)))) [
    | inl d ↦ rw e (rw d (dash-slash c d, legal_rest-Without s))
    | inr d ↦ rw e (rw d tt)
  ]
]
  where
    dash-slash : (c : ℕ) → ((c == b'-') && not (null (legal_rest s))) ≡ true → (c == slash) ≡ false
    dash-slash c h = ground arith

some_injective : {a b : Text} → some a ≡ some b → a ≡ b
some_injective h = cc

pub head-filter {ℓ} :
    (P : Text → Type ℓ) (q : Text → Bool) (xs : List Text) (x : Text)
    → All P xs
    → head (filter q xs) ≡ some x
    → P x
head-filter P q [] x h e = cc
head-filter P q (y ∷ xs) x (py, h) e = elim (Bool-cases (q y)) [
  | inl b ↦ subst P (some_injective (sym (ap (λ b. head (kept b)) b) ∙ e)) py
  | inr b ↦ head-filter P q xs x h (sym (ap (λ b. head (kept b)) b) ∙ e)
]
  where
    kept : Bool → List Text
    kept b = let rest = filter q xs in if b then y ∷ rest else rest

-- A piece and what is behind it.
pieces-path_tail :
    (a : Text) (ps : List Text)
    → Without slash a
    → (r : List Text) × (split slash (a ++ path_tail ps) ≡ a ∷ r)
unfolding split path_tail
pieces-path_tail a [] h = ([], rw append-nil (split_from_of_Without slash [] a h))
pieces-path_tail a (p ∷ ps) h = (
  split slash (join (slash ∷ []) (p ∷ ps)),
  split_from-append slash [] a (join (slash ∷ []) (p ∷ ps))
      ∙ ap (λ ts. ts ++ split slash (join (slash ∷ []) (p ∷ ps)))
          (split_from_of_Without slash [] a h),
)

IsLegal-Without : (ns t : Text) → match_legal_name ns ≡ some t → Without slash t
unfolding match_legal_name
IsLegal-Without [] t h = cc
IsLegal-Without (c ∷ s) t h = elim (Bool-cases (is_legal_char c)) [
  | inl e ↦
      subst (Without slash) (some_injective (sym (ap chosen e) ∙ h))
        (legal_char-slash c e, legal_rest-Without s)
  | inr e ↦ IsLegal-Without s t (sym (ap chosen e) ∙ h)
]
  where
    chosen : Bool → Option Text
    chosen b = let later = match_legal_name s in if b then some (c ∷ legal_rest s) else later

-- What each of the prefixes is when it is cut off a path.
abbrev pub IsPrefix : Text → Type 0
IsPrefix prefix =
    (t : Text)
    → non_empty (split slash (prefix ++ slash ∷ t)) ≡ drop 1 prefix ∷ non_empty (split slash t)

pub All-IsPrefix : All IsPrefix namespaced_prefixes
unfolding split split_from
All-IsPrefix = (λ t. refl, (λ t. refl, (λ t. refl, (λ t. refl, tt))))

namespace_prefix-legal : (ns : Text) → IsLegal ns → namespace_prefix ns ≡ codes "ns/" ++ ns
unfolding namespace_prefix match_legal_name legal_rest is_legal_char
namespace_prefix-legal ns h = elim (Bool-cases (is_all ns)) [
  | inl e ↦ absurd (subst IsLegal (same_text_eq ns all_namespaces_key e) h)
  | inr e ↦ rw e refl
]
  where
    absurd :
        IsLegal all_namespaces_key
        → (if is_all ns then codes "all-namespaces" else codes "ns/" ++ ns) ≡ codes "ns/" ++ ns
    absurd h = cc

found_named :
    (p ns : Text) (r : List Text)
    → IsLegal ns
    → namespace_of_pieces (p ∷ codes "ns" ∷ non_empty (ns ∷ r)) ≡ found ns
unfolding match_legal_name namespace_of_pieces is_piece match_piece or_null same_text
found_named p [] r h = cc
found_named p (c ∷ s) r h = ap or_null h

-- What `get_namespace` says of the pieces that a namespace is written as.
pub pieces-of_namespace :
    (ns : Text) (ps : List Text)
    → IsLegal ns ⊎ (ns ≡ all_namespaces_key)
    → (p : Text)
    → namespace_of_pieces (p ∷ non_empty (split slash (namespace_prefix ns ++ path_tail ps)))
      ≡ found ns
unfolding namespace_prefix namespace_of_pieces is_piece match_piece or_null same_text split
    split_from
pieces-of_namespace ns ps (inr e) p =
    let (r, cut) = pieces-path_tail (codes "all-namespaces") ps (
      refl,
      (
        refl,
        (
          refl,
          (
            refl,
            (refl, (refl, (refl, (refl, (refl, (refl, (refl, (refl, (refl, (refl, tt)))))))))),
          ),
        ),
      ),
    ) in
    rw e (rw cut refl)
pieces-of_namespace ns ps (inl h) p =
    let (r, cut) = pieces-path_tail ns ps (IsLegal-Without ns ns h) in
    ap (λ np. namespace_of_pieces (p ∷ non_empty (split slash (np ++ path_tail ps))))
      (namespace_prefix-legal ns h)
    ∙ ap (λ ts. namespace_of_pieces (p ∷ non_empty (codes "ns" ∷ ts))) cut
    ∙ found_named p ns r h
