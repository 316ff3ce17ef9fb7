-- ===== src/Ui/Routes.antt =====
-- Namespaces in routes: what is written is found (frontend/public/ui/ui-actions.js and
-- frontend/public/components/utils/link.jsx).
use web_ui.Base.{
  ◌≡◌, refl, ap, ap₂, ◌∙◌, ◌⊎◌, false, Option, none, some, List, [], ◌∷◌, ◌++◌, null, if◌then◌else◌,
  All, append-nil, drop, take, length, arith, ◌+◌,
}
use web_ui.Base.Text.{Text, codes, split, Without, same_text, starts_with, join, split-join}
use web_ui.Ui.Link.{
  slash, all_namespaces_key, namespaced_prefixes, non_empty, found, is_piece, namespace_of_pieces,
  strip_base_path, get_ns_prefix, get_namespace,
}
use web_ui.Ui.Actions.{
  is_all, previous_namespace, kept_parts, namespace_prefix, path_tail, new_path, rewrite_route,
  format_namespace_route, location_tail,
}
use web_ui.Ui.Pieces.{IsLegal, head-filter, IsPrefix, All-IsPrefix, pieces-of_namespace}

format-prefixed :
    (base_path path prefix active : Text) (location : Option (Text × Text))
    → get_ns_prefix base_path path ≡ some prefix
    → format_namespace_route base_path active path location
      ≡ new_path base_path active prefix path ++ location_tail location
unfolding format_namespace_route rewrite_route
format-prefixed base_path path prefix active location pre =
    ap (rewrite_route base_path active path location) pre

abbrev pieces_behind : Text → Text → Text → List Text
pieces_behind base_path path prefix =
    non_empty (split slash (drop (length prefix + length base_path) path))

abbrev kept_behind : Text → Text → Text → Text → List Text
kept_behind base_path path prefix active =
    let found = previous_namespace (pieces_behind base_path path prefix) in
    kept_parts active found.0 found.1

new_path_lem :
    (base_path path prefix active : Text)
    → new_path base_path active prefix path
      ≡ prefix
        ++ slash ∷ (namespace_prefix active ++ path_tail (kept_behind base_path path prefix active))
unfolding new_path
new_path_lem base_path path prefix active = refl

-- After the route is rewritten for a namespace, the path names this namespace: a legal name or the key
-- of all namespaces, on a path under one of the prefixes, if the new path is not under the base path.
pub get_namespace-format_namespace_route :
    (base_path path prefix active : Text)
    → get_ns_prefix base_path path ≡ some prefix
    → IsLegal active ⊎ (active ≡ all_namespaces_key)
    → strip_base_path base_path (format_namespace_route base_path active path none)
      ≡ format_namespace_route base_path active path none
    → get_namespace base_path (format_namespace_route base_path active path none) ≡ found active
unfolding get_ns_prefix get_namespace location_tail
get_namespace-format_namespace_route base_path path prefix active pre named outside =
    ap (λ t. namespace_of_pieces (non_empty (split slash t))) (outside ∙ written)
    ∙ ap namespace_of_pieces (is_prefix (namespace_prefix active ++ path_tail kept))
    ∙ pieces-of_namespace active kept named (drop 1 prefix)
  where
    kept : List Text
    kept = kept_behind base_path path prefix active

    is_prefix : IsPrefix prefix
    is_prefix =
        head-filter IsPrefix (λ p. starts_with (strip_base_path base_path path) p)
          namespaced_prefixes prefix All-IsPrefix pre

    written :
        format_namespace_route base_path active path none
        ≡ prefix ++ slash ∷ (namespace_prefix active ++ path_tail kept)
    written =
        format-prefixed base_path path prefix active none pre
        ∙ rw append-nil (new_path_lem base_path path prefix active)

-- A piece of a path.
abbrev pub IsPiece : Text → Type 0
IsPiece t = Without slash t × (null t ≡ false)

Without-of_IsPiece : (ts : List Text) → All IsPiece ts → All (Without slash) ts
Without-of_IsPiece [] h = tt
Without-of_IsPiece (t ∷ ts) ((w, _), h) = (w, Without-of_IsPiece ts h)

non_empty_lem : (ts : List Text) → All IsPiece ts → non_empty ts ≡ ts
non_empty_lem [] h = refl
non_empty_lem (t ∷ ts) ((_, e), h) = rw e (ap (t ∷◌) (non_empty_lem ts h))

kept_parts-named :
    (active old : Text) (parts : List Text)
    → is_all active ≡ false
    → kept_parts active (some old) parts ≡ (if same_text old active then parts else take 1 parts)
unfolding kept_parts is_piece
kept_parts-named active old parts h = ground (arith, h)

-- On a path that names a namespace, another one replaces it, with the search and the hash kept: the
-- pieces behind it are all kept for the same namespace, and only the first one for another.
pub format_namespace_route_named :
    (base_path path prefix active old : Text) (parts : List Text) (location : Option (Text × Text))
    → get_ns_prefix base_path path ≡ some prefix
    → drop (length prefix + length base_path) path ≡ join (slash ∷ []) (codes "ns" ∷ old ∷ parts)
    → All IsPiece (old ∷ parts)
    → is_all active ≡ false
    → format_namespace_route base_path active path location
      ≡ (prefix
          ++ slash
            ∷ ((codes "ns/" ++ active)
                ++ path_tail (if same_text old active then parts else take 1 parts)))
        ++ location_tail location
unfolding namespace_prefix previous_namespace same_text
format_namespace_route_named base_path path prefix active old parts location pre behind pieces
      named =
    format-prefixed base_path path prefix active location pre
    ∙ ap (λ t. t ++ location_tail location)
        (new_path_lem base_path path prefix active
          ∙ ap (λ ts. prefix ++ slash ∷ (namespace_prefix active ++ path_tail (kept ts))) cut
          ∙ ap₂ (λ np ps. prefix ++ slash ∷ (np ++ path_tail ps)) prefix_named
              (kept_parts-named active old parts named))
  where
    kept : List Text → List Text
    kept ts = let found = previous_namespace ts in kept_parts active found.0 found.1

    prefix_named : namespace_prefix active ≡ codes "ns/" ++ active
    prefix_named = rw named refl

    whole : All IsPiece (codes "ns" ∷ old ∷ parts)
    whole = (((refl, (refl, tt)), refl), pieces)

    cut : pieces_behind base_path path prefix ≡ codes "ns" ∷ old ∷ parts
    cut =
        ap (λ t. non_empty (split slash t)) behind
        ∙ ap non_empty (
            split-join slash (codes "ns") (old ∷ parts)
              (Without-of_IsPiece (codes "ns" ∷ old ∷ parts) whole))
        ∙ non_empty_lem (codes "ns" ∷ old ∷ parts) whole
