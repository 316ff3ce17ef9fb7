-- ===== src/Ui/Link.antt =====
-- frontend/public/components/utils/link.jsx and the constants it takes from frontend/public/const.js:
-- what a path says of the namespace. The base path is the server's, a text that stands for itself as
-- a pattern.
use web_ui.Base.{
  ℕ, ◌+◌, Bool, true, false, ◌&&◌, ◌||◌, Option, none, some, List, [], ◌∷◌, ◌==◌, leb, length, drop,
  head, null, filter, not, if◌then◌else◌, get_elem?,
}
use web_ui.Base.Text.{Text, codes, split, starts_with, same_text}

abbrev pub slash : ℕ
slash = 0x2f

abbrev pub all_namespaces_key : Text
all_namespaces_key = codes "#ALL_NS#"

unfoldable pub is_legal_char : ℕ → Bool
is_legal_char c = leb b'a' c && leb c b'z' || leb b'0' c && leb c b'9'

-- The longest run behind a name's first character that ends in a letter or digit.
unfoldable pub legal_rest : Text → Text
legal_rest [] = []
legal_rest (c ∷ s) =
    let rest = legal_rest s in
    if is_legal_char c then c ∷ rest else if c == b'-' && not (null rest) then c ∷ rest else []

-- `match(legalNamePattern)`: the leftmost match, where `none` is null.
unfoldable pub match_legal_name : Text → Option Text
match_legal_name [] = none
match_legal_name (c ∷ s) =
    let later = match_legal_name s in if is_legal_char c then some (c ∷ legal_rest s) else later

abbrev pub namespaced_prefixes : List Text
namespaced_prefixes = codes "/search" ∷ codes "/status" ∷ codes "/k8s" ∷ codes "/overview" ∷ []

-- `filter(x => x)` on texts
abbrev pub non_empty : List Text → List Text
non_empty ts = filter (λ t. not (null t)) ts

-- What `getNamespace` returns.
pub data Found : Type 0 where
  undefined null_match : Found
  found : Text → Found

unfoldable pub or_null : Option Text → Found
or_null none = null_match
or_null (some t) = found t

-- `===` against a text, where a piece that is not there is undefined
unfoldable pub is_piece : Option Text → Text → Bool
is_piece none t = false
is_piece (some s) t = same_text s t

unfoldable pub match_piece : Option Text → Found
match_piece none = undefined
match_piece (some ns) = or_null (match_legal_name ns)

abbrev pub is_some_piece : Option Text → Bool
is_some_piece none = false
is_some_piece (some t) = true

-- The body of `getNamespace` behind the split, where no piece is empty.
unfoldable pub namespace_of_pieces : List Text → Found
namespace_of_pieces pieces =
    if is_piece (get_elem? pieces 1) (codes "all-namespaces")
    then found all_namespaces_key
    else if is_piece (get_elem? pieces 1) (codes "cluster")
        && (is_piece (get_elem? pieces 2) (codes "namespaces")
            || is_piece (get_elem? pieces 2) (codes "projects"))
        && is_some_piece (get_elem? pieces 3)
    then match_piece (get_elem? pieces 3)
    else if is_piece (get_elem? pieces 1) (codes "ns") && is_some_piece (get_elem? pieces 2)
    then match_piece (get_elem? pieces 2)
    else undefined

module _ (base_path : Text) where
  -- A match of the pattern is replaced by a slash.
  unfoldable pub strip_base_path : Text → Text
  strip_base_path path =
      if starts_with path (slash ∷ base_path)
      then slash ∷ drop (1 + length base_path) path
      else if starts_with path base_path
      then slash ∷ drop (length base_path) path
      else path

  unfoldable pub get_ns_prefix : Text → Option Text
  get_ns_prefix path = head (filter (λ p. starts_with (strip_base_path path) p) namespaced_prefixes)

  unfoldable pub get_namespace : Text → Found
  get_namespace path = namespace_of_pieces (non_empty (split slash (strip_base_path path)))
