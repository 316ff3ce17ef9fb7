-- ===== src/K8s/Urls.antt =====
-- What the addresses of resources tell apart (frontend/public/module/k8s/resource.js).
use web_ui.Base.{
  ℕ, ◌≡◌, refl, subst, Bool, not, all, ◌==◌, arith, sym, ap, ap₂, ◌∙◌, Option, none, some, List, [],
  ◌∷◌, ◌++◌, map, All, All-append, append_assoc, append-nil, true,
}
use mathlib.Core.List.{map-append}
use web_ui.Base.Text.{
  Text, codes, split, split_from-append, split_from_of_Without, split-join, Without,
}
use web_ui.Ui.Routes.{IsPiece}
use web_ui.K8s.Resource.{
  Model, located_at, with_ns, present, slashed, query_text, pair_text, get_k8s_api_path,
  resource_url, WatchQuery, encoded, param_if, watch_params, k8s_watch,
}

abbrev slash : ℕ
slash = 0x2f

-- A test that a text does not hold a character.
abbrev lacks : ℕ → Text → Bool
lacks c s = all (λ x. not (x == c)) s

lacks-Without : (c : ℕ) (s : Text) → lacks c s ≡ true → Without c s
lacks-Without c [] h = tt
lacks-Without c (x ∷ s) h = (ground arith, lacks-Without c s (ground arith))

-- An option that is missing or a piece of a path.
abbrev pub IsSegment : Option Text → Type 0
IsSegment none = Unit
IsSegment (some t) = IsPiece t

slashed_all : List Text → Text
slashed_all [] = []
slashed_all (t ∷ ts) = slash ∷ (t ++ slashed_all ts)

split-slashed_all :
    (t : Text) (ts : List Text)
    → All (Without slash) (t ∷ ts)
    → split slash (t ++ slashed_all ts) ≡ t ∷ ts
unfolding slashed_all split
split-slashed_all t [] (h, _) = rw append-nil (split_from_of_Without slash [] t h)
split-slashed_all t (u ∷ ts) (h, hs) =
    split_from-append slash [] t (u ++ slashed_all ts)
    ∙ ap₂ ◌++◌ (split_from_of_Without slash [] t h) (split-slashed_all u ts hs)

slashed_all_injective :
    (ts us : List Text)
    → All (Without slash) ts
    → All (Without slash) us
    → slashed_all ts ≡ slashed_all us
    → ts ≡ us
unfolding slashed_all
slashed_all_injective [] [] h k e = refl
slashed_all_injective [] (u ∷ us) h k e = cc
slashed_all_injective (t ∷ ts) [] h k e = cc
slashed_all_injective (t ∷ ts) (u ∷ us) h k e =
    sym (split-slashed_all t ts h)
    ∙ ap (split slash) (behind (t ++ slashed_all ts) (u ++ slashed_all us) e)
    ∙ split-slashed_all u us k
  where
    behind : (a b : Text) → slash ∷ a ≡ slash ∷ b → a ≡ b
    behind a b e = cc

pub append_cancel : (a b c : Text) → a ++ b ≡ a ++ c → b ≡ c
append_cancel [] b c e = e
append_cancel (x ∷ a) b c e = append_cancel a b c (behind (a ++ b) (a ++ c) e)
  where
    behind : (s t : Text) → x ∷ s ≡ x ∷ t → s ≡ t
    behind s t e = cc

abbrev segments : Option Text → Text → Option Text → List Text
segments none path none = path ∷ []
segments none path (some n) = path ∷ n ∷ []
segments (some ns) path none = codes "namespaces" ∷ ns ∷ path ∷ []
segments (some ns) path (some n) = codes "namespaces" ∷ ns ∷ path ∷ n ∷ []

present_of_IsSegment : (o : Option Text) → IsSegment o → present o ≡ o
unfolding present
present_of_IsSegment none h = refl
present_of_IsSegment (some []) (_, h) = cc
present_of_IsSegment (some (c ∷ s)) h = refl

resource_url_lem :
    (base : Text) (m : Model) (ns name : Option Text)
    → IsSegment ns
    → IsSegment name
    → resource_url base m (located_at ns name)
      ≡ get_k8s_api_path base m ++ slashed_all (segments ns m.path name)
unfolding resource_url slashed_all slashed query_text present
resource_url_lem base m ns name h k =
    ap₂ (λ a b. get_k8s_api_path base m ++ (with_ns a ++ ((slash ∷ m.path) ++ (slashed b ++ []))))
      (present_of_IsSegment ns h) (present_of_IsSegment name k)
    ∙ ap (λ t. get_k8s_api_path base m ++ t) (shape ns name)
  where
    shape :
        (ns name : Option Text)
        → with_ns ns ++ ((slash ∷ m.path) ++ (slashed name ++ []))
          ≡ slashed_all (segments ns m.path name)
    shape none none = refl
    shape none (some n) = refl
    shape (some ns) none = refl
    shape (some ns) (some n) = refl

segments_injective :
    (ns ns' name name' : Option Text) (path : Text)
    → segments ns path name ≡ segments ns' path name'
    → (ns ≡ ns') × (name ≡ name')
segments_injective none none none none path e = (refl, refl)
segments_injective none none none (some n) path e = cc
segments_injective none none (some n) none path e = cc
segments_injective none none (some n) (some k) path e = (cc, cc)
segments_injective none (some s) none none path e = cc
segments_injective none (some s) none (some n) path e = cc
segments_injective none (some s) (some n) none path e = cc
segments_injective none (some s) (some n) (some k) path e = cc
segments_injective (some s) none none none path e = cc
segments_injective (some s) none none (some n) path e = cc
segments_injective (some s) none (some n) none path e = cc
segments_injective (some s) none (some n) (some k) path e = cc
segments_injective (some s) (some t) none none path e = (cc, cc)
segments_injective (some s) (some t) none (some n) path e = cc
segments_injective (some s) (some t) (some n) none path e = cc
segments_injective (some s) (some t) (some n) (some k) path e = (cc, cc)

-- Two objects of one model with the same address have the same namespace and the same name, if each is
-- missing or a piece of a path.
pub resource_url_injective :
    (base : Text) (m : Model) (ns ns' name name' : Option Text)
    → IsPiece m.path
    → IsSegment ns
    → IsSegment ns'
    → IsSegment name
    → IsSegment name'
    → resource_url base m (located_at ns name) ≡ resource_url base m (located_at ns' name')
    → (ns ≡ ns') × (name ≡ name')
resource_url_injective base m ns ns' name name' p h h' k k' e =
    segments_injective ns ns' name name' m.path (
      slashed_all_injective (segments ns m.path name) (segments ns' m.path name')
        (solid ns m.path name h p k) (solid ns' m.path name' h' p k')
        (append_cancel (get_k8s_api_path base m) _ _ (
          sym (resource_url_lem base m ns name h k) ∙ e ∙ resource_url_lem base m ns' name' h' k')))
  where
    namespaces : Without slash (codes "namespaces")
    namespaces = lacks-Without slash (codes "namespaces") refl

    solid :
        (ns : Option Text) (path : Text) (name : Option Text)
        → IsSegment ns
        → IsPiece path
        → IsSegment name
        → All (Without slash) (segments ns path name)
    solid none path none h p k = (p.0, tt)
    solid none path (some n) h p k = (p.0, (k.0, tt))
    solid (some ns) path none h p k = (namespaces, (h.0, (p.0, tt)))
    solid (some ns) path (some n) h p k = (namespaces, (h.0, (p.0, (k.0, tt))))

abbrev Lacks : ℕ → Option Text → Type 0
Lacks c none = Unit
Lacks c (some t) = Without c t

present-Lacks : (c : ℕ) (o : Option Text) → Lacks c o → Lacks c (present o)
unfolding present
present-Lacks c none h = h
present-Lacks c (some []) h = tt
present-Lacks c (some (x ∷ s)) h = h

param_if-Lacks :
    (k : Text) (o : Option Text)
    → lacks b'&' (k ++ b'=' ∷ []) ≡ true
    → Lacks b'&' o
    → All (Without b'&') (map pair_text (param_if k o))
param_if-Lacks k none h l = tt
param_if-Lacks k (some t) h l = (
  subst (Without b'&') (append_assoc k (b'=' ∷ []) t)
      (All-append _ (k ++ b'=' ∷ []) t (lacks-Without b'&' (k ++ b'=' ∷ []) h) l),
  tt,
)

encoded-Lacks :
    (base : Text) (encode : Text → Text)
    → ((t : Text) → Without b'&' (encode t))
    → (o : Option Text) → Lacks b'&' (encoded base encode o)
encoded-Lacks base encode safe none = tt
encoded-Lacks base encode safe (some t) = safe t

regroup : (a b c d : Text) → a ++ (b ++ (c ++ d)) ≡ (a ++ (b ++ (c ++ []))) ++ d
regroup a b c d = sym (
    append_assoc a (b ++ (c ++ [])) d
    ∙ ap (λ t. a ++ t) (append_assoc b (c ++ []) d ∙ ap (λ t. b ++ t) (append_assoc c [] d)))

three-params :
    (x y z : List (Text × Text))
    → All (Without b'&') (map pair_text x)
    → All (Without b'&') (map pair_text y)
    → All (Without b'&') (map pair_text z)
    → All (Without b'&') (map pair_text (x ++ (y ++ z)))
three-params x y z hx hy hz = subst (All (Without b'&')) (sym (map-append pair_text x (y ++ z))) (
    All-append _ (map pair_text x) (map pair_text (y ++ z)) hx (
      subst (All (Without b'&')) (sym (map-append pair_text y z))
        (All-append _ (map pair_text y) (map pair_text z) hy hz)))

-- The query of a watch, cut at its ampersands, is the list of its parameters, the watch itself first,
-- if the encoding of texts leaves no ampersand.
pub split-k8s_watch :
    (base : Text) (encode : Text → Text) (m : Model) (q : WatchQuery)
    → ((t : Text) → Without b'&' (encode t))
    → (query : Text) × (k8s_watch base encode m q
        ≡ resource_url base m (located_at (present q.ns) none) ++ b'?' ∷ query)
      × (split b'&' query ≡ map pair_text (watch_params base encode q))
unfolding k8s_watch resource_url query_text watch_params slashed present
split-k8s_watch base encode m q safe = (
  _,
  regroup (get_k8s_api_path base m) (with_ns (present (present q.ns))) (slash ∷ m.path) _,
  split-join b'&' (codes "watch=true") _ (lacks-Without b'&' (codes "watch=true") refl, rest),
)
  where
    labels : Option Text
    labels = present (encoded base encode q.label_selector)

    fields : Option Text
    fields = encoded base encode (present q.field_selector)

    version : Option Text
    version = encoded base encode (present q.resource_version)

    rest : All (Without b'&') (
        map pair_text (
          param_if (codes "labelSelector") labels
          ++ (param_if (codes "fieldSelector") fields
              ++ param_if (codes "resourceVersion") version)))
    rest =
        three-params (param_if (codes "labelSelector") labels)
          (param_if (codes "fieldSelector") fields) (param_if (codes "resourceVersion") version)
          (param_if-Lacks (codes "labelSelector") labels refl
            (present-Lacks b'&' _ (encoded-Lacks base encode safe q.label_selector)))
          (param_if-Lacks (codes "fieldSelector") fields refl
            (encoded-Lacks base encode safe (present q.field_selector)))
          (param_if-Lacks (codes "resourceVersion") version refl
            (encoded-Lacks base encode safe (present q.resource_version)))
