-- ===== src/Http/Logout.antt =====
-- When a session ends (frontend/public/co-fetch.js and frontend/public/module/auth.js).
use web_ui.Base.{
  ℕ, ◌≡◌, refl, sym, ap, ◌∙◌, Bool, true, false, ◌&&◌, ◌||◌, not, none, some, List, [], ◌∷◌, ◌++◌,
  null, any, is_some, if◌then◌else◌, ◌==◌, All, Bool-cases, inl, inr, ==_refl, append_assoc,
}
use web_ui.Base.Text.{Text, codes, starts_with, same_text, same_text_eq}
use web_ui.Selector.Scan.{skip_run, skip_run1, skip_word}
use web_ui.Http.Fetch.{is_word_char, then_match, is_service_proxy, should_logout}
use web_ui.Http.Auth.{Storage, login_keys, set_item, set_next, remove_each, logout_storage}

starts_with-append : (a s t : Text) → starts_with (a ++ s) (a ++ t) ≡ starts_with s t
unfolding starts_with
starts_with-append [] s t = refl
starts_with-append (c ∷ a) s t = rw (==_refl c) (starts_with-append a s t)

skip_word-append : (w s : Text) → skip_word w (w ++ s) ≡ some s
unfolding skip_word
skip_word-append [] s = refl
skip_word-append (c ∷ w) s = rw (==_refl c) (skip_word-append w s)

abbrev pub IsWordChar : ℕ → Type 0
IsWordChar c = is_word_char c ≡ true

skip_run-word :
    (w : Text) (c : ℕ) (s : Text)
    → All IsWordChar w
    → is_word_char c ≡ false
    → skip_run is_word_char (w ++ c ∷ s) ≡ c ∷ s
unfolding skip_run
skip_run-word [] c s h e = rw e refl
skip_run-word (d ∷ w) c s (x, h) e = rw x (skip_run-word w c s h e)

abbrev namespaces : Text
namespaces = codes "api/kubernetes/api/v1/namespaces/"

-- What is behind the first word of a service's address.
behind_word :
    (w : Text) (c : ℕ) (s : Text)
    → All IsWordChar w
    → is_word_char c ≡ false
    → skip_run1 is_word_char (w ++ c ∷ s) ≡ (if null w then none else some (c ∷ s))
unfolding skip_run1
behind_word [] c s h e = rw e refl
behind_word (d ∷ w) c s (x, h) e = rw x (ap some (skip_run-word w c s h e))

abbrev after_namespaces : Text → Text → Text
after_namespaces base_path rest = (base_path ++ namespaces) ++ rest

under_k8s :
    (base_path rest : Text)
    → should_logout base_path (after_namespaces base_path rest)
      ≡ not (is_service_proxy base_path (after_namespaces base_path rest))
unfolding should_logout starts_with
under_k8s base_path rest =
    ap
      (λ t.
        starts_with t (base_path ++ codes "api/kubernetes/")
        && (not (starts_with t (base_path ++ codes "api/kubernetes/api/v1/proxy/"))
            && not (is_service_proxy base_path (after_namespaces base_path rest))))
      (append_assoc base_path namespaces rest)
    ∙ rw (starts_with-append base_path (namespaces ++ rest) (codes "api/kubernetes/")) (
        rw
          (starts_with-append base_path (namespaces ++ rest) (codes "api/kubernetes/api/v1/proxy/"))
          refl)

service_lem :
    (base_path w : Text) (c : ℕ) (s : Text)
    → All IsWordChar w
    → is_word_char c ≡ false
    → null w ≡ false
    → is_service_proxy base_path (after_namespaces base_path (w ++ c ∷ s))
      ≡ is_some (
          then_match
            (skip_word (codes "/services/") (c ∷ s))
            (λ u. then_match (skip_run1 is_word_char u) (λ v. skip_word (codes "/proxy/") v)))
unfolding is_service_proxy
service_lem base_path w c s h e n =
    rw (skip_word-append (base_path ++ namespaces) (w ++ c ∷ s))
      (rw (behind_word w c s h e) (rw n refl))

-- A response of status 401 from a service that is proxied under the names of its namespace and itself
-- logs nobody out, if both names are made of letters, digits and underscores.
pub should_logout_proxied :
    (base_path w v rest : Text)
    → All IsWordChar w
    → All IsWordChar v
    → null w ≡ false
    → null v ≡ false
    → should_logout base_path
        (after_namespaces base_path (w ++ (codes "/services/" ++ (v ++ (codes "/proxy/" ++ rest)))))
      ≡ false
unfolding is_word_char skip_word
should_logout_proxied base_path w v rest h k n m =
    under_k8s base_path (w ++ (codes "/services/" ++ (v ++ (codes "/proxy/" ++ rest))))
    ∙ ap not (
        service_lem base_path w b'/' (codes "services/" ++ (v ++ (codes "/proxy/" ++ rest))) h refl
          n
        ∙ ap (λ o. is_some (then_match o (λ t. skip_word (codes "/proxy/") t)))
            (behind_word v b'/' (codes "proxy/" ++ rest) k refl
              ∙ ap (λ b. if b then none else some (codes "/proxy/" ++ rest)) m))

-- It does log the user out if the name of the namespace has a dash, or another character that the
-- pattern of names leaves out, behind its first.
pub should_logout_dashed :
    (base_path w : Text) (c : ℕ) (rest : Text)
    → All IsWordChar w
    → null w ≡ false
    → is_word_char c ≡ false
    → (c == b'/') ≡ false
    → should_logout base_path (after_namespaces base_path (w ++ c ∷ rest)) ≡ true
unfolding skip_word
should_logout_dashed base_path w c rest h n e d =
    under_k8s base_path (w ++ c ∷ rest) ∙ ap not (service_lem base_path w c rest h e n ∙ other d)
  where
    other :
        (c == b'/') ≡ false
        → is_some (
            then_match
              (skip_word (codes "/services/") (c ∷ rest))
              (λ u. then_match (skip_run1 is_word_char u) (λ v. skip_word (codes "/proxy/") v)))
          ≡ false
    other d = rw d refl

module _ (throws : Text → Bool) where
  set_item_lem :
      (key other : Text) (storage : Storage)
      → set_item throws key none storage other
        ≡ (if same_text other key && not (throws other) then none else storage other)
  set_item_lem key other storage = elim (Bool-cases (same_text other key)) [
    | inl e ↦
        ap (λ t. if same_text other key && not (throws t) then none else storage other)
          (sym (same_text_eq other key e))
    | inr e ↦ rw e refl
  ]

  remove_each_lem :
      (keys : List Text) (storage : Storage) (key : Text)
      → remove_each throws keys storage key
        ≡ (if any (λ k. same_text key k) keys && not (throws key) then none else storage key)
  unfolding remove_each
  remove_each_lem [] storage key = refl
  remove_each_lem (k ∷ keys) storage key =
      remove_each_lem keys (set_item throws k none storage) key
      ∙ ap (λ o. if any (λ k. same_text key k) keys && not (throws key) then none else o)
          (set_item_lem k key storage)
      ∙ either (same_text key k) (any (λ k. same_text key k) keys) (not (throws key))
    where
      either :
          (a b t : Bool)
          → (if b && t then none else (if a && t then none else storage key))
            ≡ (if (a || b) && t then none else storage key)
      either true true true = refl
      either true true false = refl
      either true false true = refl
      either true false false = refl
      either false true true = refl
      either false true false = refl
      either false false true = refl
      either false false false = refl

-- After a logout, each of the keys of the login whose removal does not throw is gone, whichever others
-- throw, and every other key is as the path to return to was stored.
pub logout_storage_lem :
    (throws : Text → Bool) (base_path next : Text) (storage : Storage) (key : Text)
    → logout_storage throws base_path next storage key ≡ (
        if any (λ k. same_text key k) login_keys && not (throws key)
        then none
        else set_next throws base_path next storage key)
unfolding logout_storage
logout_storage_lem throws base_path next storage key =
    remove_each_lem throws login_keys (set_next throws base_path next storage) key
