-- ===== src/K8s/Hooks.antt =====
-- Actions written and read back (frontend/public/module/k8s/probe.js).
use web_ui.Base.{
  ℕ, ◌≡◌, refl, sym, subst, ap, ap₂, ◌∙◌, true, false, not, Option, some, List, [], ◌∷◌, ◌++◌, null,
  if◌then◌else◌, ◌==◌, arith, All, All-append, append_assoc, append-nil,
}
use web_ui.Base.Text.{
  Text, codes, split, split_from-append, split_from_of_Without, split-join, join, Without,
}
use web_ui.Base.Decimal.{is_digit, IsDigit, show, All-show, null-show}
use web_ui.K8s.Probe.{
  exec, http_get, number, HttpGet, exec_command, http_get_command, split_scheme_from, join_rest,
  http_command, port_or_default, parse_host, parse_authority, parse_scheme, parse_http_get,
  parse_cmd, port_text, is_port, host_text, flatten_http_get, flatten_cmd,
}
use web_ui.K8s.Ports.{port_of-show}

-- A command line of words is read back as these words.
pub parse_cmd-flatten_cmd_exec :
    (t : Text) (ts : List Text) (pod_ip : Option Text)
    → All (Without 0x20) (t ∷ ts)
    → parse_cmd exec (flatten_cmd (exec_command (t ∷ ts)) pod_ip) ≡ some (exec_command (t ∷ ts))
unfolding parse_cmd flatten_cmd
parse_cmd-flatten_cmd_exec t ts pod_ip h = ap (λ s. some (exec_command s)) (split-join 0x20 t ts h)

abbrev colon : ℕ
colon = b':'

abbrev slash : ℕ
slash = b'/'

step_over :
    (cur : Text) (c : ℕ) (s : Text)
    → (c == colon) ≡ false
    → split_scheme_from cur (c ∷ s) ≡ split_scheme_from (cur ++ c ∷ []) s
unfolding split_scheme_from
step_over cur c [] h = refl
step_over cur c (d ∷ []) h = ap (λ t. t ∷ []) (sym (append_assoc cur (c ∷ []) (d ∷ [])))
step_over cur c (d ∷ e ∷ s) h = rw h refl

step_colon :
    (cur : Text) (d : ℕ) (s : Text)
    → (d == slash) ≡ false
    → split_scheme_from cur (colon ∷ d ∷ s) ≡ split_scheme_from (cur ++ colon ∷ []) (d ∷ s)
unfolding split_scheme_from
step_colon cur d [] h = ap (λ t. t ∷ []) (sym (append_assoc cur (colon ∷ []) (d ∷ [])))
step_colon cur d (e ∷ s) h = rw h refl

run_over :
    (a cur s : Text)
    → Without colon a
    → split_scheme_from cur (a ++ s) ≡ split_scheme_from (cur ++ a) s
run_over [] cur s h = rw append-nil refl
run_over (c ∷ a) cur s (e, h) =
    step_over cur c (a ++ s) e
    ∙ run_over a (cur ++ c ∷ []) s h
    ∙ ap (λ t. split_scheme_from t s) (append_assoc cur (c ∷ []) a)

-- A text whose only colon is not followed by a slash is not cut.
whole :
    (a : Text) (d : ℕ) (b : Text)
    → Without colon a
    → Without colon (d ∷ b)
    → (d == slash) ≡ false
    → split_scheme_from [] (a ++ colon ∷ d ∷ b) ≡ (a ++ colon ∷ d ∷ b) ∷ []
unfolding split_scheme_from
whole a d b h k e =
    run_over a [] (colon ∷ d ∷ b) h
    ∙ step_colon a d b e
    ∙ ap (split_scheme_from (a ++ colon ∷ [])) (sym (append-nil (d ∷ b)))
    ∙ run_over (d ∷ b) (a ++ colon ∷ []) [] k
    ∙ ap (λ t. t ∷ []) (append_assoc a (colon ∷ []) (d ∷ b))

cut_scheme :
    (a r : Text)
    → Without colon a
    → split_scheme_from [] (a ++ (codes "://" ++ r)) ≡ a ∷ split_scheme_from [] r
unfolding split_scheme_from
cut_scheme a r h = run_over a [] (codes "://" ++ r) h

digits-Without : (c : ℕ) → is_digit c ≡ false → (s : Text) → All IsDigit s → Without c s
digits-Without c h [] k = tt
digits-Without c h (d ∷ s) (x, k) = (differ d x, digits-Without c h s k)
  where
    differ : (d : ℕ) → is_digit d ≡ true → (d == c) ≡ false
    differ d x = ground (arith, h, x)

show-front : (n : ℕ) → (d : ℕ) × (b : Text) × (show n ≡ d ∷ b) × (is_digit d ≡ true)
show-front n = front (show n) (All-show n) (null-show n)
  where
    front :
        (s : Text)
        → All IsDigit s
        → null s ≡ false
        → (d : ℕ) × (b : Text) × (s ≡ d ∷ b) × (is_digit d ≡ true)
    front [] h k = cc
    front (d ∷ b) (x, h) k = (d, b, refl, x)

-- A piece of an address: no colon and no slash.
abbrev pub IsPlain : Text → Type 0
IsPlain t = Without colon t × Without slash t

plain-slash : (ts : List Text) → All IsPlain ts → All (Without slash) ts
plain-slash [] h = tt
plain-slash (t ∷ ts) ((_, w), h) = (w, plain-slash ts h)

abbrev address : Text → Text → Text
address scheme hostname = scheme ++ (codes "://" ++ hostname)

-- The address behind its scheme, cut at the first slash and at the colon.
parse_behind :
    (scheme hostname : Text) (n : ℕ) (s : Text) (segs : List Text)
    → IsPlain hostname
    → All IsPlain (s ∷ segs)
    → (n == 0) ≡ false
    → parse_authority scheme
        (split slash (hostname ++ (colon ∷ show n ++ slash ∷ join (slash ∷ []) (s ∷ segs))))
      ≡ http_command scheme hostname (slash ∷ join_rest (s ∷ segs)) (some (number n))
unfolding parse_authority split parse_host port_or_default
parse_behind scheme hostname n s segs h hs z =
    ap (λ t. parse_authority scheme (split slash t))
      (sym (append_assoc hostname (colon ∷ show n) (slash ∷ join (slash ∷ []) (s ∷ segs))))
    ∙ ap (parse_authority scheme) (
        split_from-append slash [] (hostname ++ colon ∷ show n) (join (slash ∷ []) (s ∷ segs))
        ∙ ap₂ ◌++◌
            (split_from_of_Without slash [] (hostname ++ colon ∷ show n) (
              All-append _ hostname (colon ∷ show n) h.1
                (refl, digits-Without slash refl (show n) (All-show n))))
            (split-join slash s segs (plain-slash (s ∷ segs) hs)))
    ∙ ap (λ ps. parse_host scheme ps (slash ∷ join_rest (s ∷ segs)))
        (split_from-append colon [] hostname (show n)
          ∙ ap₂ ◌++◌ (split_from_of_Without colon [] hostname h.0) (
              split_from_of_Without colon [] (show n)
                (digits-Without colon refl (show n) (All-show n))))
    ∙ ap (λ p. http_command scheme hostname (slash ∷ join_rest (s ∷ segs)) (some p))
        (port_of-show n z)

join-Without :
    (c d : ℕ) (ts : List Text)
    → (d == c) ≡ false
    → All (Without c) ts
    → Without c (join (d ∷ []) ts)
unfolding join
join-Without c d [] e h = tt
join-Without c d (t ∷ []) e (w, _) = w
join-Without c d (t ∷ u ∷ ts) e (w, h) =
    All-append _ t (d ∷ join (d ∷ []) (u ∷ ts)) w (e, join-Without c d (u ∷ ts) e h)

plain-colon : (ts : List Text) → All IsPlain ts → All (Without colon) ts
plain-colon [] h = tt
plain-colon (t ∷ ts) ((w, _), h) = (w, plain-colon ts h)

-- The scheme is cut off, and the rest is not cut again.
parse_address :
    (scheme hostname : Text) (n : ℕ) (s : Text) (segs : List Text)
    → Without colon scheme
    → IsPlain hostname
    → All IsPlain (s ∷ segs)
    → split_scheme_from []
        (address scheme hostname ++ (colon ∷ show n ++ slash ∷ join (slash ∷ []) (s ∷ segs)))
      ≡ scheme ∷ (hostname ++ (colon ∷ show n ++ slash ∷ join (slash ∷ []) (s ∷ segs))) ∷ []
parse_address scheme hostname n s segs k h hs =
    ap (split_scheme_from []) (append_assoc scheme (codes "://" ++ hostname) _)
    ∙ cut_scheme scheme (hostname ++ (colon ∷ show n ++ slash ∷ path)) k
    ∙ ap (scheme ∷◌) (uncut (show-front n))
  where
    path : Text
    path = join (slash ∷ []) (s ∷ segs)

    uncut :
        ((d : ℕ) × (b : Text) × (show n ≡ d ∷ b) × (is_digit d ≡ true))
        → split_scheme_from [] (hostname ++ (colon ∷ show n ++ slash ∷ path))
          ≡ (hostname ++ (colon ∷ show n ++ slash ∷ path)) ∷ []
    uncut (d, b, e, x) =
        ap (λ t. split_scheme_from [] (hostname ++ (colon ∷ t ++ slash ∷ path))) e
        ∙ whole hostname d (b ++ slash ∷ path) h.0
            (All-append _ (d ∷ b) (slash ∷ path)
              (subst (Without colon) e (digits-Without colon refl (show n) (All-show n)))
              (refl, join-Without colon slash (s ∷ segs) refl (plain-colon (s ∷ segs) hs)))
            (ground (arith, x))
        ∙ ap (λ t. (hostname ++ (colon ∷ t ++ slash ∷ path)) ∷ []) (sym e)

abbrev address_command : Text → Text → ℕ → Text → HttpGet
address_command scheme hostname n path = record {
  host = some (address scheme hostname);
  path = some path;
  port = some (number n);
}

-- An HTTP action whose host is a scheme and a name, with a positive port and a path of plain pieces, is
-- read back from its line with every slash of the path but the first changed to a comma: the action
-- itself exactly for a path of one piece.
pub parse_cmd-flatten_cmd_http :
    (scheme hostname : Text) (n : ℕ) (s : Text) (segs : List Text) (pod_ip : Option Text)
    → Without colon scheme
    → null scheme ≡ false
    → IsPlain hostname
    → All IsPlain (s ∷ segs)
    → (n == 0) ≡ false
    → parse_cmd http_get (
        flatten_cmd
          (http_get_command
            (address_command scheme hostname n (slash ∷ join (slash ∷ []) (s ∷ segs))))
          pod_ip)
      ≡ some (
          http_get_command
            (address_command scheme hostname n (slash ∷ join (b',' ∷ []) (s ∷ segs))))
unfolding parse_cmd flatten_cmd flatten_http_get host_text is_port port_text parse_http_get
    parse_scheme join
parse_cmd-flatten_cmd_http [] hostname n s segs pod_ip k e h hs z = cc
parse_cmd-flatten_cmd_http (c ∷ t) hostname n s segs pod_ip k e h hs z =
    ap
      (λ b. parse_http_get (
        address (c ∷ t) hostname
        ++ ((if not b then colon ∷ show n else []) ++ slash ∷ join (slash ∷ []) (s ∷ segs))))
      z
    ∙ ap parse_scheme (parse_address (c ∷ t) hostname n s segs k h hs)
    ∙ parse_behind (c ∷ t) hostname n s segs h hs z
