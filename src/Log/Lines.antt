-- ===== src/Log/Lines.antt =====
-- Which lines a buffer of log lines holds (frontend/public/components/utils/line-buffer.ts).
use web_ui.Base.{
  ==_iff, Bool, filter, if◌then◌else◌, ℕ, suc, ◌+◌, ◌-◌, ◌≤◌, ◌<◌, ◌≡◌, refl, sym, ap, ◌∙◌, subst,
  true, false, ◌||◌, not, List, [], ◌∷◌, ◌++◌, append_assoc, append-nil, length, length-append, all,
  ◌==◌, Bool-cases, inl, inr, arith,
}
use web_ui.Base.Text.{Text}
use web_ui.Base.Last.{last_n, last_n-append, last_n-all, length-last_n, drop-eq, drop-append}
use web_ui.Log.Buffer.{
  line_feed, CharKind, feed, ending, plain, kind_of, by_kind, before_head, match_lines,
  ends_in_feed, LineBuffer, new_buffer, push, ingest_line, ingest_lines, ingest, clear,
}

-- The specification: the complete lines of a text behind the start of a line, and the line that is
-- not complete, read from the text character by character.
unfoldable pub scan : Text → Text → List Text × Text
scan t [] = ([], t)
scan t (c ∷ s) =
    let plain_rest = scan (t ++ c ∷ []) s in
    let same = scan t s in
    let next = scan [] s in by_kind (kind_of c) ((t ++ c ∷ []) ∷ next.0, next.1) same plain_rest

abbrev pub push_all : ℕ → List Text → List Text → List Text
push_all n ls [] = ls
push_all n ls (m ∷ ms) = push_all n (push n ls m) ms

abbrev with_scan : LineBuffer → List Text × Text → LineBuffer × ℕ
with_scan b r = (
  record { max_size = b.max_size; buffer = push_all b.max_size b.buffer r.0; tail = r.1 },
  length r.0,
)

abbrev with_tail : LineBuffer → Text → LineBuffer
with_tail b t = record { max_size = b.max_size; buffer = b.buffer; tail = t }

ends_in_feed-cons :
    (c : ℕ) (l : Text) → (c == line_feed) ≡ false → ends_in_feed (c ∷ l) ≡ ends_in_feed l
ends_in_feed-cons c [] h = h
ends_in_feed-cons c (d ∷ l) h = refl

ingest_line-cons :
    (b : LineBuffer) (c : ℕ) (l : Text)
    → (c == line_feed) ≡ false
    → ingest_line b (c ∷ l) ≡ ingest_line (with_tail b (b.tail ++ c ∷ [])) l
unfolding ingest_line
ingest_line-cons b c l h = rw (ends_in_feed-cons c l h) (rw (append_assoc b.tail (c ∷ []) l) refl)

plain_kind :
    (c : ℕ) → (c == 10 || (c == 13 || (c == 8232 || c == 8233))) ≡ false → kind_of c ≡ plain
unfolding kind_of
plain_kind c h = ground (arith, h)

ingest_lines-before_head :
    (b : LineBuffer) (c : ℕ) (ls : List Text)
    → (c == line_feed) ≡ false
    → ingest_lines b (before_head c ls) ≡ ingest_lines (with_tail b (b.tail ++ c ∷ [])) ls
unfolding ingest_lines ingest_line
ingest_lines-before_head b c [] h = rw h refl
ingest_lines-before_head b c (l ∷ ls) h =
    ap (λ o. ((ingest_lines o.0 ls).0, o.1 + (ingest_lines o.0 ls).1)) (ingest_line-cons b c l h)

kind_of-feed : (c : ℕ) → kind_of c ≡ feed → (c == line_feed) ≡ true
unfolding kind_of
kind_of-feed c e = ground (arith, e)

kind_of-plain : (c : ℕ) → kind_of c ≡ plain → (c == line_feed) ≡ false
unfolding kind_of
kind_of-plain c e = ground (arith, e)

add_one : (n : ℕ) → 1 + n ≡ suc n
add_one n = omega arith

add_none : (n : ℕ) → 0 + n ≡ n
add_none n = omega arith

pub ingest_lines-scan :
    (b : LineBuffer) (s : Text) → ingest_lines b (match_lines s) ≡ with_scan b (scan b.tail s)
unfolding match_lines scan ingest_lines ingest_line
ingest_lines-scan b [] = ap (λ t. (with_tail b t, 0)) (append-nil b.tail)
ingest_lines-scan b (c ∷ s) =
    go (kind_of c) refl (ingest_lines-scan b s)
      (ingest_lines-scan (with_tail b (b.tail ++ c ∷ [])) s)
      (ingest_lines-scan
        record {
          max_size = b.max_size;
          buffer = push b.max_size b.buffer (b.tail ++ c ∷ []);
          tail = [];
        }
        s)
  where
    go :
        (k : CharKind)
        → kind_of c ≡ k
        → ingest_lines b (match_lines s) ≡ with_scan b (scan b.tail s)
        → ingest_lines (with_tail b (b.tail ++ c ∷ [])) (match_lines s)
          ≡ with_scan (with_tail b (b.tail ++ c ∷ [])) (scan (b.tail ++ c ∷ []) s)
        → ingest_lines
            record {
              max_size = b.max_size;
              buffer = push b.max_size b.buffer (b.tail ++ c ∷ []);
              tail = [];
            }
            (match_lines s)
          ≡ with_scan
              record {
                max_size = b.max_size;
                buffer = push b.max_size b.buffer (b.tail ++ c ∷ []);
                tail = [];
              }
              (scan [] s)
        → ingest_lines b (
            by_kind k
              ((c ∷ []) ∷ match_lines s)
              ([] ∷ match_lines s)
              (before_head c (match_lines s)))
          ≡ with_scan b (
              by_kind k
                ((b.tail ++ c ∷ []) ∷ (scan [] s).0, (scan [] s).1)
                (scan b.tail s)
                (scan (b.tail ++ c ∷ []) s))
    go feed e same plain_rest next = rw (kind_of-feed c e) (
        ap (λ o. (o.0, 1 + o.1)) next
        ∙ ap (λ n. ((with_scan b ((b.tail ++ c ∷ []) ∷ (scan [] s).0, (scan [] s).1)).0, n))
            (add_one (length (scan [] s).0)))
    go ending e same plain_rest next =
        ap
          (λ t. (
            (ingest_lines (with_tail b t) (match_lines s)).0,
            0 + (ingest_lines (with_tail b t) (match_lines s)).1,
          ))
          (append-nil b.tail)
        ∙ ap (λ n. ((ingest_lines b (match_lines s)).0, n))
            (add_none (ingest_lines b (match_lines s)).1)
        ∙ same
    go plain e same plain_rest next =
        ingest_lines-before_head b c (match_lines s) (kind_of-plain c e) ∙ plain_rest

pub scan-append :
    (t a b : Text)
    → scan t (a ++ b) ≡ ((scan t a).0 ++ (scan (scan t a).1 b).0, (scan (scan t a).1 b).1)
unfolding scan
scan-append t [] b = refl
scan-append t (c ∷ a) b =
    go (kind_of c) (scan-append t a b) (scan-append (t ++ c ∷ []) a b) (scan-append [] a b)
  where
    go :
        (k : CharKind)
        → scan t (a ++ b) ≡ ((scan t a).0 ++ (scan (scan t a).1 b).0, (scan (scan t a).1 b).1)
        → scan (t ++ c ∷ []) (a ++ b) ≡ (
          (scan (t ++ c ∷ []) a).0 ++ (scan (scan (t ++ c ∷ []) a).1 b).0,
          (scan (scan (t ++ c ∷ []) a).1 b).1,
        )
        → scan [] (a ++ b) ≡ ((scan [] a).0 ++ (scan (scan [] a).1 b).0, (scan (scan [] a).1 b).1)
        → by_kind k
            ((t ++ c ∷ []) ∷ (scan [] (a ++ b)).0, (scan [] (a ++ b)).1)
            (scan t (a ++ b))
            (scan (t ++ c ∷ []) (a ++ b))
          ≡ (
            (by_kind k
                  ((t ++ c ∷ []) ∷ (scan [] a).0, (scan [] a).1)
                  (scan t a)
                  (scan (t ++ c ∷ []) a)).0
                ++ (scan
                    (by_kind k
                      ((t ++ c ∷ []) ∷ (scan [] a).0, (scan [] a).1)
                      (scan t a)
                      (scan (t ++ c ∷ []) a)).1
                    b).0,
            (scan
                (by_kind k
                  ((t ++ c ∷ []) ∷ (scan [] a).0, (scan [] a).1)
                  (scan t a)
                  (scan (t ++ c ∷ []) a)).1
                b).1,
          )
    go feed same plain_rest next = ap (λ o. ((t ++ c ∷ []) ∷ o.0, o.1)) next
    go ending same plain_rest next = same
    go plain same plain_rest next = plain_rest

push_lem :
    (n : ℕ) (ls : List Text) (l : Text)
    → 0 < n
    → length ls ≤ n
    → push n ls l ≡ last_n n (ls ++ l ∷ [])
unfolding last_n
push_lem n ls l p h = elim (Bool-cases (length ls == n)) [
  | inl full ↦
      rw full (sym (drop-append 1 ls (l ∷ []) (ground (arith, full))))
      ∙ drop-eq 1 (length (ls ++ l ∷ []) - n) (ls ++ l ∷ [])
          (ground (arith, full, length-append ls (l ∷ [])))
  | inr room ↦
      rw room refl
      ∙ drop-eq 0 (length (ls ++ l ∷ []) - n) (ls ++ l ∷ [])
          (ground (arith, room, length-append ls (l ∷ [])))
]

push_all_lem :
    (n : ℕ) (ls ms : List Text) → 0 < n → length ls ≤ n → push_all n ls ms ≡ last_n n (ls ++ ms)
push_all_lem n ls [] p h = sym (last_n-all n ls h) ∙ ap (last_n n) (sym (append-nil ls))
push_all_lem n ls (m ∷ ms) p h =
    push_all_lem n (push n ls m) ms p
      (subst (λ xs. length xs ≤ n) (sym (push_lem n ls m p h)) (length-last_n n (ls ++ m ∷ [])))
    ∙ ap (λ xs. last_n n (xs ++ ms)) (push_lem n ls m p h)
    ∙ last_n-append n (ls ++ m ∷ []) ms
    ∙ ap (last_n n) (append_assoc ls (m ∷ []) ms)

push_all-append :
    (n : ℕ) (ls ms ks : List Text) → push_all n ls (ms ++ ks) ≡ push_all n (push_all n ls ms) ks
push_all-append n ls [] ks = refl
push_all-append n ls (m ∷ ms) ks = push_all-append n (push n ls m) ms ks

scan-line :
    (t line : Text)
    → all (λ c. not (c == 10 || (c == 13 || (c == 8232 || c == 8233)))) line ≡ true
    → (scan t (line ++ 10 ∷ [])).0 ≡ (t ++ (line ++ 10 ∷ [])) ∷ []
unfolding scan kind_of
scan-line t [] h = refl
scan-line t (c ∷ line) h = rw (plain_kind c (ground (arith, h))) (
    scan-line (t ++ c ∷ []) line (ground (arith, h))
    ∙ ap (λ u. u ∷ []) (append_assoc t (c ∷ []) (line ++ 10 ∷ [])))

-- The texts of several messages.
unfoldable pub ingest_all : LineBuffer → List Text → LineBuffer
ingest_all b [] = b
ingest_all b (s ∷ ss) = ingest_all (ingest b s).0 ss

abbrev pub joined : List Text → Text
joined [] = []
joined (s ∷ ss) = s ++ joined ss

ingest_all-scan :
    (b : LineBuffer) (ss : List Text)
    → ingest_all b ss ≡ record {
      max_size = b.max_size;
      buffer = push_all b.max_size b.buffer (scan b.tail (joined ss)).0;
      tail = (scan b.tail (joined ss)).1;
    }
unfolding ingest_all ingest scan
ingest_all-scan b [] = refl
ingest_all-scan b (s ∷ ss) =
    ap (λ r. ingest_all r.0 ss) (ingest_lines-scan b s)
    ∙ ingest_all-scan (with_scan b (scan b.tail s)).0 ss
    ∙ ap
        (λ ls. record {
          max_size = b.max_size;
          buffer = ls;
          tail = (scan (scan b.tail s).1 (joined ss)).1;
        })
        (sym (
          push_all-append b.max_size b.buffer (scan b.tail s).0
            (scan (scan b.tail s).1 (joined ss)).0))
    ∙ ap
        (λ r. record {
          max_size = b.max_size;
          buffer = push_all b.max_size b.buffer r.0;
          tail = r.1;
        })
        (sym (scan-append b.tail s (joined ss)))

-- One text leaves at most as many lines as fit.
pub length-ingest :
    (b : LineBuffer) (text : Text)
    → 0 < b.max_size
    → length b.buffer ≤ b.max_size
    → length (ingest b text).0.buffer ≤ b.max_size
unfolding ingest
length-ingest b text p h =
    subst (λ ls. length ls ≤ b.max_size)
      (sym (
        ap (λ r. r.0.buffer) (ingest_lines-scan b text)
        ∙ push_all_lem b.max_size b.buffer (scan b.tail text).0 p h))
      (length-last_n b.max_size (b.buffer ++ (scan b.tail text).0))

pub max_size-ingest : (b : LineBuffer) (text : Text) → (ingest b text).0.max_size ≡ b.max_size
unfolding ingest
max_size-ingest b text = ap (λ r. r.0.max_size) (ingest_lines-scan b text)

-- The other characters that end a line for a regular expression.
abbrev pub is_kept : ℕ → Bool
is_kept c = not (c == 13 || (c == 8232 || c == 8233))

-- The lines of a text that a line feed ends, with it, and what follows the last line feed; `t` stands in
-- front of the text.
unfoldable pub cut_lines : Text → Text → List Text × Text
cut_lines t [] = ([], t)
cut_lines t (c ∷ s) =
    let ended = cut_lines [] s in
    let longer = cut_lines (t ++ c ∷ []) s in
    if c == 10 then ((t ++ c ∷ []) ∷ ended.0, ended.1) else longer

scan-cut_lines : (t s : Text) → scan t s ≡ cut_lines t (filter is_kept s)
unfolding scan cut_lines kind_of
scan-cut_lines t [] = refl
scan-cut_lines t (c ∷ s) = elim (Bool-cases (c == 10)) [
  | inl fed ↦
      rw (ap kind_of ((==_iff c 10).0 fed)) rw (ap is_kept ((==_iff c 10).0 fed)) rw fed rw
        (scan-cut_lines [] s) refl
  | inr other ↦ elim (Bool-cases (c == 13 || (c == 8232 || c == 8233))) [
    | inl dropped ↦ rw other rw dropped (scan-cut_lines t s)
    | inr kept ↦ rw other rw kept rw other (scan-cut_lines (t ++ c ∷ []) s)
  ]
]

-- However a log is cut into messages, a new buffer of a positive size holds the last of the complete lines
-- of the whole log, at most as many as its size, and as its tail what follows the last line feed. A line is
-- complete where a line feed ends it, and loses every carriage return, U+2028 and U+2029.
pub ingest_all_lem :
    (n : ℕ) (ss : List Text)
    → 0 < n
    → ((ingest_all (new_buffer n) ss).buffer
        ≡ last_n n (cut_lines [] (filter is_kept (joined ss))).0)
      × ((ingest_all (new_buffer n) ss).tail ≡ (cut_lines [] (filter is_kept (joined ss))).1)
unfolding new_buffer
ingest_all_lem n ss p = (
  ap (λ b. b.buffer) (ingest_all-scan (new_buffer n) ss)
      ∙ push_all_lem n [] (scan [] (joined ss)).0 p (omega arith)
      ∙ ap (λ r. last_n n r.0) (scan-cut_lines [] (joined ss)),
  ap (λ b. b.tail) (ingest_all-scan (new_buffer n) ss)
      ∙ ap (λ r. r.1) (scan-cut_lines [] (joined ss)),
)

-- Clearing keeps the line that is not complete, so it is in front of the first line that comes next.
pub ingest-clear :
    (b : LineBuffer) (line : Text)
    → all (λ c. not (c == 10 || (c == 13 || (c == 8232 || c == 8233)))) line ≡ true
    → (ingest (clear b) (line ++ 10 ∷ [])).0.buffer ≡ (b.tail ++ (line ++ 10 ∷ [])) ∷ []
unfolding ingest clear
ingest-clear b line h =
    ap (λ r. r.0.buffer) (ingest_lines-scan (clear b) (line ++ 10 ∷ []))
    ∙ ap (push_all b.max_size []) (scan-line b.tail line h)
    ∙ elim (Bool-cases (0 == b.max_size)) [
      | inl none_fit ↦ rw none_fit refl
      | inr fits ↦ rw fits refl
    ]
