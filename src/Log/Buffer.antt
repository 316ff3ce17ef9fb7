-- ===== src/Log/Buffer.antt =====
-- frontend/public/components/utils/line-buffer.ts
use web_ui.Base.{ℕ, ◌+◌, Bool, false, ◌||◌, List, [], ◌∷◌, ◌++◌, length, drop, ◌==◌, if◌then◌else◌}
use web_ui.Base.Text.{Text}

abbrev pub line_feed : ℕ
line_feed = 10

-- A line feed, another character that `.` does not match and that `^` and `$` are at (a carriage return,
-- U+2028 and U+2029), or any other one.
pub data CharKind : Type 0 where
  feed ending plain : CharKind

unfoldable pub kind_of : ℕ → CharKind
kind_of c =
    if c == line_feed then feed else if c == 13 || (c == 8232 || c == 8233) then ending else plain

abbrev pub by_kind {ℓ} : {A : Type ℓ} → CharKind → A → A → A → A
by_kind feed a b c = a
by_kind ending a b c = b
by_kind plain a b c = c

abbrev pub before_head : ℕ → List Text → List Text
before_head c [] = (c ∷ []) ∷ []
before_head c (l ∷ ls) = (c ∷ l) ∷ ls

-- `text.match(/^.*(\n|$)/gm)`: a match at each start of a line. Of the characters that end one only the line
-- feed is part of a match.
unfoldable pub match_lines : Text → List Text
match_lines [] = [] ∷ []
match_lines (c ∷ s) =
    let rest = match_lines s in
    by_kind (kind_of c) ((c ∷ []) ∷ rest) ([] ∷ rest) (before_head c rest)

-- `/\n$/.test(line)`
abbrev pub ends_in_feed : Text → Bool
ends_in_feed [] = false
ends_in_feed (c ∷ []) = c == line_feed
ends_in_feed (c ∷ d ∷ s) = ends_in_feed (d ∷ s)

pub record LineBuffer : Type 0 where
  pub max_size : ℕ
  pub buffer : List Text
  pub tail : Text

unfoldable pub new_buffer : ℕ → LineBuffer
new_buffer n = record { max_size = n; buffer = []; tail = [] }

-- `shift` of a full buffer and `push`
abbrev pub push : ℕ → List Text → Text → List Text
push n ls l = (if length ls == n then drop 1 ls else ls) ++ l ∷ []

unfoldable pub ingest_line : LineBuffer → Text → LineBuffer × ℕ
ingest_line b line =
    if ends_in_feed line
    then (
      record {
        max_size = b.max_size;
        buffer = push b.max_size b.buffer (b.tail ++ line);
        tail = [];
      },
      1,
    )
    else (record { max_size = b.max_size; buffer = b.buffer; tail = b.tail ++ line }, 0)

unfoldable pub ingest_lines : LineBuffer → List Text → LineBuffer × ℕ
ingest_lines b [] = (b, 0)
ingest_lines b (l ∷ ls) =
    let one = ingest_line b l in let rest = ingest_lines one.0 ls in (rest.0, one.1 + rest.1)

-- With the number of lines that were completed.
unfoldable pub ingest : LineBuffer → Text → LineBuffer × ℕ
ingest b text = ingest_lines b (match_lines text)

unfoldable pub clear : LineBuffer → LineBuffer
clear b = record { max_size = b.max_size; buffer = []; tail = b.tail }
