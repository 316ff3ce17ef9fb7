-- ===== src/Time.antt =====
-- frontend/public/components/utils/datetime.ts, and formatBuildDuration of
-- frontend/public/module/k8s/builds.ts.
use web_ui.Base.{
  ℕ, ◌+◌, ◌-◌, ◌*◌, ◌/◌, ◌%◌, Bool, true, false, ◌||◌, not, Option, none, some, is_some, List, [],
  ◌∷◌, ◌++◌, ltb, ◌==◌, if◌then◌else◌,
}
use web_ui.Base.Text.{Text, codes}
use web_ui.Base.Decimal.{show}
pub mod Bounds
mod Tests

-- The milliseconds from a time to now, or from now to a later time. Quotients are exact, as those of the
-- numbers of the language are where they meet a limit.
pub data Offset : Type 0 where
  past future : ℕ → Offset

-- What is said of it: a number of units, with `ago` or `from now`, or a phrase that is shorter without
-- its suffix.
pub data Phrase : Type 0 where
  counted_ago counted_from_now : ℕ → Text → Phrase
  ago : Text → Text → Phrase
  from_now_only : Text → Phrase

-- `Math.round` of a quotient, and its opposite for a negative one: a half is rounded up.
abbrev pub round_quotient : ℕ → ℕ → ℕ
round_quotient n d = (2 * n + d) / (2 * d)

abbrev pub round_negative : ℕ → ℕ → ℕ
round_negative n d = (2 * n + d - 1) / (2 * d)

unfoldable pub past_phrase : ℕ → Phrase
past_phrase n =
    if ltb 47347200000 n
    then counted_ago (round_quotient n 31536000000) (codes "years")
    else if ltb 27648000000 n
    then ago (codes "year") (codes "a year ago")
    else if ltb 3888000000 n
    then counted_ago (round_quotient n 2592000000) (codes "months")
    else if ltb 2246400000 n
    then ago (codes "month") (codes "a month ago")
    else if ltb 129600000 n
    then counted_ago (round_quotient n 86400000) (codes "days")
    else if ltb 79200000 n
    then ago (codes "day") (codes "a day ago")
    else if ltb 5400000 n
    then counted_ago (round_quotient n 3600000) (codes "hours")
    else if ltb 2700000 n
    then ago (codes "hour") (codes "an hour ago")
    else if ltb 90000 n
    then counted_ago (round_quotient n 60000) (codes "minutes")
    else if ltb 45000 n
    then ago (codes "minute") (codes "a minute ago")
    else if ltb 15000 n
    then ago (codes "few seconds") (codes "less than a minute ago")
    else ago (codes "few seconds") (codes "a few seconds ago")

unfoldable pub future_phrase : ℕ → Phrase
future_phrase n =
    if ltb n 45000
    then from_now_only (codes "a few seconds from now")
    else if ltb n 90000
    then from_now_only (codes "a minute from now")
    else if ltb n 2700000
    then counted_from_now (round_negative n 60000) (codes "minutes")
    else if ltb n 5400000
    then from_now_only (codes "an hour from now")
    else if ltb n 79200000
    then counted_from_now (round_negative n 3600000) (codes "hours")
    else if ltb n 129600000
    then from_now_only (codes "a day from now")
    else if ltb n 2246400000
    then counted_from_now (round_negative n 86400000) (codes "days")
    else if ltb n 3888000000
    then from_now_only (codes "a month from now")
    else if ltb n 27648000000
    then counted_from_now (round_negative n 2592000000) (codes "months")
    else if ltb n 50112000000
    then from_now_only (codes "a year from now")
    else counted_from_now (round_negative n 31536000000) (codes "years")

unfoldable pub phrase_text : Bool → Phrase → Text
phrase_text omit_suffix (counted_ago n unit) =
    if omit_suffix then show n ++ b' ' ∷ unit else show n ++ b' ' ∷ (unit ++ codes " ago")
phrase_text omit_suffix (counted_from_now n unit) = show n ++ b' ' ∷ (unit ++ codes " from now")
phrase_text omit_suffix (ago short long) = if omit_suffix then short else long
phrase_text omit_suffix (from_now_only long) = long

unfoldable pub from_now : Bool → Offset → Text
from_now omit_suffix (past n) = phrase_text omit_suffix (past_phrase n)
from_now omit_suffix (future n) = phrase_text omit_suffix (future_phrase n)

abbrev pub duration_text : ℕ → ℕ → ℕ → Text
duration_text hours minutes seconds =
    (if not (hours == 0) then show hours ++ codes "h " else [])
    ++ ((if not (hours == 0) || not (minutes == 0) then show minutes ++ codes "m " else [])
        ++ (show seconds ++ codes "s"))

abbrev pub total_seconds : ℕ → ℕ
total_seconds ms = round_quotient ms 1000

-- The milliseconds; `none` stands for a number that is not finite, or negative.
unfoldable pub format_duration : Option ℕ → Text
format_duration none = []
format_duration (some ms) =
    duration_text (total_seconds ms / 3600) (total_seconds ms % 3600 / 60) (total_seconds ms % 60)

-- A build with whether it has a time of completion, and its duration in nanoseconds.
pub record Build : Type 0 where
  pub completed : Bool
  pub duration : Option ℕ

unfoldable pub is_finished : Build → Bool
is_finished b = b.completed

abbrev pub to_milliseconds : Option ℕ → Option ℕ
to_milliseconds none = none
to_milliseconds (some n) = some (n / 1000000)

-- A duration that is not a number gives the empty text, as it does there.
unfoldable pub format_build_duration : Build → Text
unfolding is_finished format_duration
format_build_duration b =
    if not (is_finished b) then [] else format_duration (to_milliseconds b.duration)
