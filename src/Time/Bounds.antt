-- ===== src/Time/Bounds.antt =====
-- The numbers in phrases for times and durations (frontend/public/components/utils/datetime.ts).
use web_ui.Base.{
  zero, suc, suc-ne-zero, ◌++◌, ℕ, ◌+◌, ◌*◌, ◌/◌, ◌%◌, ◌≤◌, ◌<◌, ◌≡◌, refl, Bool, true, false, ◌||◌,
  Option, none, some, leb, ◌==◌, ◌&&◌, if◌then◌else◌, arith,
}
use web_ui.Base.Decimal.{show}
use web_ui.Base.Text.{Text, codes, same_text}
use web_ui.Time.{
  Phrase, counted_ago, counted_from_now, ago, from_now_only, past_phrase, future_phrase,
  format_duration, duration_text, total_seconds,
}

abbrev pub count_of : Phrase → Option ℕ
count_of (counted_ago n unit) = some n
count_of (counted_from_now n unit) = some n
count_of (ago short long) = none
count_of (from_now_only long) = none

-- A count `k` of units of `d` milliseconds is within half a unit of `n`.
abbrev pub near : ℕ → ℕ → ℕ → Bool
near n d k = leb (2 * n) (2 * k * d + d) && leb (2 * k * d) (2 * n + d)

-- The words for a unit, with the least and the most that is counted in it.
abbrev pub counts_well : ℕ → Phrase → Bool
counts_well n (counted_ago k unit) =
    leb 2 k
    && (if same_text unit (codes "minutes")
        then leb k 45 && near n 60000 k
        else if same_text unit (codes "hours")
        then leb k 22 && near n 3600000 k
        else if same_text unit (codes "days")
        then leb k 26 && near n 86400000 k
        else if same_text unit (codes "months")
        then leb k 11 && near n 2592000000 k
        else same_text unit (codes "years") && near n 31536000000 k)
counts_well n _ = true

-- A phrase for the past that counts is in the plural and counts at least two, at most 45 minutes, 22 hours, 26
-- days or 11 months, and is within half of its unit of the time.
pub counts_well-past_phrase : (n : ℕ) → counts_well n (past_phrase n) ≡ true
unfolding past_phrase same_text
counts_well-past_phrase n = ground arith

abbrev pub is_one : Option ℕ → Bool
is_one none = false
is_one (some n) = n == 1

-- A phrase for the future says 1 minutes, hours, days or months just at one and a half of them.
pub is_one-future_phrase :
    (n : ℕ)
    → is_one (count_of (future_phrase n))
      ≡ (n == 90000 || (n == 5400000 || (n == 129600000 || n == 3888000000)))
unfolding future_phrase
is_one-future_phrase n = ground arith

-- Hours are written unless there are none, and minutes unless there are none and no hours either.
abbrev pub spelled : ℕ → ℕ → ℕ → Text
spelled zero zero s = show s ++ codes "s"
spelled zero (suc m) s = (show (suc m) ++ codes "m ") ++ (show s ++ codes "s")
spelled (suc h) m s =
    (show (suc h) ++ codes "h ") ++ ((show m ++ codes "m ") ++ (show s ++ codes "s"))

duration_text-spelled : (h m s : ℕ) → duration_text h m s ≡ spelled h m s
duration_text-spelled zero zero s = refl
duration_text-spelled zero (suc m) s = rw (suc-ne-zero m) refl
duration_text-spelled (suc h) m s = rw (suc-ne-zero h) refl

-- A duration is printed as hours, minutes below 60 and seconds below 60, which are together the
-- milliseconds rounded to seconds, half a second upwards; no hours are not printed, and no minutes only
-- where there are hours.
pub format_duration-parts :
    (ms : ℕ)
    → (h : ℕ) × (m : ℕ) × (s : ℕ) × (format_duration (some ms) ≡ spelled h m s)
      × (m < 60)
      × (s < 60)
      × (1000 * (3600 * h + 60 * m + s) ≤ ms + 500)
      × (ms < 1000 * (3600 * h + 60 * m + s) + 500)
unfolding format_duration
format_duration-parts ms = (
  total_seconds ms / 3600,
  total_seconds ms % 3600 / 60,
  total_seconds ms % 60,
  duration_text-spelled (total_seconds ms / 3600) (total_seconds ms % 3600 / 60)
      (total_seconds ms % 60),
  omega arith,
  omega arith,
  omega arith,
  omega arith,
)
