-- ===== src/Time/Tests.antt =====
-- Times and durations, and the theorems at them.
use web_ui.Base.{ℕ, ◌+◌, ◌*◌, ◌≤◌, ◌<◌, ◌≡◌, refl, true, false, some}
use web_ui.Base.Text.{codes}
use web_ui.Base.Decimal.{show, show_from}
use web_ui.Time.{
  past, future, past_phrase, future_phrase, phrase_text, from_now, is_finished, format_duration,
  format_build_duration,
}
use web_ui.Time.Bounds.{spelled, format_duration-parts}

times : Unit {0}
unfolding past_phrase future_phrase phrase_text from_now is_finished format_duration
    format_build_duration
times = tt

phrases :
    (from_now false (past 7200000) ≡ codes "2 hours ago")
    × (from_now true (past 30000) ≡ codes "few seconds")
    × (from_now false (future 90000) ≡ codes "1 minutes from now")
unfolding times show show_from
phrases = (refl, refl, refl)

durations :
    (format_duration (some 4223000) ≡ codes "1h 10m 23s")
    × (format_duration (some 1500) ≡ codes "2s")
unfolding times show show_from
durations = (refl, refl)

format_duration-parts_example :
    (h : ℕ) × (m : ℕ) × (s : ℕ) × (format_duration (some 4223400) ≡ spelled h m s)
    × (m < 60)
    × (s < 60)
    × (1000 * (3600 * h + 60 * m + s) ≤ 4223400 + 500)
    × (4223400 < 1000 * (3600 * h + 60 * m + s) + 500)
format_duration-parts_example = format_duration-parts 4223400
