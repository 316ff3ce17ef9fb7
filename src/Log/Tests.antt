-- ===== src/Log/Tests.antt =====
-- Runs of a log, and its theorems at such runs.
use web_ui.Base.{filter, ◌≤◌, ◌≡◌, refl, false, List, [], ◌∷◌, ◌++◌, map, length, arith}
use web_ui.Base.Text.{Text, codes}
use web_ui.Base.Last.{last_n}
use web_ui.Log.Buffer.{
  kind_of, match_lines, LineBuffer, new_buffer, ingest_line, ingest_lines, ingest, clear,
}
use web_ui.Log.Lines.{cut_lines, is_kept, scan, joined, ingest_all, ingest_all_lem, ingest-clear}
use web_ui.Log.Stream.{
  running, waiting, ResourceLog, new_log, mount, derive_content, derive_status, update_status,
  on_close, on_error, clear_buffer, on_open, restart_stream, toggle_streaming, handle_scroll,
  on_text, on_message, receive_props, Event, closes, opens, toggle, message, props, handle, step,
  run,
}
use web_ui.Log.Behind.{IsShown, run-IsShown, run-toggle}
use web_ui.Log.Bounds.{length-run}

logs : Unit {0}
unfolding kind_of match_lines new_buffer ingest_line ingest_lines ingest clear scan ingest_all
    new_log mount derive_content derive_status update_status on_close on_error clear_buffer on_open
    restart_stream toggle_streaming handle_scroll on_text on_message receive_props handle step run
logs = tt

abbrev parts : List Text
parts =
    (codes "a" ++ 10 ∷ codes "b") ∷ (codes "c" ++ 13 ∷ 10 ∷ codes "d" ++ 10 ∷ []) ∷ codes "e" ∷ []

-- The carriage return is lost, the line in two parts is one.
kept_lines :
    ((ingest_all (new_buffer 2) parts).buffer
      ≡ (codes "bc" ++ 10 ∷ []) ∷ (codes "d" ++ 10 ∷ []) ∷ [])
    × ((ingest_all (new_buffer 2) parts).tail ≡ codes "e")
unfolding logs
kept_lines = (refl, refl)

ingest_all_lem_example :
    ((ingest_all (new_buffer 2) parts).buffer
      ≡ last_n 2 (cut_lines [] (filter is_kept (joined parts))).0)
    × ((ingest_all (new_buffer 2) parts).tail ≡ (cut_lines [] (filter is_kept (joined parts))).1)
ingest_all_lem_example = ingest_all_lem 2 parts (omega arith)

abbrev partial : LineBuffer
partial = record { max_size = 3; buffer = []; tail = codes "old" }

ingest-clear_example :
    (ingest (clear partial) (codes "new" ++ 10 ∷ [])).0.buffer
    ≡ (codes "old" ++ (codes "new" ++ 10 ∷ [])) ∷ []
ingest-clear_example = ingest-clear partial (codes "new") refl

abbrev same : Text → Text
same t = t

abbrev events : List Event
events =
    props false running
    ∷ opens
    ∷ message (codes "a" ++ 10 ∷ [])
    ∷ toggle
    ∷ message (codes "b" ++ 10 ∷ [])
    ∷ closes
    ∷ []

run-IsShown_example : IsShown (run same (mount 5 waiting) events)
run-IsShown_example = run-IsShown same 5 waiting events

length-run_example :
    (length (run same (mount 5 waiting) events).lines ≤ 5)
    × (length (run same (mount 5 waiting) events).lines_buffer.buffer ≤ 5)
length-run_example = length-run same 5 waiting events (omega arith)

abbrev opened : ResourceLog
opened = run same (mount 5 running) (opens ∷ message (codes "a" ++ 10 ∷ []) ∷ [])

run-toggle_example :
    ((run same opened (toggle ∷ map message ((codes "b" ++ 10 ∷ []) ∷ []))).content
      ≡ opened.content)
    × ((run same opened (toggle ∷ map message ((codes "b" ++ 10 ∷ []) ∷ []))).lines_behind
        ≡ length
            (scan opened.lines_buffer.tail (joined (map same ((codes "b" ++ 10 ∷ []) ∷ [])))).0)
    × ((step same
          (run same opened (toggle ∷ map message ((codes "b" ++ 10 ∷ []) ∷ [])))
          toggle).lines_behind
        ≡ 0)
    × ((step same
          (run same opened (toggle ∷ map message ((codes "b" ++ 10 ∷ []) ∷ [])))
          toggle).content
        ≡ joined (ingest_all opened.lines_buffer (map same ((codes "b" ++ 10 ∷ []) ∷ []))).buffer)
unfolding logs
run-toggle_example =
    run-toggle same opened (codes "b" ++ 10 ∷ []) []
      (run-IsShown same 5 running (opens ∷ message (codes "a" ++ 10 ∷ []) ∷ [])) refl refl
