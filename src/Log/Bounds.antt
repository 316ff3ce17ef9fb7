-- ===== src/Log/Bounds.antt =====
-- The lines of a log are bounded (frontend/public/components/utils/resource-log.jsx, line-buffer.ts there).
use web_ui.Base.{
  ℕ, ◌≤◌, ◌<◌, ◌≡◌, refl, ◌∙◌, subst, Bool, true, false, ◌&&◌, ◌||◌, not, List, [], ◌∷◌, null,
  length, if◌then◌else◌, arith,
}
use web_ui.Base.Text.{Text}
use web_ui.Log.Buffer.{new_buffer, ingest, clear}
use web_ui.Log.Lines.{length-ingest, max_size-ingest}
use web_ui.Log.Stream.{
  Status, paused, active, Source, is_active, is_paused, is_eof, is_waiting, ResourceLog, new_log,
  mount, derive_content, derive_status, update_status, on_close, on_error, clear_buffer, on_open,
  restart_stream, toggle_streaming, handle_scroll, on_text, on_message, receive_props, Event,
  closes, fails, opens, retry, toggle, message, scroll, props, handle, step, run,
}

record Fits (n : ℕ) (s : ResourceLog) : Type 0 where
  size : s.lines_buffer.max_size ≡ n
  kept : length s.lines_buffer.buffer ≤ n
  shown : length s.lines ≤ n

either-Fits :
    (n : ℕ) (b : Bool) (s t : ResourceLog) → Fits n s → Fits n t → Fits n (if b then s else t)
either-Fits n true s t h k = h
either-Fits n false s t h k = k

update_status-Fits : (n : ℕ) (x : Status) (s : ResourceLog) → Fits n s → Fits n (update_status x s)
unfolding update_status
update_status-Fits n x s f = record { size = f.size; kept = f.kept; shown = f.shown }

restart_stream-Fits : (n : ℕ) (s : ResourceLog) → Fits n s → Fits n (restart_stream s)
unfolding restart_stream
restart_stream-Fits n s f = record { size = f.size; kept = f.kept; shown = omega arith }

derive_status-Fits :
    (n : ℕ) (next : Source) (s : ResourceLog) → Fits n s → Fits n (derive_status next s)
unfolding derive_status
derive_status-Fits n next s f = record { size = f.size; kept = f.kept; shown = f.shown }

clear_buffer-Fits : (n : ℕ) (s : ResourceLog) → Fits n s → Fits n (clear_buffer s)
unfolding clear_buffer clear
clear_buffer-Fits n s f = record { size = f.size; kept = omega arith; shown = f.shown }

on_text-Fits :
    (decode : Text → Text) (n : ℕ) (text : Text) (s : ResourceLog)
    → 0 < n
    → Fits n s
    → Fits n (on_text decode text s)
unfolding on_text
on_text-Fits decode n text s p f =
    let fits : length (ingest s.lines_buffer text).0.buffer ≤ n =
      subst (λ k. length (ingest s.lines_buffer text).0.buffer ≤ k) f.size
        (length-ingest s.lines_buffer text (omega (arith, p, f.size))
          (omega (arith, f.kept, f.size))) in
    record { size = max_size-ingest s.lines_buffer text ∙ f.size; kept = fits; shown = fits }

handle-Fits :
    (decode : Text → Text) (n : ℕ) (s : ResourceLog) (e : Event)
    → 0 < n
    → Fits n s
    → Fits n (handle decode s e)
unfolding handle on_close on_error on_open toggle_streaming handle_scroll on_message receive_props
handle-Fits decode n s closes p f = record { size = f.size; kept = f.kept; shown = f.shown }
handle-Fits decode n s fails p f = record { size = f.size; kept = f.kept; shown = f.shown }
handle-Fits decode n s opens p f =
    update_status-Fits n active (clear_buffer s) (clear_buffer-Fits n s f)
handle-Fits decode n s retry p f = restart_stream-Fits n s f
handle-Fits decode n s toggle p f =
    update_status-Fits n (if is_active s.status then paused else active) s f
handle-Fits decode n s (message msg) p f =
    either-Fits n (null msg) s (on_text decode (decode msg) s) f
      (on_text-Fits decode n (decode msg) s p f)
handle-Fits decode n s (scroll below) p f = either-Fits n (is_eof s.status) s _ f (
    either-Fits n below _ (update_status active s)
      (either-Fits n (not (is_paused s.status)) (update_status paused s) s
        (update_status-Fits n paused s f) f)
      (update_status-Fits n active s f))
handle-Fits decode n s (props changed next) p f =
    either-Fits n (changed || (is_waiting s.resource_status && not (is_waiting next)))
      (restart_stream (derive_status next s)) (derive_status next s)
      (restart_stream-Fits n (derive_status next s) (derive_status-Fits n next s f))
      (derive_status-Fits n next s f)

derive_content-Fits : (n : ℕ) (s : ResourceLog) → Fits n s → Fits n (derive_content s)
unfolding derive_content
derive_content-Fits n s f = record { size = f.size; kept = f.kept; shown = f.shown }

run-Fits :
    (decode : Text → Text) (n : ℕ) (s : ResourceLog) (es : List Event)
    → 0 < n
    → Fits n s
    → Fits n (run decode s es)
unfolding run step
run-Fits decode n s [] p f = f
run-Fits decode n s (e ∷ es) p f =
    run-Fits decode n (step decode s e) es p
      (derive_content-Fits n (handle decode s e) (handle-Fits decode n s e p f))

mount-Fits : (n : ℕ) (source : Source) → Fits n (mount n source)
unfolding mount new_log new_buffer derive_status
mount-Fits n source = record { size = refl; kept = omega arith; shown = omega arith }

-- A log of a positive size never holds or shows more lines than its size.
pub length-run :
    (decode : Text → Text) (n : ℕ) (source : Source) (es : List Event)
    → 0 < n
    → (length (run decode (mount n source) es).lines ≤ n)
      × (length (run decode (mount n source) es).lines_buffer.buffer ≤ n)
length-run decode n source es p =
    let f : Fits n (run decode (mount n source) es) =
      run-Fits decode n (mount n source) es p (mount-Fits n source) in
    (f.shown, f.kept)
