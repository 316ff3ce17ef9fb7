-- ===== src/Log/Behind.antt =====
-- What the window of a log shows and counts (frontend/public/components/utils/resource-log.jsx and
-- log-window.jsx there).
use web_ui.Base.{
  ℕ, ◌+◌, ◌≡◌, refl, sym, ap, ◌∙◌, subst, Bool, true, false, ◌&&◌, ◌||◌, not, List, [], ◌∷◌, ◌++◌,
  map, null, length, all, length-append, if◌then◌else◌, Bool-cases, inl, inr, arith,
}
use mathlib.Core.Bool.{true≢false}
use web_ui.Base.Text.{Text}
use web_ui.Log.Buffer.{LineBuffer, ingest}
use web_ui.Log.Lines.{joined, scan, ingest_all, ingest_lines-scan, scan-append}
use web_ui.Log.Stream.{
  Status, eof, loading, paused, active, Source, is_active, is_paused, is_eof, is_waiting,
  ResourceLog, new_log, mount, derive_content, derive_status, update_status, on_close, on_error,
  clear_buffer, on_open, restart_stream, toggle_streaming, handle_scroll, on_text, on_message,
  receive_props, Event, closes, fails, opens, retry, toggle, message, scroll, props, handle, step,
  run,
}

-- Nothing is behind while the stream is active, and what is shown while it is not paused are the lines.
pub record IsShown (s : ResourceLog) : Type 0 where
  pub nothing_behind : is_active s.status ≡ true → s.lines_behind ≡ 0
  pub all_shown : is_paused s.status ≡ false → s.content ≡ joined s.lines

abbrev NothingBehind : ResourceLog → Type 0
NothingBehind s = is_active s.status ≡ true → s.lines_behind ≡ 0

update_status-NothingBehind :
    (n : Status) (s : ResourceLog) → NothingBehind s → NothingBehind (update_status n s)
unfolding update_status
update_status-NothingBehind n s h e = rw e (elim (Bool-cases (is_active s.status)) [
  | inl now ↦ rw now (h now)
  | inr other ↦ rw other refl
])

either-NothingBehind :
    (b : Bool) (s t : ResourceLog)
    → NothingBehind s
    → NothingBehind t
    → NothingBehind (if b then s else t)
either-NothingBehind true s t h k = h
either-NothingBehind false s t h k = k

on_text-NothingBehind :
    (decode : Text → Text) (text : Text) (s : ResourceLog)
    → NothingBehind s
    → NothingBehind (on_text decode text s)
unfolding on_text
on_text-NothingBehind decode text s h e = rw (active_unpaused s.status e) (h e)
  where
    active_unpaused : (x : Status) → is_active x ≡ true → is_paused x ≡ false
    active_unpaused active e = refl
    active_unpaused paused e = sym e
    active_unpaused eof e = refl
    active_unpaused loading e = refl

restart_stream-NothingBehind : (s : ResourceLog) → NothingBehind (restart_stream s)
unfolding restart_stream
restart_stream-NothingBehind s e = refl

handle-NothingBehind :
    (decode : Text → Text) (s : ResourceLog) (e : Event)
    → NothingBehind s
    → NothingBehind (handle decode s e)
unfolding handle on_close on_error on_open clear_buffer toggle_streaming handle_scroll on_message
    receive_props derive_status
handle-NothingBehind decode s closes h = λ e. absurd (true≢false (sym e))
handle-NothingBehind decode s fails h = h
handle-NothingBehind decode s opens h = update_status-NothingBehind active (clear_buffer s) h
handle-NothingBehind decode s retry h = restart_stream-NothingBehind s
handle-NothingBehind decode s toggle h =
    update_status-NothingBehind (if is_active s.status then paused else active) s h
handle-NothingBehind decode s (message msg) h =
    either-NothingBehind (null msg) s (on_text decode (decode msg) s) h
      (on_text-NothingBehind decode (decode msg) s h)
handle-NothingBehind decode s (scroll below) h = either-NothingBehind (is_eof s.status) s _ h (
    either-NothingBehind below _ (update_status active s)
      (either-NothingBehind (not (is_paused s.status)) (update_status paused s) s
        (update_status-NothingBehind paused s h) h)
      (update_status-NothingBehind active s h))
handle-NothingBehind decode s (props changed next) h =
    either-NothingBehind (changed || (is_waiting s.resource_status && not (is_waiting next)))
      (restart_stream (derive_status next s)) (derive_status next s)
      (restart_stream-NothingBehind (derive_status next s)) h

derive_content-IsShown : (s : ResourceLog) → NothingBehind s → IsShown (derive_content s)
unfolding derive_content
derive_content-IsShown s h = record { nothing_behind = h; all_shown = λ e. rw e refl }

mount-IsShown : (size : ℕ) (source : Source) → IsShown (mount size source)
unfolding mount new_log derive_status
mount-IsShown size source = record { nothing_behind = λ e. refl; all_shown = λ e. refl }

run_keeps :
    (decode : Text → Text) (s : ResourceLog) (es : List Event)
    → IsShown s
    → IsShown (run decode s es)
unfolding run step
run_keeps decode s [] v = v
run_keeps decode s (e ∷ es) v =
    run_keeps decode (step decode s e) es (
      derive_content-IsShown (handle decode s e) (handle-NothingBehind decode s e v.nothing_behind))

-- Whatever happens to a log, no line is behind while its stream is active, and while it is not paused the
-- window shows all of its lines.
pub run-IsShown :
    (decode : Text → Text) (size : ℕ) (source : Source) (es : List Event)
    → IsShown (run decode (mount size source) es)
run-IsShown decode size source es =
    run_keeps decode (mount size source) es (mount-IsShown size source)

-- A paused log takes messages.
record Waits (s t : ResourceLog) (texts : List Text) : Type 0 where
  still_paused : t.status ≡ paused
  same_content : t.content ≡ s.content
  lines_match : s.lines ≡ s.lines_buffer.buffer → t.lines ≡ t.lines_buffer.buffer
  lines_new : null texts ≡ false → t.lines ≡ t.lines_buffer.buffer
  lines_kept : t.lines_buffer ≡ ingest_all s.lines_buffer texts
  counted : t.lines_behind ≡ s.lines_behind + length (scan s.lines_buffer.tail (joined texts)).0

-- A log with a text taken in while it is paused.
abbrev taken : ResourceLog → Text → ResourceLog
taken s text = record {
  lines_buffer = (ingest s.lines_buffer text).0;
  error = s.error;
  lines = (ingest s.lines_buffer text).0.buffer;
  lines_behind = s.lines_behind + (ingest s.lines_buffer text).1;
  resource_status = s.resource_status;
  stale = s.stale;
  status = s.status;
  connected = s.connected;
  content = s.content;
}

step-taken :
    (decode : Text → Text) (s : ResourceLog) (m : Text)
    → is_paused s.status ≡ true
    → null m ≡ false
    → step decode s (message m) ≡ taken s (decode m)
unfolding step handle on_message on_text derive_content
step-taken decode s m p e = rw e (rw p refl)

length-scan :
    (b : LineBuffer) (text rest : Text)
    → length (scan b.tail (text ++ rest)).0
      ≡ (ingest b text).1 + length (scan (ingest b text).0.tail rest).0
unfolding ingest
length-scan b text rest =
    ap (λ r. length r.0) (scan-append b.tail text rest)
    ∙ length-append (scan b.tail text).0 (scan (scan b.tail text).1 rest).0
    ∙ sym (ap (λ r. r.1 + length (scan r.0.tail rest).0) (ingest_lines-scan b text))

run-Waits :
    (decode : Text → Text) (s : ResourceLog) (ms : List Text)
    → s.status ≡ paused
    → all (λ m. not (null m)) ms ≡ true
    → Waits s (run decode s (map message ms)) (map decode ms)
unfolding run ingest_all scan
run-Waits decode s [] p h = record {
  still_paused = p;
  same_content = refl;
  lines_kept = refl;
  lines_match = λ e. e;
  lines_new = λ e. absurd (true≢false e);
  counted = omega arith;
}
run-Waits decode s (m ∷ ms) p h =
    let later : Waits (taken s (decode m)) (run decode (taken s (decode m)) (map message ms))
        (map decode ms) =
      run-Waits decode (taken s (decode m)) ms p (ground (arith, h)) in
    subst (λ t. Waits s (run decode t (map message ms)) (map decode (m ∷ ms)))
      (sym (step-taken decode s m (ap is_paused p) (ground (arith, h))))
      record {
        still_paused = later.still_paused;
        same_content = later.same_content;
        lines_kept = later.lines_kept;
        lines_match = λ e. later.lines_match refl;
        lines_new = λ e. later.lines_match refl;
        counted =
            omega (
              arith,
              later.counted,
              length-scan s.lines_buffer (decode m) (joined (map decode ms)),
            );
      }

-- An active stream that is paused.
abbrev paused_log : ResourceLog → ResourceLog
paused_log s = record {
  lines_buffer = s.lines_buffer;
  error = s.error;
  lines = s.lines;
  lines_behind = s.lines_behind;
  resource_status = s.resource_status;
  stale = s.stale;
  status = paused;
  connected = s.connected;
  content = s.content;
}

step-pause :
    (decode : Text → Text) (s : ResourceLog)
    → is_active s.status ≡ true
    → step decode s toggle ≡ paused_log s
unfolding step handle toggle_streaming update_status derive_content
step-pause decode s e = rw e refl

step-resume :
    (decode : Text → Text) (t : ResourceLog)
    → t.status ≡ paused
    → ((step decode t toggle).lines_behind ≡ 0) × ((step decode t toggle).content ≡ joined t.lines)
unfolding step handle toggle_streaming update_status derive_content
step-resume decode t p = rw (ap is_active p) (refl, refl)

-- While an active log is paused its window stays as it was, and the lines behind are counted: as many as
-- the messages complete. Resumed, it shows the lines that its buffer keeps of them all, and none is behind.
pub run-toggle :
    (decode : Text → Text) (s : ResourceLog) (m : Text) (ms : List Text)
    → IsShown s
    → is_active s.status ≡ true
    → all (λ m. not (null m)) (m ∷ ms) ≡ true
    → ((run decode s (toggle ∷ map message (m ∷ ms))).content ≡ s.content)
      × ((run decode s (toggle ∷ map message (m ∷ ms))).lines_behind
          ≡ length (scan s.lines_buffer.tail (joined (map decode (m ∷ ms)))).0)
      × ((step decode (run decode s (toggle ∷ map message (m ∷ ms))) toggle).lines_behind ≡ 0)
      × ((step decode (run decode s (toggle ∷ map message (m ∷ ms))) toggle).content
          ≡ joined (ingest_all s.lines_buffer (map decode (m ∷ ms))).buffer)
unfolding run
run-toggle decode s m ms v now h =
    let stopped : ResourceLog = paused_log s in
    let w : Waits stopped (run decode stopped (map message (m ∷ ms))) (map decode (m ∷ ms)) =
      run-Waits decode stopped (m ∷ ms) refl h in
    let resumed : ((step decode (run decode stopped (map message (m ∷ ms))) toggle).lines_behind
          ≡ 0)
        × ((step decode (run decode stopped (map message (m ∷ ms))) toggle).content
            ≡ joined (run decode stopped (map message (m ∷ ms))).lines) =
      step-resume decode (run decode stopped (map message (m ∷ ms))) w.still_paused in
    subst
      (λ p.
        ((run decode p (map message (m ∷ ms))).content ≡ s.content)
        × ((run decode p (map message (m ∷ ms))).lines_behind
            ≡ length (scan s.lines_buffer.tail (joined (map decode (m ∷ ms)))).0)
        × ((step decode (run decode p (map message (m ∷ ms))) toggle).lines_behind ≡ 0)
        × ((step decode (run decode p (map message (m ∷ ms))) toggle).content
            ≡ joined (ingest_all s.lines_buffer (map decode (m ∷ ms))).buffer))
      (sym (step-pause decode s now))
      (
        w.same_content,
        omega (arith, w.counted, v.nothing_behind now),
        resumed.0,
        resumed.1 ∙ ap joined (w.lines_new refl ∙ ap (λ b. b.buffer) w.lines_kept),
      )
