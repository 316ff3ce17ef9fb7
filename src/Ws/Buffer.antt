-- ===== src/Ws/Buffer.antt =====
-- What buffering and flushing deliver (frontend/public/module/ws-factory.js, `_triggerEvent` and
-- `flushMessageBuffer`).
use web_ui.Base.{
  suc-ne-zero, ℕ, zero, suc, ◌+◌, ◌-◌, ◌≤◌, ◌<◌, ◌≡◌, ◌∙◌, ap, sym, true, false, List, [], ◌∷◌,
  ◌++◌, map, append_assoc, append-nil, arith, length, length-append, ltb, if◌then◌else◌, Bool-cases,
  inl, inr,
}
use web_ui.Base.Last.{last_n, last_n-append, last_n-all, length-last_n, drop-eq, drop-nil}
use web_ui.Ws.Defs.{
  is_destroyed, EventType, on_message, on_bulkmessage, message, bulk, Call, Ws, trigger_message,
  buffer_message, shift_over, invoke_handlers, invoke_each, flush_message_buffer, pause, unpause,
}

module _ {D : Type 0} where
  shift_over-last_n : (n : ℕ) (ds : List D) → length ds ≤ n + 1 → shift_over n ds ≡ last_n n ds
  unfolding last_n
  shift_over-last_n n [] h = sym (drop-nil (0 - n))
  shift_over-last_n n (d ∷ ds) h = elim (Bool-cases (ltb n (length (d ∷ ds)))) [
    | inl over ↦ rw over (sym (drop-eq (length (d ∷ ds) - n) (suc zero) (d ∷ ds) (ground arith)))
    | inr fits ↦ rw fits (sym (drop-eq (length (d ∷ ds) - n) 0 (d ∷ ds) (ground arith)))
  ]

module _ {H D : Type 0} where
  -- A burst of message events.
  pub receive : List D → Ws H D → Ws H D
  receive [] s = s
  receive (d ∷ ds) s = receive ds (trigger_message d s)

  -- The state with another buffer.
  abbrev buffered : Ws H D → List D → Ws H D
  buffered s ds = record s { message_buffer = ds }

  trigger_message_lem :
      (d : D) (s : Ws H D)
      → is_destroyed s.state ≡ false
      → 0 < s.buffer_max
      → length s.message_buffer ≤ s.buffer_max
      → trigger_message d s ≡ buffered s (last_n s.buffer_max (s.message_buffer ++ d ∷ []))
  unfolding trigger_message buffer_message
  trigger_message_lem d s live on fits =
      let size = length-append s.message_buffer (d ∷ []) in
      let on' : ltb 0 s.buffer_max ≡ true = ground arith in
      rw (live, on')
        (ap (buffered s)
          (shift_over-last_n s.buffer_max (s.message_buffer ++ d ∷ []) (omega (arith, size))))

  receive_lem :
      (ds : List D) (s : Ws H D)
      → is_destroyed s.state ≡ false
      → 0 < s.buffer_max
      → length s.message_buffer ≤ s.buffer_max
      → receive ds s ≡ buffered s (last_n s.buffer_max (s.message_buffer ++ ds))
  unfolding receive
  receive_lem [] s live on fits =
      ap (buffered s) (sym (ap (last_n s.buffer_max) (append-nil _) ∙ last_n-all _ _ fits))
  receive_lem (d ∷ ds) s live on fits =
      let most = s.buffer_max in
      let kept = last_n most (s.message_buffer ++ d ∷ []) in
      ap (receive ds) (trigger_message_lem d s live on fits)
      ∙ receive_lem ds (buffered s kept) live on (length-last_n most (s.message_buffer ++ d ∷ []))
      ∙ ap (buffered s) (
          last_n-append most (s.message_buffer ++ d ∷ []) ds
          ∙ ap (last_n most) (append_assoc s.message_buffer (d ∷ []) ds))

  -- One message to each message handler, message by message.
  each_delivery : (EventType → List H) → List D → List (Call H D)
  each_delivery hs [] = []
  each_delivery hs (d ∷ ds) =
      map (λ h. record { type = on_message; handler = h; payload = message d }) (hs on_message)
      ++ each_delivery hs ds

  -- What a flush owes its handlers: nothing for an empty buffer, the whole buffer to each bulk
  -- handler, or, where there is none, each message to each message handler.
  pub deliveries : (EventType → List H) → List D → List (Call H D)
  unfolding each_delivery
  deliveries hs [] = []
  deliveries hs (d ∷ ds) =
      if ltb 0 (length (hs on_bulkmessage))
      then map (λ h. record { type = on_bulkmessage; handler = h; payload = bulk (d ∷ ds) })
          (hs on_bulkmessage)
      else each_delivery hs (d ∷ ds)

  -- The state after more calls.
  abbrev called : Ws H D → List (Call H D) → Ws H D
  called s cs = record s { calls = s.calls ++ cs }

  invoke_each_lem :
      (ds : List D) (s : Ws H D) → invoke_each ds s ≡ called s (each_delivery s.handlers ds)
  unfolding invoke_each each_delivery invoke_handlers
  invoke_each_lem [] s = ap (λ cs. record s { calls = cs }) (sym (append-nil s.calls))
  invoke_each_lem (d ∷ ds) s =
      invoke_each_lem ds _ ∙ ap (λ cs. record s { calls = cs }) (append_assoc s.calls _ _)

  abbrev unpaused : Ws H D → List D → Ws H D
  unpaused s ds = record s { paused = false; message_buffer = ds }

  flush_unpaused :
      (ds : List D) (s : Ws H D)
      → flush_message_buffer (unpaused s ds) ≡ called (unpaused s []) (deliveries s.handlers ds)
  unfolding flush_message_buffer deliveries invoke_handlers
  flush_unpaused [] s = rw append-nil
  flush_unpaused (d ∷ ds) s = elim (Bool-cases (ltb 0 (length (s.handlers on_bulkmessage)))) [
    | inl some_bulk ↦ rw (suc-ne-zero (length ds), some_bulk)
    | inr no_bulk ↦
        rw (suc-ne-zero (length ds), no_bulk)
          (ap (λ t. buffered t []) (invoke_each_lem (d ∷ ds) (unpaused s (d ∷ ds))))
  ]

-- A live object with a buffer is paused, receives any messages, has its interval fire, and is
-- unpaused. Until the last step nothing is delivered, and it holds the last `bufferMax` of the messages
-- that it held and received; the last step delivers exactly these, in order and each once, and empties
-- its buffer. Nothing else changes.
pub unpause-flush-receive-pause :
    {H D : Type 0} (ds : List D) (s : Ws H D)
    → is_destroyed s.state ≡ false
    → 0 < s.buffer_max
    → length s.message_buffer ≤ s.buffer_max
    → (flush_message_buffer (receive ds (pause s))
        ≡ record s { paused = true; message_buffer = last_n s.buffer_max (s.message_buffer ++ ds) })
      × (unpause (flush_message_buffer (receive ds (pause s))) ≡ record s {
        paused = false;
        message_buffer = [];
        calls = s.calls ++ deliveries s.handlers (last_n s.buffer_max (s.message_buffer ++ ds));
      })
unfolding unpause pause flush_message_buffer
unpause-flush-receive-pause ds s live on fits = (
  ap flush_message_buffer (receive_lem ds (pause s) live on fits),
  ap (λ t. unpause (flush_message_buffer t)) (receive_lem ds (pause s) live on fits)
      ∙ flush_unpaused (last_n s.buffer_max (s.message_buffer ++ ds)) s,
)
