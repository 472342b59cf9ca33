-- ===== src/Serial/Capture/Transparent.antt =====
-- That the tracing port of internal/serial/capture.go answers as the port that it traces.
use rover_mems_ecu.Base.{
  ℕ, ◌+◌, ◌++◌, ◌-◌, ◌≡◌, refl, ap, ◌∙◌, both, String, List, [], ◌∷◌, append-nil, Option, none,
  some, leb,
}
use rover_mems_ecu.Serial.Port.{
  PortError, Port, Call, read_into, write_bytes, set_timeout, break_line, close_port, closed, call,
  calls,
}
use rover_mems_ecu.Serial.Capture.{
  Detail, close_line, Entry, line, join, keep_error, put, settle, print, write_out, Captured,
  FileErrors, flush_interval, event, event_error, tick, since, trace_read, flush, capture,
}

-- Files that write and close without an error.
abbrev pub good_file : FileErrors
good_file = record { overflow_error = λ n. none; flush_error = λ n. none; close_error = none }

no_error : (o : Option PortError) → o ≡ none → keep_error o none ≡ none
no_error o h = ap (λ e. keep_error e none) h

module _ {S : Type 0} where
  -- The traced port is in this state, and its writer has no error.
  abbrev Works : S → Captured S → Type 0
  Works s c = (c.inner ≡ s) × (c.failed ≡ none)

  put-Works :
      (entry : Entry) (o : Option PortError) (c : Captured S)
      → o ≡ none
      → Works c.inner (put entry o c)
  unfolding put
  put-Works entry none c h = (refl, refl)
  put-Works entry (some e) c h = (refl, h)

  settle-Works : (o : Option PortError) (c : Captured S) → o ≡ none → Works c.inner (settle o c)
  unfolding settle
  settle-Works none c h = (refl, refl)
  settle-Works (some e) c h = (refl, h)

module _ {S : Type 0} (clock : ℕ → ℕ) where
  write_out-Works : (s : S) (c : Captured S) → Works s c → Works s (write_out clock good_file c)
  write_out-Works s c (same, fine) =
      let (kept, fine') = settle-Works _ c (no_error c.failed fine) in (kept ∙ same, fine')

  flush-Works : (s : S) (c : Captured S) → Works s c → Works s (flush clock good_file c)
  unfolding flush
  flush-Works s c h =
      write_out-Works s (record c { last_flush = clock c.ticks; ticks = c.ticks + 1 }) h

  event-Works :
      (s : S) (at : ℕ) (d : Detail) (c : Captured S)
      → Works s c
      → Works s (event clock good_file at d c)
  unfolding event
  event-Works s at d c (same, fine) =
      let (kept, fine') = put-Works (line at d) _ c (no_error c.failed fine) in
      let c' = print clock good_file (line at d) c in
      both {A = Captured S} (Works s) (leb flush_interval (clock c.ticks - c.last_flush))
        (write_out-Works s (record c' { last_flush = clock c.ticks; ticks = c.ticks + 1 })
          (kept ∙ same, fine'))
        (kept ∙ same, fine')

  event_error-Works :
      (s : S) (at : ℕ) (op : String) (e : Option PortError) (c : Captured S)
      → Works s c
      → Works s (event_error clock good_file at op e c)
  unfolding event_error
  event_error-Works s at op none c h = h
  event_error-Works s at op (some e) c h = event-Works s at _ c h

  trace_read-Works :
      (s : S) (at : ℕ) (bytes : List ℕ) (c : Captured S)
      → Works s c
      → Works s (trace_read clock good_file at bytes c)
  unfolding trace_read
  trace_read-Works s at [] c h = h
  trace_read-Works s at (b ∷ bs) c h = event-Works s at _ c h

  -- The traced port is in the state of the other, and gives the same answer.
  abbrev Agrees : {A : Type 0} → Captured S × A → S × A → Type 0
  Agrees (c, a) (s, b) = Works s c × (a ≡ b)

  call-Agrees :
      (p : Port S) (x : Call) (c : Captured S)
      → c.failed ≡ none
      → Agrees (call (capture clock good_file p) x c) (call p x c.inner)
  unfolding call capture
  call-Agrees p (read_into n) c fine =
      let (s, bytes, e) = p.read n c.inner in
      (event_error-Works s _ "read: " _ _ (trace_read-Works s _ bytes _ (refl, fine)), refl)
  call-Agrees p (write_bytes bytes) c fine =
      let (s, n, e) = p.write bytes c.inner in
      (event_error-Works s _ "write: " e _ (event-Works s _ _ _ (refl, fine)), refl)
  call-Agrees p (set_timeout t) c fine = (event-Works _ _ _ _ (refl, fine), refl)
  call-Agrees p (break_line d) c fine =
      let (s, e) = p.break_for d c.inner in
      (
        flush-Works s _ (event_error-Works s _ "break: " e _ (event-Works s _ _ _ (refl, fine))),
        refl,
      )
  call-Agrees p close_port c fine =
      let (s, es) = p.close c.inner in
      let c' : Captured S = record (tick clock c) { inner = s } in
      let c'' = event clock good_file (since clock c) close_line c' in
      let traced = event-Works s (since clock c) close_line c' (refl, fine) in
      (
        write_out-Works s c'' traced,
        ap (λ e. closed (es ++ join e [])) (no_error c''.failed traced.1)
            ∙ ap closed (append-nil es),
      )

  -- Over any calls, whatever the port and the clock do, and as long as the capture file has no error: a
  -- traced port gives the same answers as the port itself, and leaves it in the same state.
  pub calls-capture :
      (p : Port S) (cs : List Call) (c : Captured S)
      → c.failed ≡ none
      → ((calls (capture clock good_file p) cs c).0.inner ≡ (calls p cs c.inner).0)
        × ((calls (capture clock good_file p) cs c).1 ≡ (calls p cs c.inner).1)
  unfolding calls
  calls-capture p [] c fine = (refl, refl)
  calls-capture p (x ∷ cs) c fine =
      let (c', answer) = call (capture clock good_file p) x c in
      let ((same, fine'), equal) = call-Agrees p x c fine in
      let (same', equal') = calls-capture p cs c' fine' in
      (
        same' ∙ ap (λ s. (calls p cs s).0) same,
        ap (λ a. a ∷ (calls (capture clock good_file p) cs c').1) equal
            ∙ ap (λ as'. (call p x c.inner).1 ∷ as') (equal' ∙ ap (λ s. (calls p cs s).1) same),
      )
