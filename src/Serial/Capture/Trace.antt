-- ===== src/Serial/Capture/Trace.antt =====
-- What the trace of internal/serial/capture.go says of the calls of a port.
use rover_mems_ecu.Base.{
  ℕ, ◌+◌, ◌-◌, subst, arith, ◌≡◌, refl, ap, ◌∙◌, sym, both, String, List, [], ◌∷◌, ◌++◌,
  append_assoc, append-nil, Option, none, some, take, leb,
}
use rover_mems_ecu.Serial.Port.{
  PortError, Port, Call, read_into, write_bytes, set_timeout, break_line, close_port, Answer,
  read_gave, write_took, call, calls,
}
use rover_mems_ecu.Serial.Capture.{
  Detail, rx, tx, err, cfg, brk, close_line, Entry, header, line, keep_error, put, settle, print,
  write_out, Captured, FileErrors, flush_interval, unless_timeout, event, event_error, tick, since,
  trace_read, flush, capture,
}

pub data Transfer : Type 0 where
  received sent : List ℕ → Transfer

-- The transfers among the lines.
abbrev pub of_detail : Detail → List Transfer
of_detail (rx bytes) = received bytes ∷ []
of_detail (tx bytes) = sent bytes ∷ []
of_detail (err op message) = []
of_detail (brk requested actual) = []
of_detail (cfg t) = []
of_detail close_line = []

abbrev pub transfers : List Entry → List Transfer
transfers [] = []
transfers (header name baud mode at ∷ es) = transfers es
transfers (line at d ∷ es) = of_detail d ++ transfers es

-- What a call and its answer transferred: the bytes read, if there are any, and those of the bytes to be
-- written that the port took.
abbrev pub of_call : Call → Answer → List Transfer
of_call (read_into n) (read_gave [] e) = []
of_call (read_into n) (read_gave (b ∷ bs) e) = received (b ∷ bs) ∷ []
of_call (write_bytes bytes) (write_took n e) = sent (take n bytes) ∷ []
of_call x answer = []

abbrev pub of_calls : List Call → List Answer → List Transfer
of_calls (x ∷ cs) (a ∷ answers) = of_call x a ++ of_calls cs answers
of_calls [] answers = []
of_calls (x ∷ cs) [] = []

transfers-append : (xs ys : List Entry) → transfers (xs ++ ys) ≡ transfers xs ++ transfers ys
transfers-append [] ys = refl
transfers-append (header name baud mode at ∷ xs) ys = transfers-append xs ys
transfers-append (line at d ∷ xs) ys =
    ap (λ ts. of_detail d ++ ts) (transfers-append xs ys)
    ∙ sym (append_assoc (of_detail d) (transfers xs) (transfers ys))

keep_error-none : (x y : Option PortError) → keep_error x y ≡ none → x ≡ none
keep_error-none none y h = refl
keep_error-none (some e) y h = h

module _ {S : Type 0} where
  abbrev traced : Captured S → List Transfer
  traced c = transfers c.entries

  -- Without an error now, the writer had none before, and has taken the line.
  abbrev Adds : List Transfer → Captured S → Captured S → Type 0
  Adds ts c c' = c'.failed ≡ none → (c.failed ≡ none) × (traced c' ≡ traced c ++ ts)

  Adds-nothing : (c : Captured S) → Adds [] c c
  Adds-nothing c fine = (fine, sym (append-nil (traced c)))

  Adds-then :
      (xs ys : List Transfer) (c c' c'' : Captured S)
      → Adds xs c c'
      → Adds ys c' c''
      → Adds (xs ++ ys) c c''
  Adds-then xs ys c c' c'' first second fine =
      let (fine', e') = second fine in
      let (fine'', e) = first fine' in
      (fine'', e' ∙ ap (λ ts. ts ++ ys) e ∙ append_assoc (traced c) xs ys)

  put-entries :
      (entry : Entry) (o : Option PortError) (c : Captured S)
      → (put entry o c).failed ≡ none
      → (o ≡ none) × ((put entry o c).entries ≡ c.entries ++ (entry ∷ []))
  unfolding put
  put-entries entry none c h = (refl, refl)
  put-entries entry (some e) c h = absurd (ground (arith, h))

  settle-entries :
      (o : Option PortError) (c : Captured S)
      → (settle o c).failed ≡ none
      → (o ≡ none) × ((settle o c).entries ≡ c.entries)
  unfolding settle
  settle-entries none c h = (refl, refl)
  settle-entries (some e) c h = (h, refl)

module _ {S : Type 0} (clock : ℕ → ℕ) (files : FileErrors) where
  write_out-Adds : (c : Captured S) → Adds [] c (write_out clock files c)
  write_out-Adds c fine =
      let (none_now, e) = settle-entries _ c fine in
      (keep_error-none c.failed _ none_now, ap transfers e ∙ sym (append-nil (traced c)))

  flush-Adds : (c : Captured S) → Adds [] c (flush clock files c)
  unfolding flush
  flush-Adds c = write_out-Adds (record c { last_flush = clock c.ticks; ticks = c.ticks + 1 })

  event-Adds :
      (at : ℕ) (d : Detail) (c : Captured S) → Adds (of_detail d) c (event clock files at d c)
  unfolding event
  event-Adds at d c =
      let c' = print clock files (line at d) c in
      let printed : Adds (of_detail d) c c' = λ fine.
        let (none_now, e) = put-entries (line at d) _ c fine in
        (
          keep_error-none c.failed _ none_now,
          ap transfers e
              ∙ transfers-append c.entries (line at d ∷ [])
              ∙ ap (λ ts. traced c ++ ts) (append-nil (of_detail d)),
        ) in
      let timed : Captured S = record c' { last_flush = clock c.ticks; ticks = c.ticks + 1 } in
      both {A = Captured S} (Adds (of_detail d) c)
        (leb flush_interval (clock c.ticks - c.last_flush))
        (λ fine.
          let (fine', e) = write_out-Adds timed fine in
          let (fine'', e') = printed fine' in (fine'', e ∙ append-nil (traced timed) ∙ e'))
        printed

  event_error-Adds :
      (at : ℕ) (op : String) (e : Option PortError) (c : Captured S)
      → Adds [] c (event_error clock files at op e c)
  unfolding event_error
  event_error-Adds at op none c = Adds-nothing c
  event_error-Adds at op (some e) c = event-Adds at (err op e.message) c

  trace_read-Adds :
      (at n : ℕ) (bytes : List ℕ) (e : Option PortError) (c : Captured S)
      → Adds (of_call (read_into n) (read_gave bytes e)) c (trace_read clock files at bytes c)
  unfolding trace_read
  trace_read-Adds at n [] e c = Adds-nothing c
  trace_read-Adds at n (b ∷ bs) e c = event-Adds at (rx (b ∷ bs)) c

  -- What a call adds in front of an operation that adds nothing.
  Adds-last :
      (ts : List Transfer) (c c' c'' : Captured S) → Adds ts c c' → Adds [] c' c'' → Adds ts c c''
  Adds-last ts c c' c'' first second =
      subst (λ xs. Adds xs c c'') (append-nil ts) (Adds-then ts [] c c' c'' first second)

  call-Adds :
      (p : Port S) (x : Call) (c : Captured S)
      → let (c', answer) = call (capture clock files p) x c in Adds (of_call x answer) c c'
  unfolding call capture
  call-Adds p (read_into n) c =
      let (s, bytes, e) = p.read n c.inner in
      let at = since clock c in
      let c' : Captured S = record (tick clock c) { inner = s } in
      let shown = trace_read clock files at bytes c' in
      Adds-last (of_call (read_into n) (read_gave bytes e)) c' shown
        (event_error clock files at "read: " (unless_timeout e) shown)
        (trace_read-Adds at n bytes e c') (event_error-Adds at "read: " (unless_timeout e) shown)
  call-Adds p (write_bytes bytes) c =
      let (s, n, e) = p.write bytes c.inner in
      let at = since clock c in
      let c' : Captured S = record (tick clock c) { inner = s } in
      let shown = event clock files at (tx (take n bytes)) c' in
      Adds-last (sent (take n bytes) ∷ []) c' shown (event_error clock files at "write: " e shown)
        (event-Adds at (tx (take n bytes)) c') (event_error-Adds at "write: " e shown)
  call-Adds p (set_timeout t) c =
      let (s, e) = p.set_read_timeout t c.inner in
      event-Adds (since clock c) (cfg t) (record (tick clock c) { inner = s })
  call-Adds p (break_line d) c =
      let begin = since clock c in
      let (s, e) = p.break_for d c.inner in
      let c' : Captured S = record (tick clock c) { inner = s } in
      let end_of = since clock c' in
      let shown = event clock files begin (brk d (end_of - begin)) (tick clock c') in
      let told = event_error clock files end_of "break: " e shown in
      Adds-last [] c' shown (flush clock files told)
        (event-Adds begin (brk d (end_of - begin)) (tick clock c'))
        (Adds-last [] shown told (flush clock files told)
          (event_error-Adds end_of "break: " e shown) (flush-Adds told))
  call-Adds p close_port c =
      let (s, es) = p.close c.inner in
      let c' : Captured S = record (tick clock c) { inner = s } in
      let shown = event clock files (since clock c) close_line c' in
      Adds-last [] c' shown (write_out clock files shown) (event-Adds (since clock c) close_line c')
        (write_out-Adds shown)

  calls-Adds :
      (p : Port S) (cs : List Call) (c : Captured S)
      → let (c', answers) = calls (capture clock files p) cs c in Adds (of_calls cs answers) c c'
  unfolding calls
  calls-Adds p [] c = Adds-nothing c
  calls-Adds p (x ∷ cs) c =
      let (c', answer) = call (capture clock files p) x c in
      let (c'', answers) = calls (capture clock files p) cs c' in
      Adds-then (of_call x answer) (of_calls cs answers) c c' c'' (call-Adds p x c)
        (calls-Adds p cs c')

  -- Over any calls, whatever the port, the clock and the file do: if the buffered writer has no error
  -- behind them, the trace has grown by the bytes of each read that gave some, and by those bytes of each
  -- write that the port took, in the order of the calls.
  pub calls-transfers :
      (p : Port S) (cs : List Call) (c : Captured S)
      → (calls (capture clock files p) cs c).0.failed ≡ none
      → let (c', answers) = calls (capture clock files p) cs c in
        transfers c'.entries ≡ transfers c.entries ++ of_calls cs answers
  calls-transfers p cs c fine = (calls-Adds p cs c fine).1
