-- ===== src/Mems1x/Loop/Silence.antt =====
-- When `loop` of internal/ecu/mems1x/loop.go gives up on an ECU that has fallen silent.
use rover_mems_ecu.Base.{
  both, ℕ, ◌+◌, ◌≤◌, String, Bool, Bool-cases, false, not, ◌&&◌, List, [], ◌∷◌, Option, length, ltb,
  ◌==◌, if◌then◌else◌, inl, inr, ◌≡◌, refl, ap, ◌∙◌, All, arith,
}
use rover_mems_ecu.Mems1x.Loop.{
  Session, Outcome, running, returned, panicked, Event, cancelled, reads, no_error, timeout, failed,
  react, receive, step, run, proceed, time_out, timed_out, echo_state, read_loops_limit,
}
use rover_mems_ecu.Mems1x.Loop.Writes.{Round, After, process-Round}

-- A read that gives nothing, which may be by a time-out of the port.
unfoldable pub Silent : Event → Type 0
Silent cancelled = ⊥
Silent (reads read (failed msg) w) = ⊥
Silent (reads [] no_error w) = Unit
Silent (reads [] timeout w) = Unit
Silent (reads (b ∷ rest) no_error w) = ⊥
Silent (reads (b ∷ rest) timeout w) = ⊥

step-Silent :
    (kline : Bool) (e : Event) (s : Session)
    → Silent e
    → s.buffer ≡ []
    → step kline e s ≡ running (record s { read_loops = s.read_loops + 1 })
unfolding Silent step receive react
step-Silent kline cancelled s h empty = absurd h
step-Silent kline (reads [] no_error w) s h empty = rw (empty, react)
step-Silent kline (reads [] timeout w) s h empty = rw (empty, react)
step-Silent kline (reads read (failed msg) w) s h empty = absurd h
step-Silent kline (reads (b ∷ rest) no_error w) s h empty = absurd h
step-Silent kline (reads (b ∷ rest) timeout w) s h empty = absurd h

after_reads : Bool → Session → ℕ → Outcome
after_reads kline s n =
    if ltb n read_loops_limit
    then running (record s { read_loops = n })
    else time_out kline (record s { read_loops = read_loops_limit })

at_limit :
    (kline : Bool) (s : Session) (n : ℕ)
    → s.read_loops ≤ read_loops_limit
    → ltb s.read_loops read_loops_limit ≡ false
    → time_out kline s ≡ after_reads kline s (s.read_loops + n)
unfolding after_reads
at_limit kline s n few done =
    let full : s.read_loops ≡ read_loops_limit = ground arith in
    let over : ltb (s.read_loops + n) read_loops_limit ≡ false = ground arith in
    rw over (ap (λ k. time_out kline (record s { read_loops = k })) full)

run-reads :
    (kline : Bool) (events : List Event) (s : Session)
    → All Silent events
    → s.buffer ≡ []
    → s.read_loops ≤ read_loops_limit
    → run kline events s ≡ (
        if ltb (s.read_loops + length events) read_loops_limit
        then running (record s { read_loops = s.read_loops + length events })
        else time_out kline (record s { read_loops = read_loops_limit }))
unfolding run proceed after_reads
run-reads kline [] s h empty few = elim (Bool-cases (ltb s.read_loops read_loops_limit)) [
  | inl more ↦
      let same : running s ≡ after_reads kline s s.read_loops = rw more in
      let none : s.read_loops ≡ s.read_loops + 0 = omega arith in
      rw more (same ∙ ap (after_reads kline s) none)
  | inr done ↦ rw done (at_limit kline s 0 few done)
]
run-reads kline (e ∷ events) s (h, hs) empty few =
    elim (Bool-cases (ltb s.read_loops read_loops_limit)) [
      | inl more ↦
          let s' : Session = record s { read_loops = s.read_loops + 1 } in
          let next = ap (proceed (run kline events)) (step-Silent kline e s h empty) in
          let rest = run-reads kline events s' hs empty (ground arith) in
          rw (more, run) (next ∙ rest ∙ ap (after_reads kline s) (omega arith))
      | inr done ↦ rw (done, run) (at_limit kline s (length (e ∷ events)) few done)
    ]

-- With nothing buffered, reads that give nothing leave the handler as it is until there have been
-- 200 in a row, and from then on the loop returns its time-out, which names the last byte sent and
-- whether its echo was seen, and writes nothing.
pub run-Silent :
    (kline : Bool) (events : List Event) (s : Session)
    → All Silent events
    → s.buffer ≡ []
    → s.read_loops ≤ read_loops_limit
    → (s' : Session) × (run kline events s ≡ (
        if ltb (s.read_loops + length events) read_loops_limit
        then running (record s { read_loops = s.read_loops + length events })
        else returned s' (timed_out s.m.last_kline_byte (echo_state kline s.m))))
      × (s'.m.written ≡ s.m.written)
unfolding time_out
run-Silent kline events s h empty few = (_, run-reads kline events s h empty few, refl)

-- What a read of no bytes leaves of an outcome: a counter that is one higher.
Counted : ℕ → Outcome → Type 0
Counted n (running s) = s.read_loops ≡ n
Counted n (returned s failure) = Unit
Counted n panicked = Unit

Round-Counted :
    (b n : ℕ) (s : Session) (o : Outcome) → s.read_loops ≡ n → After (Round b s) o → Counted n o
unfolding After Counted Round
Round-Counted b n s (running s') e r = r.0 ∙ e
Round-Counted b n s (returned s' failure) e r = tt
Round-Counted b n s panicked e r = tt

react-Counted :
    (kline : Bool) (w : Option String) (buffer : List ℕ) (s : Session)
    → Counted s.read_loops (react kline w buffer s)
unfolding react Counted
react-Counted kline w [] s = refl
react-Counted kline w (b ∷ rest) s =
    both (Counted s.read_loops) (kline && not s.m.got_kline_echo)
      (both (Counted s.read_loops) (b == s.m.last_kline_byte) refl
        (Round-Counted b s.read_loops _ _ refl (process-Round w b rest _)))
      (Round-Counted b s.read_loops s _ refl (process-Round w b rest s))

step-Counted :
    (kline : Bool) (e : Event) (s : Session)
    → Silent e
    → Counted (s.read_loops + 1) (step kline e s)
unfolding Silent step receive
step-Counted kline cancelled s h = absurd h
step-Counted kline (reads [] no_error w) s h =
    react-Counted kline w s.buffer (record s { read_loops = s.read_loops + 1 })
step-Counted kline (reads [] timeout w) s h =
    react-Counted kline w s.buffer (record s { read_loops = s.read_loops + 1 })
step-Counted kline (reads read (failed msg) w) s h = absurd h
step-Counted kline (reads (b ∷ rest) no_error w) s h = absurd h
step-Counted kline (reads (b ∷ rest) timeout w) s h = absurd h

pub IsRunning : Outcome → Type 0
IsRunning (running s) = Unit
IsRunning (returned s failure) = ⊥
IsRunning panicked = ⊥

proceed-ends :
    (f : Session → Outcome) (o : Outcome) (n : ℕ)
    → Counted n o
    → ((s : Session) → s.read_loops ≡ n → ¬ IsRunning (f s))
    → ¬ IsRunning (proceed f o)
unfolding proceed Counted IsRunning
proceed-ends f (running s) n c ends = ends s c
proceed-ends f (returned s failure) n c ends = λ x. x
proceed-ends f panicked n c ends = λ x. x

-- Whatever is buffered, the loop is over once 200 reads in a row have given nothing.
pub run_ends :
    (kline : Bool) (events : List Event) (s : Session)
    → All Silent events
    → read_loops_limit ≤ s.read_loops + length events
    → ¬ IsRunning (run kline events s)
unfolding run IsRunning time_out
run_ends kline [] s h many =
    let done : ltb s.read_loops read_loops_limit ≡ false = ground arith in rw (done, run) (λ x. x)
run_ends kline (e ∷ events) s (h, hs) many = elim (Bool-cases (ltb s.read_loops read_loops_limit)) [
  | inl more ↦
      rw (more, run)
        (proceed-ends (run kline events) (step kline e s) (s.read_loops + 1)
          (step-Counted kline e s h) (λ s' n. run_ends kline events s' hs (rw n (ground arith))))
  | inr done ↦ rw (done, run) (λ x. x)
]
