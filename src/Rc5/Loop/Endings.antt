-- ===== src/Rc5/Loop/Endings.antt =====
-- How `ReadData` of internal/ecu/rc5/rc5.go ends.
use rover_mems_ecu.Base.{
  ℕ, ap, All, ◌+◌, ◌≤◌, String, Bool-cases, true, false, inl, inr, both, List, [], ◌∷◌, ◌++◌,
  Option, none, some, ltb, ◌==◌, ◌≡◌, refl, length, slice_from-drop, arith,
}
use rover_mems_ecu.Mems1x.Loop.{Event, cancelled, reads, no_error, timeout, failed}
use rover_mems_ecu.Mems2j.Commands.{bytes_equal}
use rover_mems_ecu.Rc5.Commands.{Rc5, log_debug, pong_response, faults_cleared_response}
use rover_mems_ecu.Rc5.Faults.{parse_faults}
use rover_mems_ecu.Rc5.Loop.{
  Session, Outcome, running, returned, panicked, limit, is_own, expected_length, fault_reply,
  answer_faults, dispatch, react, receive, step, leave, proceed, run,
}

-- The loop goes on, below its limit, or returns an error; it neither panics nor falls out.
abbrev pub EndsWell : Outcome → Type 0
EndsWell (running s) = s.read_loops ≤ limit
EndsWell (returned s (some failure)) = Unit
EndsWell (returned s none) = ⊥
EndsWell panicked = ⊥

-- The loop goes on with this count of rounds without a byte.
abbrev Keeps : ℕ → Outcome → Type 0
Keeps n (running s) = s.read_loops ≡ n
Keeps n (returned s failure) = ⊥
Keeps n panicked = ⊥

parse_faults-some :
    (a b c : ℕ) (rest buffer : List ℕ) (r : Rc5)
    → buffer ≡ a ∷ b ∷ c ∷ rest
    → (r' : Rc5) × (parse_faults buffer r ≡ some r')
unfolding parse_faults
parse_faults-some a b c rest buffer r e = (_, ap (λ bs. parse_faults bs r) e)

fault_reply-Keeps :
    (w : Option String) (a b c : ℕ) (rest : List ℕ) (s : Session)
    → s.buffer ≡ a ∷ b ∷ c ∷ rest
    → Keeps s.read_loops (fault_reply w a s)
unfolding fault_reply answer_faults
fault_reply-Keeps w a b c rest s e = elim (Bool-cases (ltb (length s.buffer) (expected_length a))) [
  | inl short ↦ rw short refl
  | inr whole ↦
      let (r, parsed) =
        parse_faults-some a b c rest s.buffer (log_debug "< FAULTS Got fault codes!" s.r) e in
      let left = slice_from-drop (expected_length a) s.buffer (ground (arith, whole)) in
      rw (whole, parsed, left) refl
]

react-Keeps :
    (w : Option String) (s : Session) (buffer : List ℕ)
    → s.buffer ≡ buffer
    → Keeps s.read_loops (react w buffer s)
unfolding react dispatch
react-Keeps w s [] e = refl
react-Keeps w s (a ∷ []) e = refl
react-Keeps w s (a ∷ b ∷ []) e = refl
react-Keeps w s (a ∷ b ∷ c ∷ rest) e =
    let P : Outcome → Type 0 = Keeps s.read_loops in
    both P (is_own a b c) refl (
      both P (bytes_equal (a ∷ b ∷ c ∷ []) pong_response) refl (
        both P (bytes_equal (a ∷ b ∷ c ∷ []) faults_cleared_response) refl
          (both P (b == 0x33) (fault_reply-Keeps w a b c rest s e) refl)))

-- A round in which the port gives no byte, and no error but a timeout.
abbrev pub IsQuiet : Event → Type 0
IsQuiet (reads [] no_error w) = Unit
IsQuiet (reads [] timeout w) = Unit
IsQuiet _ = ⊥

step_quiet : (e : Event) (s : Session) → IsQuiet e → Keeps (s.read_loops + 1) (step e s)
unfolding step receive
step_quiet cancelled s h = absurd h
step_quiet (reads [] (failed msg) w) s h = absurd h
step_quiet (reads (b ∷ bs) (failed msg) w) s h = absurd h
step_quiet (reads [] no_error w) s h =
    react-Keeps w (record s { read_loops = s.read_loops + 1 }) s.buffer refl
step_quiet (reads [] timeout w) s h =
    react-Keeps w (record s { read_loops = s.read_loops + 1 }) s.buffer refl
step_quiet (reads (b ∷ bs) no_error w) s h = absurd h
step_quiet (reads (b ∷ bs) timeout w) s h = absurd h

Keeps-EndsWell : (n : ℕ) (o : Outcome) → n ≤ limit → Keeps n o → EndsWell o
Keeps-EndsWell n (running s) h e = omega (arith, h, e)
Keeps-EndsWell n (returned s failure) h e = absurd e
Keeps-EndsWell n panicked h e = absurd e

step-EndsWell : (e : Event) (s : Session) → ltb s.read_loops limit ≡ true → EndsWell (step e s)
unfolding step receive
step-EndsWell cancelled s h = tt
step-EndsWell (reads read (failed msg) w) s h = tt
step-EndsWell (reads [] no_error w) s h =
    Keeps-EndsWell (s.read_loops + 1) _ (ground (arith, h)) (step_quiet (reads [] no_error w) s tt)
step-EndsWell (reads [] timeout w) s h =
    Keeps-EndsWell (s.read_loops + 1) _ (ground (arith, h)) (step_quiet (reads [] timeout w) s tt)
step-EndsWell (reads (b ∷ bs) no_error w) s h =
    let buffer = s.buffer ++ (b ∷ bs) in
    Keeps-EndsWell 0 _ (omega arith)
      (react-Keeps w (record s { buffer = buffer; read_loops = 0 }) buffer refl)
step-EndsWell (reads (b ∷ bs) timeout w) s h =
    let buffer = s.buffer ++ (b ∷ bs) in
    Keeps-EndsWell 0 _ (omega arith)
      (react-Keeps w (record s { buffer = buffer; read_loops = 0 }) buffer refl)

leave-EndsWell :
    (s : Session) → s.read_loops ≤ limit → ltb s.read_loops limit ≡ false → EndsWell (leave s)
unfolding leave
leave-EndsWell s h done =
    let full : (s.read_loops == limit) ≡ true = ground (arith, h, done) in rw full tt

proceed-EndsWell :
    (f : Session → Outcome)
    → ((s : Session) → s.read_loops ≤ limit → EndsWell (f s))
    → (o : Outcome) → EndsWell o
    → EndsWell (proceed f o)
unfolding proceed
proceed-EndsWell f later (running s) h = later s h
proceed-EndsWell f later (returned s (some failure)) h = h
proceed-EndsWell f later (returned s none) h = h
proceed-EndsWell f later panicked h = h

-- The loop has returned an error.
abbrev pub HasFailed : Outcome → Type 0
HasFailed (running s) = ⊥
HasFailed (returned s (some failure)) = Unit
HasFailed (returned s none) = ⊥
HasFailed panicked = ⊥

leave-HasFailed : (s : Session) → s.read_loops ≡ limit → HasFailed (leave s)
unfolding leave
leave-HasFailed s e = let full : (s.read_loops == limit) ≡ true = ground (arith, e) in rw full tt

proceed-counted :
    (f : Session → Outcome) (n : ℕ)
    → ((s : Session) → s.read_loops ≡ n → HasFailed (f s))
    → (o : Outcome) → Keeps n o
    → HasFailed (proceed f o)
unfolding proceed
proceed-counted f n later (running s) e = later s e
proceed-counted f n later (returned s failure) e = absurd e
proceed-counted f n later panicked e = absurd e

run_quiet :
    (quiet : List Event) (s : Session)
    → All IsQuiet quiet
    → s.read_loops ≤ limit
    → limit ≤ s.read_loops + length quiet
    → HasFailed (run quiet s)
unfolding run
run_quiet [] s h few enough =
    let done : ltb s.read_loops limit ≡ false = ground (arith, enough) in
    rw done (leave-HasFailed s (omega (arith, few, enough)))
run_quiet (e ∷ quiet) s (h, hs) few enough = elim (Bool-cases (ltb s.read_loops limit)) [
  | inr done ↦ rw done (leave-HasFailed s (ground (arith, few, done)))
  | inl more ↦ rw more (
      proceed-counted (run quiet) (s.read_loops + 1)
        (λ s' counted.
          run_quiet quiet s' hs (ground (arith, counted, more)) (omega (arith, counted, enough)))
        (step e s) (step_quiet e s h))
]

-- The loop goes on within its limit, and then as `later` says, or it has failed.
proceed-HasFailed :
    (f : Session → Outcome)
    → ((s : Session) → s.read_loops ≤ limit → HasFailed (f s))
    → (o : Outcome) → EndsWell o
    → HasFailed (proceed f o)
unfolding proceed
proceed-HasFailed f later (running s) h = later s h
proceed-HasFailed f later (returned s (some failure)) h = h
proceed-HasFailed f later (returned s none) h = h
proceed-HasFailed f later panicked h = h

run-HasFailed :
    (events quiet : List Event) (s : Session)
    → s.read_loops ≤ limit
    → All IsQuiet quiet
    → limit ≤ length quiet
    → HasFailed (run (events ++ quiet) s)
unfolding run
run-HasFailed [] quiet s few h enough = run_quiet quiet s h few (omega (arith, enough))
run-HasFailed (e ∷ events) quiet s few h enough = elim (Bool-cases (ltb s.read_loops limit)) [
  | inr done ↦ rw done (leave-HasFailed s (ground (arith, few, done)))
  | inl more ↦ rw more (
      proceed-HasFailed (run (events ++ quiet))
        (λ s' few'. run-HasFailed events quiet s' few' h enough) (step e s)
        (step-EndsWell e s more))
]

run-Bounded : (events : List Event) (s : Session) → s.read_loops ≤ limit → EndsWell (run events s)
unfolding run
run-Bounded [] s h = elim (Bool-cases (ltb s.read_loops limit)) [
  | inl more ↦ rw (run, more) h
  | inr done ↦ rw (run, done) (leave-EndsWell s h done)
]
run-Bounded (e ∷ events) s h = elim (Bool-cases (ltb s.read_loops limit)) [
  | inl more ↦
      rw (run, more)
        (proceed-EndsWell (run events) (run-Bounded events) (step e s) (step-EndsWell e s more))
  | inr done ↦ rw (run, done) (leave-EndsWell s h done)
]

-- Whatever arrives, and however it is cut into reads: the loop counts no more than 100 rounds without
-- a byte, and ends only with an error; it does not read beyond its buffer, and never falls out. Once
-- 100 rounds in a row give no byte and no error but a timeout, it has ended with an error.
pub run-EndsWell :
    (events quiet : List Event) (s : Session)
    → s.read_loops ≤ limit
    → All IsQuiet quiet
    → limit ≤ length quiet
    → EndsWell (run events s) × HasFailed (run (events ++ quiet) s)
run-EndsWell events quiet s few h enough =
    (run-Bounded events s few, run-HasFailed events quiet s few h enough)
