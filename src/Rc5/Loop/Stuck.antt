-- ===== src/Rc5/Loop/Stuck.antt =====
-- Where `ReadData` of internal/ecu/rc5/rc5.go does not get on: bytes that it does not know, and a
-- fault reply that says that it is empty.
use rover_mems_ecu.Base.{
  or_false, both, subst, ℕ, suc, zero, ◌+◌, ◌<◌, ◌∙◌, ap, sym, String, Bool, true, false, ◌||◌,
  List, [], ◌∷◌, ◌++◌, append_assoc, append-nil, replicate, Option, none, ltb, ◌==◌, ◌≡◌, refl,
  arith,
}
use rover_mems_ecu.Mems1x.Loop.{Event, cancelled, reads, no_error, timeout, failed}
use rover_mems_ecu.Mems2j.Commands.{bytes_equal}
use rover_mems_ecu.Rc5.Commands.{ping_command, pong_response, faults_cleared_response}
use rover_mems_ecu.Rc5.Loop.Answer.{fault_reply_lem}
use rover_mems_ecu.Rc5.Loop.{
  Session, Outcome, running, returned, panicked, limit, is_own, fault_reply, dispatch, react,
  receive, step, leave, proceed, run,
}

-- The three bytes are no frame of the handler, no reply and no header of a fault reply.
abbrev pub is_known : ℕ → ℕ → ℕ → Bool
is_known a b c =
    is_own a b c
    || (bytes_equal (a ∷ b ∷ c ∷ []) pong_response
        || (bytes_equal (a ∷ b ∷ c ∷ []) faults_cleared_response || b == 0x33))

-- The bytes stay in front of the buffer, and nothing has been written.
abbrev pub Stays : ℕ → ℕ → ℕ → List (List ℕ) → Outcome → Type 0
Stays a b c frames (running s) =
    (more : List ℕ) × (s.buffer ≡ a ∷ b ∷ c ∷ more) × (s.r.written ≡ frames)
Stays a b c frames (returned s failure) = s.r.written ≡ frames
Stays a b c frames panicked = ⊥

dispatch_unknown :
    (w : Option String) (a b c : ℕ) (rest : List ℕ) (s : Session)
    → is_known a b c ≡ false
    → dispatch w a b c rest s ≡ running s
unfolding dispatch
dispatch_unknown w a b c rest s unknown =
    let front : List ℕ = a ∷ b ∷ c ∷ [] in
    let (own, others) = or_false (is_own a b c) _ unknown in
    let (pong, more) = or_false (bytes_equal front pong_response) _ others in
    let (cleared, header) = or_false (bytes_equal front faults_cleared_response) _ more in
    rw (own, pong, cleared, header)

dispatch-Stays :
    (w : Option String) (a b c : ℕ) (more : List ℕ) (s : Session)
    → is_known a b c ≡ false
    → s.buffer ≡ a ∷ b ∷ c ∷ more
    → Stays a b c s.r.written (react w s.buffer s)
unfolding react
dispatch-Stays w a b c more s unknown e =
    let same = ap (λ bs. react w bs s) e ∙ dispatch_unknown w a b c more s unknown in
    subst (Stays a b c s.r.written) (sym same) (more, e, refl)

leave-Stays : (a b c : ℕ) (s : Session) → Stays a b c s.r.written (leave s)
unfolding leave
leave-Stays a b c s = both (Stays a b c s.r.written) (s.read_loops == limit) refl refl

step-Stays :
    (e : Event) (a b c : ℕ) (more : List ℕ) (s : Session)
    → is_known a b c ≡ false
    → s.buffer ≡ a ∷ b ∷ c ∷ more
    → Stays a b c s.r.written (step e s)
unfolding step receive
step-Stays cancelled a b c more s unknown e = refl
step-Stays (reads read (failed msg) w) a b c more s unknown e = refl
step-Stays (reads [] no_error w) a b c more s unknown e =
    dispatch-Stays w a b c more (record s { read_loops = s.read_loops + 1 }) unknown e
step-Stays (reads [] timeout w) a b c more s unknown e =
    dispatch-Stays w a b c more (record s { read_loops = s.read_loops + 1 }) unknown e
step-Stays (reads (x ∷ xs) no_error w) a b c more s unknown e =
    dispatch-Stays w a b c (more ++ (x ∷ xs))
      (record s { buffer = s.buffer ++ (x ∷ xs); read_loops = 0 }) unknown
      (ap (λ bs. bs ++ (x ∷ xs)) e)
step-Stays (reads (x ∷ xs) timeout w) a b c more s unknown e =
    dispatch-Stays w a b c (more ++ (x ∷ xs))
      (record s { buffer = s.buffer ++ (x ∷ xs); read_loops = 0 }) unknown
      (ap (λ bs. bs ++ (x ∷ xs)) e)

proceed-Stays :
    (f : Session → Outcome) (a b c : ℕ) (frames : List (List ℕ))
    → ((s : Session) (more : List ℕ) → s.buffer ≡ a ∷ b ∷ c ∷ more → Stays a b c s.r.written (f s))
    → (o : Outcome) → Stays a b c frames o
    → Stays a b c frames (proceed f o)
unfolding proceed
proceed-Stays f a b c frames later (running s) (more, e, kept) =
    subst (λ x. Stays a b c x (f s)) kept (later s more e)
proceed-Stays f a b c frames later (returned s failure) h = h
proceed-Stays f a b c frames later panicked h = h

-- Once the three bytes in front of the buffer are no frame that the loop knows, they stay there and the
-- loop writes nothing more, whatever arrives behind them.
pub run-Stays :
    (events : List Event) (a b c : ℕ) (more : List ℕ) (s : Session)
    → is_known a b c ≡ false
    → s.buffer ≡ a ∷ b ∷ c ∷ more
    → Stays a b c s.r.written (run events s)
unfolding run
run-Stays [] a b c more s unknown e =
    both (Stays a b c s.r.written) (ltb s.read_loops limit) (more, e, refl) (leave-Stays a b c s)
run-Stays (event ∷ events) a b c more s unknown e =
    both (Stays a b c s.r.written) (ltb s.read_loops limit)
      (proceed-Stays (run events) a b c s.r.written
        (λ s' more' e'. run-Stays events a b c more' s' unknown e') (step event s)
        (step-Stays event a b c more s unknown e))
      (leave-Stays a b c s)

-- What the loop does with a fault reply whose header says that it has no bytes.
abbrev pub Repeats : ℕ → ℕ → Session → Outcome → Type 0
Repeats n c s o =
    (s' : Session) × (o ≡ running s')
    × (s'.buffer ≡ s.buffer)
    × (s'.r.written ≡ s.r.written ++ replicate n ping_command)
    × (s'.r.state.user_command ≡ "")
    × (s'.read_loops ≡ s.read_loops + n)

abbrev pub silence : Event
silence = reads [] no_error none

step-Repeats :
    (c : ℕ) (rest : List ℕ) (s : Session)
    → s.buffer ≡ 0xBF ∷ 0x33 ∷ c ∷ rest
    → s.r.state.user_command ≡ ""
    → Repeats 1 c s (step silence s)
unfolding step receive react dispatch
step-Repeats c rest s e u =
    let s' : Session = record s { read_loops = s.read_loops + 1 } in
    let (r, replied, sent, faults, idle) =
      fault_reply_lem 0xBF 0x33 (c ∷ rest) s' e (ground arith) u in
    let same : step silence s ≡ fault_reply none 0xBF s' = ap (λ bs. react none bs s') e in
    (record s' { r = r }, same ∙ replied, refl, sent, idle, refl)

-- A fault reply whose first byte is 0xBF is taken to be empty: as long as nothing else arrives, it stays
-- in the buffer, and each round answers it again with a ping.
pub run-Repeats :
    (n c : ℕ) (rest : List ℕ) (s : Session)
    → s.buffer ≡ 0xBF ∷ 0x33 ∷ c ∷ rest
    → s.r.state.user_command ≡ ""
    → s.read_loops + n < limit
    → Repeats n c s (run (replicate n silence) s)
unfolding run proceed
run-Repeats zero c rest s e u few =
    let more : ltb s.read_loops limit ≡ true = ground (arith, few) in
    (s, rw more, refl, sym (append-nil s.r.written), u, omega arith)
run-Repeats (suc n) c rest s e u few =
    let more : ltb s.read_loops limit ≡ true = ground (arith, few) in
    let (s', stepped, kept, sent, idle, counted) = step-Repeats c rest s e u in
    let (s'', ran, kept', sent', idle', counted') =
      run-Repeats n c rest s' (kept ∙ e) idle (omega (arith, counted, few)) in
    (
      s'',
      rw (more, stepped) ran,
      kept' ∙ kept,
      sent'
          ∙ ap (λ frames. frames ++ replicate n ping_command) sent
          ∙ append_assoc s.r.written (ping_command ∷ []) (replicate n ping_command),
      idle',
      omega (arith, counted, counted'),
    )
