-- ===== src/Mems1x/Loop/Replies.antt =====
-- Two conversations that `loop` of internal/ecu/mems1x/loop.go holds: the hand-shake, and a user
-- command with its acknowledgement.
use rover_mems_ecu.Base.{
  ℕ, ◌+◌, String, Bool-cases, Option-cases, true, false, List, [], ◌∷◌, ◌++◌, Option, none, some,
  find, lookup, str_append, str_eq, ◌==◌, ◌<◌, ltb, ◌≡◌, refl, ap, ◌∙◌, sym, inl, inr, All, arith,
  append_assoc,
}
use package.text.Mathlib.TextEquality.{eq_iff}
use rover_mems_ecu.Ecu.Log.{num, bytes, text}
use rover_mems_ecu.Ecu.State.{State, debug, set_alert, set_user_command}
use rover_mems_ecu.Mems1x.Commands.{
  Mems1x, command_names, user_commands, after_response, next_command, send,
}
use rover_mems_ecu.Mems1x.Loop.{
  Session, running, Event, reads, no_error, answer, note, switch, accepted, process, react, receive,
  step, run, loop, proceed, read_loops_limit,
}
use rover_mems_ecu.Mems1x.Loop.Writes.{wanted, Sent, answer-Sent}

-- A handler with no pending user command.
abbrev pub idle : State → Mems1x
idle s = record {
  state = record s { user_command = "" };
  written = [];
  got_kline_echo = false;
  last_kline_byte = 0;
}

-- The echo of the byte sent, then the ECU's reply.
abbrev pub exchange : ℕ → List ℕ → List Event
exchange sent reply = reads (sent ∷ []) no_error none ∷ reads reply no_error none ∷ []

abbrev pub hand_shake : List ℕ → List Event
hand_shake id =
    exchange 0xCA (0xCA ∷ [])
    ++ exchange 0x75 (0x75 ∷ [])
    ++ exchange 0xF4 (0xF4 ∷ 0x00 ∷ [])
    ++ exchange 0xD0 (0xD0 ∷ id)

-- An ECU that answers each byte of the hand-shake, with any four bytes as its identification, is
-- connected, after the bytes CA, 75, F4 and D0 in this order, and is then polled with 80.
pub loop-hand_shake :
    (a b c d : ℕ) (s : State)
    → (s' : Session) × (loop true none (hand_shake (a ∷ b ∷ c ∷ d ∷ [])) (idle s) ≡ running s')
      × (s'.m.state.connected ≡ true)
      × (s'.m.written ≡ 0xCA ∷ 0x75 ∷ 0xF4 ∷ 0xD0 ∷ 0x80 ∷ [])
      × (s'.buffer ≡ [])
unfolding loop run proceed step receive react process switch answer send next_command after_response
    set_user_command lookup
loop-hand_shake a b c d s = (_, refl, refl, refl, refl)

Named : String × ℕ → Type 0
Named (name, b) = lookup b command_names ≡ some name

named : All Named user_commands
unfolding Named lookup
named = ground arith

find-Named :
    (k : String) (m : List (String × ℕ)) (b : ℕ)
    → All Named m
    → find k m ≡ some b
    → lookup b command_names ≡ some k
unfolding find Named
find-Named k [] b all e = absurd (ground (arith, e))
find-Named k ((j, u) ∷ m) b (p, ps) e = elim (Bool-cases (str_eq j k)) [
  | inl t ↦
      let same : u ≡ b = ground (arith, e, t) in
      let key = (eq_iff j k).0 t in ap (λ c. lookup c command_names) (sym same) ∙ p ∙ ap some key
  | inr t ↦ find-Named k m b ps (ground (arith, e, t))
]

next_command-alert :
    (b : ℕ) (s : State)
    → ((next_command b s).0.alert ≡ s.alert) × ((next_command b s).0.alert_seq ≡ s.alert_seq)
unfolding next_command set_user_command
next_command-alert b s = elim (Bool-cases (str_eq s.user_command "")) [
  | inl e ↦ (rw e, rw e)
  | inr e ↦ elim (Option-cases (find s.user_command user_commands)) [
    | inl f ↦ (rw (e, f), rw (e, f))
    | inr (c, f) ↦ (rw (e, f), rw (e, f))
  ]
]

answer-alert :
    (w : Option String) (b : ℕ) (s : Session)
    → ((answer w b s).m.state.alert ≡ s.m.state.alert)
      × ((answer w b s).m.state.alert_seq ≡ s.m.state.alert_seq)
      × ((answer w b s).read_loops ≡ s.read_loops)
unfolding answer send
answer-alert none b s = let (p, q) = next_command-alert b s.m.state in (p, q, refl)
answer-alert (some e) b s = let (p, q) = next_command-alert b s.m.state in (p, q, refl)

heard : ℕ → Session → Session
heard k s =
    note
      (record {
        format = "K-line echo consumed: %02X (buffer remaining: %v)";
        args = num k ∷ bytes [] ∷ [];
      })
      (record { m = record s.m { got_kline_echo = true }; buffer = []; read_loops = 0 })

step-heard :
    (k : ℕ) (w : Option String) (s : Session)
    → s.buffer ≡ []
    → s.m.got_kline_echo ≡ false
    → s.m.last_kline_byte ≡ k
    → step true (reads (k ∷ []) no_error w) s ≡ running (heard k s)
unfolding step receive react heard
step-heard k w s empty due last =
    let same : (k == s.m.last_kline_byte) ≡ true = ground arith in rw (empty, react, due, same)

step-accepted :
    (k c : ℕ) (rest : List ℕ) (cmd : String) (w : Option String) (s : Session)
    → lookup k command_names ≡ some cmd
    → step true (reads (k ∷ c ∷ rest) no_error w) (heard k s)
      ≡ running (accepted w k cmd (record (heard k s) { buffer = k ∷ c ∷ rest; read_loops = 0 }))
unfolding step receive react heard process
step-accepted k c rest cmd w s name = rw (process, name)

accepted_lem :
    (w : Option String) (k : ℕ) (cmd : String) (s : Session)
    → s.m.state.user_command ≡ ""
    → ((accepted w k cmd s).m.state.alert ≡ str_append "ECU accepted " cmd)
      × ((accepted w k cmd s).m.state.alert_seq ≡ s.m.state.alert_seq + 1)
      × ((accepted w k cmd s).m.written ≡ s.m.written ++ (after_response k ∷ []))
      × ((accepted w k cmd s).m.state.user_command ≡ "")
unfolding accepted set_alert wanted find Sent
accepted_lem w k cmd s none_pending =
    let t : Session = record s {
      m = record s.m {
        state =
            set_alert (str_append "ECU accepted " cmd)
              (debug (record { format = "< "; args = text cmd ∷ [] }) s.m.state);
      };
    } in
    let (p, q, n) = answer-alert w k t in
    let (f, g, h, i, j) = answer-Sent w k t in
    (p, q, f ∙ ap (λ u. s.m.written ++ (wanted u k ∷ [])) none_pending, j)

-- Whatever response `b` the loop is answering, a user command that is pending goes out at once, and
-- once only. When the ECU echoes its byte `k` and acknowledges it, with any status byte `c`, the
-- alert says so under the command's own name, and the poll goes on with the byte due after `k`.
pub run-user_command :
    (w w' : Option String) (b k c : ℕ) (rest : List ℕ) (cmd : String) (s : Session)
    → s.m.state.user_command ≡ cmd
    → find cmd user_commands ≡ some k
    → s.read_loops < read_loops_limit
    → (s' : Session) × (run true
          (reads (k ∷ []) no_error none ∷ reads (k ∷ c ∷ rest) no_error w' ∷ [])
          (answer w b s)
        ≡ running s')
      × (s'.m.written ≡ s.m.written ++ (k ∷ after_response k ∷ []))
      × (s'.m.state.user_command ≡ "")
      × (s'.m.state.alert ≡ str_append "ECU accepted " cmd)
      × (s'.m.state.alert_seq ≡ s.m.state.alert_seq + 1)
unfolding run proceed wanted Sent heard accepted answer
run-user_command w w' b k c rest cmd s pending known live =
    let s1 = answer w b s in
    let (f, g, h, i, j) = answer-Sent w b s in
    let (p, q, n) = answer-alert w b s in
    let sends_k : wanted s.m.state.user_command b ≡ k = rw (pending, wanted, known) in
    let s2 = heard k s1 in
    let s3 : Session = record s2 { buffer = k ∷ c ∷ rest; read_loops = 0 } in
    let s4 = accepted w' k cmd s3 in
    let more : ltb s1.read_loops read_loops_limit ≡ true = ground (arith, n) in
    let (a, a_seq, sent, taken) = accepted_lem w' k cmd s3 j in
    let first : s1.m.written ≡ s.m.written ++ (k ∷ []) =
      f ∙ ap (λ u. s.m.written ++ (u ∷ [])) sends_k in
    (
      s4,
      rw (
        more,
        run,
        step-heard k none s1 i h (g ∙ sends_k),
        step-accepted k c rest cmd w' s1 (find-Named cmd user_commands k named known),
      ),
      sent
          ∙ ap (λ xs. xs ++ (after_response k ∷ [])) first
          ∙ append_assoc s.m.written (k ∷ []) (after_response k ∷ []),
      taken,
      a,
      a_seq ∙ ap (λ x. x + 1) q,
    )
