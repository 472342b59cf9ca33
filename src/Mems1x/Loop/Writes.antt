-- ===== src/Mems1x/Loop/Writes.antt =====
-- What `loop` of internal/ecu/mems1x/loop.go writes to the port.
pub mod Bytes
pub mod Exchange
use rover_mems_ecu.Base.{
  both, ℕ, ◌+◌, ◌≤◌, String, str_eq, Bool, Bool-cases, Option-cases, true, false, not, ◌&&◌, List,
  [], ◌∷◌, ◌++◌, Option, none, some, find, lookup, length, ltb, leb, ◌==◌, get_or, if◌then◌else◌,
  ◌≡◌, refl, ap, ◌∙◌, ◌⊎◌, inl, inr, All, All-append, arith, length-append,
}
use text.Mathlib.TextEquality.{eq_iff}
use rover_mems_ecu.Ecu.Log.{Line}
use rover_mems_ecu.Ecu.State.{State, debug, set_alert, set_user_command}
use rover_mems_ecu.Mems1x.Commands.{
  Mems1x, command_names, user_commands, after_response, next_command, send,
}
use rover_mems_ecu.Mems1x.Frames.{parse_data80, parse_data7d, decode80, decode7d}
use rover_mems_ecu.Mems1x.Loop.{
  Session, Outcome, running, returned, panicked, Event, answer, data_frame, switch, accepted,
  process, react, receive, step, run, loop, time_out,
}

-- The byte that is due after the response `b`: that of the pending user command, if there is such a
-- command, and the next one of the hand-shake or of the poll else.
unfoldable pub wanted : String → ℕ → ℕ
wanted cmd b = elim (find cmd user_commands) [ some command ↦ command | none ↦ after_response b ]

idle : (b : ℕ) → wanted "" b ≡ after_response b
unfolding wanted find
idle b = refl

next_command-wanted :
    (b : ℕ) (s : State)
    → ((next_command b s).1 ≡ wanted s.user_command b) × ((next_command b s).0.user_command ≡ "")
unfolding next_command wanted set_user_command find
next_command-wanted b s = elim (Bool-cases (str_eq s.user_command "")) [
  | inl e ↦
      let none_pending = (eq_iff s.user_command "").0 e in
      let due : wanted s.user_command b ≡ after_response b =
        ap (λ u. wanted u b) none_pending ∙ idle b in
      (rw (e, due), rw e)
  | inr e ↦ elim (Option-cases (find s.user_command user_commands)) [
    | inl f ↦ (rw (e, f, wanted), rw (e, f))
    | inr (c, f) ↦ (rw (e, f, wanted), rw (e, f))
  ]
]

pub Quiet : Session → Session → Type 0
Quiet s s' =
    (s'.m.written ≡ s.m.written)
    × (s'.m.last_kline_byte ≡ s.m.last_kline_byte)
    × (s'.m.state.user_command ≡ s.m.state.user_command)

unfoldable pub Sent : ℕ → Session → Session → Type 0
Sent b s s' =
    (s'.m.written ≡ s.m.written ++ (wanted s.m.state.user_command b ∷ []))
    × (s'.m.last_kline_byte ≡ wanted s.m.state.user_command b)
    × (s'.m.got_kline_echo ≡ false)
    × (s'.buffer ≡ [])
    × (s'.m.state.user_command ≡ "")

unfoldable pub Round : ℕ → Session → Session → Type 0
unfolding Quiet Sent
Round b s s' = (s'.read_loops ≡ s.read_loops) × (Quiet s s' ⊎ Sent b s s')

-- `P` of the session that an outcome holds.
unfoldable pub After : (Session → Type 0) → Outcome → Type 0
After P (running s) = P s
After P (returned s failure) = P s
After P panicked = Unit

pub answer-Sent : (w : Option String) (b : ℕ) (s : Session) → Sent b s (answer w b s)
unfolding answer Sent send
answer-Sent w b s = elim w [
  | none ↦ ground (arith, next_command-wanted b s.m.state)
  | some e ↦ ground (arith, next_command-wanted b s.m.state)
]

parse_data80-keeps :
    (buffer : List ℕ) (s s' : State)
    → parse_data80 buffer s ≡ some s'
    → s'.user_command ≡ s.user_command
unfolding parse_data80 decode80
parse_data80-keeps buffer s s' e = ground arith

parse_data7d-keeps :
    (buffer : List ℕ) (s s' : State)
    → parse_data7d buffer s ≡ some s'
    → s'.user_command ≡ s.user_command
unfolding parse_data7d decode7d
parse_data7d-keeps buffer s s' e = ground arith

pub stays :
    (b : ℕ) (s t : Session)
    → t.m.written ≡ s.m.written
    → t.m.last_kline_byte ≡ s.m.last_kline_byte
    → t.m.state.user_command ≡ s.m.state.user_command
    → t.read_loops ≡ s.read_loops
    → Round b s t
unfolding Round Quiet
stays b s t p q r n = (n, inl (p, q, r))

sends :
    (w : Option String) (b : ℕ) (s t : Session)
    → t.m.written ≡ s.m.written
    → t.m.state.user_command ≡ s.m.state.user_command
    → t.read_loops ≡ s.read_loops
    → Round b s (answer w b t)
unfolding Round Sent answer
sends w b s t p q n =
    let (f, g, h, k, l) = answer-Sent w b t in
    let same : wanted t.m.state.user_command b ≡ wanted s.m.state.user_command b =
      ap (λ u. wanted u b) q in
    (
      n,
      inr (
        f
            ∙ ap (λ xs. xs ++ (wanted t.m.state.user_command b ∷ [])) p
            ∙ ap (λ c. s.m.written ++ (c ∷ [])) same,
        g ∙ same,
        h,
        k,
        l,
      ),
    )

data_frame-Round :
    (parse : List ℕ → State → Option State) (msg : Line) (w : Option String) (b : ℕ) (rest : List ℕ)
    (s : Session)
    → ((buffer : List ℕ) (s s' : State)
        → parse buffer s ≡ some s'
        → s'.user_command ≡ s.user_command)
    → After (Round b s) (data_frame parse msg w b rest s)
unfolding After data_frame
data_frame-Round parse msg w b [] s keeps = stays b s s refl refl refl refl
data_frame-Round parse msg w b (size ∷ rest) s keeps =
    both (After (Round b s)) (leb (size + 1) (length (b ∷ size ∷ rest)))
      (elim (Option-cases (parse (b ∷ size ∷ rest) (debug msg s.m.state))) [
        | inl e ↦ rw e tt
        | inr (state, e) ↦
            let same = keeps (b ∷ size ∷ rest) (debug msg s.m.state) state e in
            rw e (sends w b s (record s { m = record s.m { state = state } }) refl same refl)
      ])
      (stays b s _ refl refl refl refl)

switch-Round :
    (w : Option String) (b : ℕ) (rest : List ℕ) (s : Session)
    → After (Round b s) (switch w b rest s)
unfolding After switch set_alert
switch-Round w b rest s =
    let cleared = leb 1 (length rest) && (get_or rest 0 1 == 0) in
    let P = Round b s in
    both (After P) (b == 0xCC)
      (both P cleared (sends w b s _ refl refl refl) (stays b s _ refl refl refl refl))
      (both (After P) (b == 0xCA) (sends w b s _ refl refl refl) (
        both (After P) (b == 0x75) (sends w b s _ refl refl refl) (
          both (After P) (b == 0xF4)
            (both P cleared (sends w b s _ refl refl refl) (stays b s _ refl refl refl refl))
            (both (After P) (b == 0xD0)
              (both P (leb 4 (length rest)) (sends w b s _ refl refl refl)
                (stays b s _ refl refl refl refl))
              (both (After P) (b == 0x80)
                (data_frame-Round parse_data80 _ w b rest s parse_data80-keeps)
                (both (After P) (b == 0x7D)
                  (data_frame-Round parse_data7d _ w b rest s parse_data7d-keeps)
                  (stays b s _ refl refl refl refl)))))))

pub process-Round :
    (w : Option String) (b : ℕ) (rest : List ℕ) (s : Session)
    → After (Round b s) (process w b rest s)
unfolding process accepted After set_alert Round
process-Round w b [] s = switch-Round w b [] _
process-Round w b (c ∷ rest) s = elim (Option-cases (lookup b command_names)) [
  | inl e ↦ rw (e, process) (switch-Round w b (c ∷ rest) _)
  | inr (name, e) ↦ rw (e, process) (sends w b s _ refl refl refl)
]
