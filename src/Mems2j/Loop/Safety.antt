-- ===== src/Mems2j/Loop/Safety.antt =====
-- Whether `loop` of internal/ecu/mems2j/mems2j.go can panic, and when it gives up.
use rover_mems_ecu.Base.{
  String, ℕ, suc, zero, ◌+◌, ◌≤◌, ◌<◌, ◌≡◌, ◌≢◌, refl, Bool-cases, leb, ◌&&◌, some, slice_to,
  slice_from, slice_to-take, slice_from-drop, branch_either, length-take, inl, inr, List, [], ◌∷◌,
  Option, length, take, ltb, ◌==◌, both, arith, subst, ◌-◌,
}
use rover_mems_ecu.Mems2j.Commands.{Mems2j, log_debug, bytes_equal, guarded-take, init_command}
use rover_mems_ecu.Mems2j.Parse.Safety.{parse_response-Gives}
use rover_mems_ecu.Mems2j.Loop.{
  Event, Session, Outcome, running, returned, panicked, clear_zeros, handle_packet, advance,
  open_packet, behind_first, take_packet, react, receive, step, proceed, run, idle_timeout,
  timed_out, context_done,
}

Survives : Outcome → Type 0
Survives (running s) = Unit
Survives (returned s failure) = Unit
Survives panicked = ⊥

-- What is left once the zeros are cleared begins with no zero.
NoZero : List ℕ → Type 0
NoZero [] = Unit
NoZero (b ∷ rest) = 0 < b

clear_zeros-NoZero : (buffer : List ℕ) (m : Mems2j) → NoZero (clear_zeros buffer m).0
unfolding clear_zeros NoZero
clear_zeros-NoZero [] m = tt
clear_zeros-NoZero (b ∷ rest) m = elim (Bool-cases (b == 0)) [
  | inl zero_byte ↦
      rw (zero_byte, clear_zeros) (clear_zeros-NoZero rest (log_debug "Cleared leading zeros" m))
  | inr other ↦ let above : 0 < b = ground arith in rw (other, clear_zeros) above
]

handle_packet-Survives :
    (w : Option String) (b : ℕ) (rest : List ℕ) (s : Session)
    → Survives (handle_packet w (b ∷ rest) s)
unfolding handle_packet Survives
handle_packet-Survives w b rest s =
    let (m, e) = parse_response-Gives b rest s.m in rw (e, handle_packet) tt

-- The slices of a complete packet, whose payload has a first byte.
payload_head :
    (size : ℕ) (buffer : List ℕ)
    → 0 < size
    → size + 2 ≤ length buffer
    → (b : ℕ) × (rest : List ℕ) × (behind_first (slice_to (size + 1) buffer) ≡ some (b ∷ rest))
payload_head zero buffer h long = absurd (omega arith)
payload_head (suc n) [] h long = absurd (omega arith)
payload_head (suc n) (a ∷ []) h long = absurd (omega arith)
payload_head (suc n) (a ∷ b ∷ rest) h long =
    let two : suc n + 1 ≡ suc (suc n) = omega arith in
    (b, take n rest, rw (two, slice_to-take n rest (omega (arith, long))) refl)

advance-Survives :
    (n : ℕ) (buffer : List ℕ) (s : Session)
    → n ≤ length buffer
    → Survives (advance (slice_from n buffer) s)
unfolding advance Survives
advance-Survives n buffer s h = rw (slice_from-drop n buffer h) tt

-- Of the two slices, the full packet is in front of the buffer.
open_packet-Survives :
    (w : Option String) (b : ℕ) (rest full buffer : List ℕ) (s : Session)
    → length full ≤ length buffer
    → Survives (open_packet w (some (b ∷ rest)) (some full) buffer s)
unfolding open_packet Survives
open_packet-Survives w b rest full buffer s inside =
    let last = s.m.last_sent_command in
    let handled = handle_packet-Survives w b rest (record s { buffer = buffer }) in
    elim (Bool-cases (ltb 0 (length last))) [
      | inr none_sent ↦ rw none_sent handled
      | inl sent ↦
          rw (sent, guarded-take (length last) (length last) last full (omega arith))
            (branch_either Survives panicked (advance (slice_from (length last) buffer) s)
              (handle_packet w (b ∷ rest) (record s { buffer = buffer }))
              (leb (length last) (length full) && bytes_equal (take (length last) full) last)
              (λ echo. advance-Survives (length last) buffer s (ground (arith, echo, inside)))
              handled)
    ]

take_packet-Survives :
    (w : Option String) (size : ℕ) (buffer : List ℕ) (s : Session)
    → 0 < size
    → Survives (take_packet w size buffer s)
unfolding take_packet Survives
take_packet-Survives w size buffer s h = elim (Bool-cases (ltb (length buffer) (size + 2))) [
  | inl short ↦ rw short tt
  | inr long ↦
      let enough : size + 2 ≤ length buffer = ground (arith, long) in
      let (b, rest, e) = payload_head size buffer h enough in
      rw (long, e, slice_to-take (size + 2) buffer enough)
        (open_packet-Survives w b rest (take (size + 2) buffer) buffer s
          (omega (arith, length-take (size + 2) buffer)))
]

react-Survives :
    (w : Option String) (buffer : List ℕ) (s : Session)
    → NoZero buffer
    → Survives (react w buffer s)
unfolding react NoZero Survives
react-Survives w [] s h = tt
react-Survives w (b ∷ rest) s h =
    let buffer : List ℕ = b ∷ rest in
    rw (guarded-take 5 5 init_command buffer (omega arith)) (
      branch_either Survives panicked _ (take_packet w b buffer s)
        (leb 5 (length buffer) && bytes_equal (take 5 buffer) init_command)
        (λ echo.
          advance-Survives 5 buffer (record s { m = log_debug "Got our init echo" s.m })
            (ground (arith, echo)))
        (take_packet-Survives w b buffer s h))

step-Survives : (e : Event) (s : Session) → Survives (step e s)
unfolding step Survives
step-Survives e s =
    both Survives e.cancelled {x = returned s context_done} tt
      (react-Survives e.write_error _ _ (clear_zeros-NoZero (receive e s).buffer (receive e s).m))

proceed-Survives :
    (f : Session → Outcome) (o : Outcome)
    → Survives o
    → ((s : Session) → Survives (f s))
    → Survives (proceed f o)
unfolding proceed Survives
proceed-Survives f (running s) h g = g s
proceed-Survives f (returned s failure) h g = tt
proceed-Survives f panicked h g = h

run-Survives : (events : List Event) (s : Session) → Survives (run events s)
unfolding run Survives
run-Survives [] s = tt
run-Survives (e ∷ events) s =
    both Survives (ltb (e.now - s.last_received_data) idle_timeout) {y = returned s timed_out}
      (proceed-Survives (run events) (step e s) (step-Survives e s) (run-Survives events)) tt

-- Whatever bytes arrive, and however they are cut into reads, no index and no slice expression of the
-- loop, the parser and its faults is beyond the end of what it reads.
pub run-panicked : (events : List Event) (s : Session) → run events s ≢ panicked
unfolding Survives
run-panicked events s e = subst Survives e (run-Survives events s)
