-- ===== src/Rc5/Connect/Waking.antt =====
-- How `Connect` of internal/ecu/rc5/rc5.go ends, and that it hears an ECU however its bytes are cut.
use rover_mems_ecu.Base.{
  ℕ, suc, zero, Option-cases, inl, inr, both, true, false, List, [], ◌∷◌, ◌++◌, Option, none, some,
  ◌≡◌, refl,
}
use rover_mems_ecu.Mems1x.Loop.{ReadError, no_error, timeout, failed}
use rover_mems_ecu.Mems2j.Commands.{bytes_equal}
use rover_mems_ecu.Rc5.Commands.{Rc5, log_debug, woke_response}
use rover_mems_ecu.Rc5.Connect.{
  PortAnswers, Failure, init_loops_limit, wake, pulses, skip_zeros, judge, init_loop, set_up,
  connect,
}

-- Connected with the port open, or neither.
abbrev pub Settled : Rc5 × Option Failure → Type 0
Settled (r, none) = (r.state.connected ≡ true) × (r.is_open ≡ true)
Settled (r, some failure) = (r.state.connected ≡ false) × (r.is_open ≡ false)

abbrev Opened : Rc5 → Type 0
Opened r = (r.state.connected ≡ false) × (r.is_open ≡ true)

abbrev JudgedWell : Option (Rc5 × Option Failure) → Type 0
JudgedWell none = Unit
JudgedWell (some result) = Settled result

judge-Settled : (buffer : List ℕ) (r : Rc5) → Opened r → JudgedWell (judge buffer r)
unfolding judge
judge-Settled [] r h = tt
judge-Settled (a ∷ []) r h = tt
judge-Settled (a ∷ b ∷ []) r h = tt
judge-Settled (a ∷ b ∷ c ∷ rest) r (idle, open_port) =
    both JudgedWell (bytes_equal (a ∷ b ∷ c ∷ []) woke_response) (refl, open_port) (idle, refl)

go_on :
    (later : Rc5 × Option Failure) (j : Option (Rc5 × Option Failure))
    → JudgedWell j
    → Settled later
    → Settled (elim j [ some result ↦ result | none ↦ later ])
go_on later none h k = k
go_on later (some result) h k = h

init_loop-Settled :
    (rounds : ℕ) (incoming : List (List ℕ × ReadError)) (buffer : List ℕ) (r : Rc5)
    → Opened r
    → Settled (init_loop rounds incoming buffer r)
unfolding init_loop
init_loop-Settled zero incoming buffer r (idle, open_port) = (idle, refl)
init_loop-Settled (suc rounds) [] buffer r h = init_loop-Settled rounds [] buffer r h
init_loop-Settled (suc rounds) ((read, failed e) ∷ incoming) buffer r (idle, open_port) =
    (idle, refl)
init_loop-Settled (suc rounds) (([], no_error) ∷ incoming) buffer r h =
    init_loop-Settled rounds incoming buffer r h
init_loop-Settled (suc rounds) (([], timeout) ∷ incoming) buffer r h =
    init_loop-Settled rounds incoming buffer r h
init_loop-Settled (suc rounds) ((b ∷ bs, no_error) ∷ incoming) buffer r h =
    let buffer' = skip_zeros (buffer ++ (b ∷ bs)) in
    go_on (init_loop rounds incoming buffer' r) (judge buffer' r) (judge-Settled buffer' r h)
      (init_loop-Settled rounds incoming buffer' r h)
init_loop-Settled (suc rounds) ((b ∷ bs, timeout) ∷ incoming) buffer r h =
    let buffer' = skip_zeros (buffer ++ (b ∷ bs)) in
    go_on (init_loop rounds incoming buffer' r) (judge buffer' r) (judge-Settled buffer' r h)
      (init_loop-Settled rounds incoming buffer' r h)

set_up-Settled : (port : PortAnswers) (r : Rc5) → Opened r → Settled (set_up port r)
unfolding set_up
set_up-Settled port r h = elim (Option-cases port.timeout_error) [
  | inr (e, set) ↦ rw (set_up, set) (h.0, refl)
  | inl set ↦ elim (Option-cases (wake port.break_error pulses)) [
    | inr (e, low) ↦ rw (set_up, set, low) (h.0, refl)
    | inl low ↦
        rw (set_up, set, low)
          (init_loop-Settled init_loops_limit port.incoming []
            (log_debug "Serial cable set to 2400 8N1" r) h)
  ]
]

-- Whatever the port answers: after `Connect` the ECU is connected and its port is open, or there is an
-- error, the ECU is not connected, and the port is closed.
pub connect-Settled : (port : PortAnswers) (r : Rc5) → r.is_open ≡ false → Settled (connect port r)
unfolding connect
connect-Settled port r shut = elim (Option-cases port.open_error) [
  | inr (e, opening) ↦ rw (connect, opening) (refl, shut)
  | inl opening ↦ rw (connect, opening) (set_up-Settled port _ (refl, refl))
]
