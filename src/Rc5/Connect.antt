-- ===== src/Rc5/Connect.antt =====
-- `Connect` and `Close` of internal/ecu/rc5/rc5.go. What the port answers is an argument.
pub mod Waking
pub mod Hearing
use rover_mems_ecu.Base.{
  ℕ, zero, suc, ◌==◌, String, true, false, List, [], ◌∷◌, ◌++◌, Option, none, some, if◌then◌else◌,
}
use rover_mems_ecu.Mems1x.Loop.{ReadError, no_error, timeout, failed}
use rover_mems_ecu.Mems2j.Commands.{bytes_equal}
use rover_mems_ecu.Rc5.Commands.{Rc5, log_debug, woke_response}

-- A pulse of the wake pattern, in milliseconds: the line low by `Break`, and high again.
pub record Pulse : Type 0 where
  pub low : ℕ
  pub high : ℕ

abbrev pub pulses : List Pulse
pulses =
    record { low = 200; high = 400 }
    ∷ record { low = 400; high = 400 }
    ∷ record { low = 400; high = 200 }
    ∷ []

-- What `serial.Open`, `SetReadTimeout`, each `Break` of a duration and each `Read` answer.
pub record PortAnswers : Type 0 where
  pub open_error : Option String
  pub timeout_error : Option String
  pub break_error : ℕ → Option String
  pub incoming : List (List ℕ × ReadError)

pub data Failure : Type 0 where
  open_failed set_timeout_failed wake_pulse : String → Failure
  read_failed : String → Failure
  unexpected_reply : List ℕ → Failure
  not_awake : Failure

abbrev pub init_loops_limit : ℕ
init_loops_limit = 100

-- `sp.Close()` on the way out of `Connect`.
abbrev pub close_port : Rc5 → Rc5
close_port r = record r { is_open = false }

-- The loop over the pulses.
unfoldable pub wake : (ℕ → Option String) → List Pulse → Option String
wake break_error [] = none
wake break_error (p ∷ ps) =
    let rest = wake break_error ps in elim (break_error p.low) [ some e ↦ some e | none ↦ rest ]

-- `for len(initBuffer) > 0 && initBuffer[0] == 0x00`.
unfoldable pub skip_zeros : List ℕ → List ℕ
skip_zeros [] = []
skip_zeros (b ∷ bs) = let rest = skip_zeros bs in if b == 0x00 then rest else b ∷ bs

-- The end of a round: `none` if there are not three bytes yet.
unfoldable pub judge : List ℕ → Rc5 → Option (Rc5 × Option Failure)
judge (a ∷ b ∷ c ∷ rest) r =
    if bytes_equal (a ∷ b ∷ c ∷ []) woke_response
    then (let woken = log_debug "RC5 woke up" r in
        some (record woken { state = record woken.state { connected = true } }, none))
    else some (close_port r, some (unexpected_reply (a ∷ b ∷ c ∷ [])))
judge (a ∷ b ∷ []) r = none
judge (a ∷ []) r = none
judge [] r = none

-- The init loop, with the rounds left. Behind the answers that are given, the port is silent.
unfoldable pub init_loop : ℕ → List (List ℕ × ReadError) → List ℕ → Rc5 → Rc5 × Option Failure
init_loop zero incoming buffer r = (close_port r, some not_awake)
init_loop (suc rounds) [] buffer r = init_loop rounds [] buffer r
init_loop (suc rounds) ((read, failed e) ∷ incoming) buffer r = (close_port r, some (read_failed e))
init_loop (suc rounds) (([], no_error) ∷ incoming) buffer r = init_loop rounds incoming buffer r
init_loop (suc rounds) (([], timeout) ∷ incoming) buffer r = init_loop rounds incoming buffer r
init_loop (suc rounds) ((b ∷ bs, no_error) ∷ incoming) buffer r =
    let buffer' = skip_zeros (buffer ++ (b ∷ bs)) in
    let later = init_loop rounds incoming buffer' r in
    elim (judge buffer' r) [ some result ↦ result | none ↦ later ]
init_loop (suc rounds) ((b ∷ bs, timeout) ∷ incoming) buffer r =
    let buffer' = skip_zeros (buffer ++ (b ∷ bs)) in
    let later = init_loop rounds incoming buffer' r in
    elim (judge buffer' r) [ some result ↦ result | none ↦ later ]

-- `Connect` behind `serial.Open`.
unfoldable pub set_up : PortAnswers → Rc5 → Rc5 × Option Failure
set_up port r = elim port.timeout_error [
  | some e ↦ (close_port r, some (set_timeout_failed e))
  | none ↦
      let ready = log_debug "Serial cable set to 2400 8N1" r in
      elim (wake port.break_error pulses) [
        | some e ↦ (close_port ready, some (wake_pulse e))
        | none ↦ init_loop init_loops_limit port.incoming [] ready
      ]
]

unfoldable pub connect : PortAnswers → Rc5 → Rc5 × Option Failure
connect port r =
    let start = log_debug "Connecting to RC5 ECU" r in
    let idle : Rc5 = record start { state = record start.state { connected = false } } in
    elim port.open_error [
      | some e ↦ (idle, some (open_failed e))
      | none ↦ set_up port (record idle { has_port = true; is_open = true })
    ]

-- `Close`, with the error of `sp.Close`.
unfoldable pub close : Option String → Rc5 → Rc5 × Option String
close close_error r =
    let idle : Rc5 = record r { state = record r.state { connected = false } } in
    if r.has_port then (record idle { is_open = false }, close_error) else (idle, none)
