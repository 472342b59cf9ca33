-- ===== src/Rc5/Loop.antt =====
-- `ReadData` of internal/ecu/rc5/rc5.go, over the events of Mems1x/Loop.
pub mod Endings
pub mod Answer
pub mod Stuck
pub mod Polling
use rover_mems_ecu.Base.{
  ℕ, ◌+◌, ◌-◌, ◌%◌, String, Bool, ◌||◌, List, [], ◌∷◌, ◌++◌, Option, none, some, length, slice_from,
  ltb, ◌==◌, if◌then◌else◌,
}
use rover_mems_ecu.Ecu.State.{set_alert}
use rover_mems_ecu.Mems1x.Loop.{Event, cancelled, reads, no_error, timeout, failed}
use rover_mems_ecu.Mems2j.Commands.{bytes_equal}
use rover_mems_ecu.Rc5.Commands.{
  Rc5, log_debug, ping_command, request_faults_command, clear_faults_command, woke_response,
  pong_response, faults_response, faults_cleared_response, send_next_command,
}
use rover_mems_ecu.Rc5.Faults.{parse_faults}

-- The handler with the variables of `ReadData`.
pub record Session : Type 0 where
  pub r : Rc5
  pub buffer : List ℕ
  pub read_loops : ℕ

pub data Failure : Type 0 where
  context_done timed_out : Failure
  serial_read : String → Failure

-- `returned _ none` is the nil error.
pub data Outcome : Type 0 where
  running : Session → Outcome
  returned : Session → Option Failure → Outcome
  panicked : Outcome

abbrev pub limit : ℕ
limit = 100

-- The first three bytes are one of the frames that the handler sends.
abbrev pub is_own : ℕ → ℕ → ℕ → Bool
is_own a b c =
    let front : List ℕ = a ∷ b ∷ c ∷ [] in
    bytes_equal front ping_command
    || (bytes_equal front request_faults_command || bytes_equal front clear_faults_command)

-- `expectedLength`, of type byte.
abbrev pub expected_length : ℕ → ℕ
expected_length a = (a + 256 - 0xC0 + 1) % 256

-- What is behind `parseFaults`, with `buffer[expectedLength:]`.
unfoldable pub answer_faults : Option String → Option Rc5 → Option (List ℕ) → Session → Outcome
answer_faults write_error none rest s = panicked
answer_faults write_error (some r) none s = panicked
answer_faults write_error (some r) (some rest) s =
    running (record s { r = send_next_command write_error faults_response r; buffer = rest })

-- The case of a fault reply, for a buffer that begins with `a`.
unfoldable pub fault_reply : Option String → ℕ → Session → Outcome
fault_reply write_error a s =
    if ltb (length s.buffer) (expected_length a)
    then running s
    else answer_faults write_error
        (parse_faults s.buffer (log_debug "< FAULTS Got fault codes!" s.r))
        (slice_from (expected_length a) s.buffer) s

-- The loop's body behind the read, on a buffer of three bytes or more.
unfoldable pub dispatch : Option String → ℕ → ℕ → ℕ → List ℕ → Session → Outcome
dispatch write_error a b c rest s =
    if is_own a b c
    then running (record s { buffer = rest })
    else (if bytes_equal (a ∷ b ∷ c ∷ []) pong_response
        then running (record s {
          r = send_next_command write_error pong_response (log_debug "< PONG from ECU" s.r);
          buffer = rest;
        })
        else (if bytes_equal (a ∷ b ∷ c ∷ []) faults_cleared_response
            then (let cleared = log_debug "< FAULT CODES CLEARED" s.r in
                running (record s {
                  r = send_next_command write_error faults_cleared_response (record cleared {
                    state = set_alert "ECU reports faults cleared" cleared.state;
                  });
                  buffer = rest;
                }))
            else (if b == 0x33 then fault_reply write_error a s else running s)))

unfoldable pub react : Option String → List ℕ → Session → Outcome
react write_error (a ∷ b ∷ c ∷ rest) s = dispatch write_error a b c rest s
react write_error (a ∷ b ∷ []) s = running s
react write_error (a ∷ []) s = running s
react write_error [] s = running s

-- `readLoops++`, `buffer = append(buffer, rb[:n]...)`, and the reset.
unfoldable pub receive : List ℕ → Session → Session
receive [] s = record s { read_loops = s.read_loops + 1 }
receive (b ∷ rest) s = record s { buffer = s.buffer ++ (b ∷ rest); read_loops = 0 }

unfoldable pub step : Event → Session → Outcome
step cancelled s = returned s (some context_done)
step (reads read (failed msg) write_error) s =
    returned (record s { read_loops = s.read_loops + 1 }) (some (serial_read msg))
step (reads read no_error write_error) s = let s' = receive read s in react write_error s'.buffer s'
step (reads read timeout write_error) s = let s' = receive read s in react write_error s'.buffer s'

-- What is behind the loop.
unfoldable pub leave : Session → Outcome
leave s =
    if s.read_loops == limit
    then returned s (some timed_out)
    else returned (record s { r = log_debug "fell out of readloop" s.r }) none

unfoldable pub proceed : (Session → Outcome) → Outcome → Outcome
proceed f (running s) = f s
proceed f (returned s failure) = returned s failure
proceed f panicked = panicked

-- The loop, for as long as there are events.
unfoldable pub run : List Event → Session → Outcome
run [] s = if ltb s.read_loops limit then running s else leave s
run (e ∷ events) s = if ltb s.read_loops limit then proceed (run events) (step e s) else leave s

unfoldable pub read_data : Option String → List Event → Rc5 → Outcome
read_data write_error events r =
    run events
      (record { r = send_next_command write_error woke_response r; buffer = []; read_loops = 0 })
