-- ===== src/Mems2j/Loop.antt =====
-- `loop` of internal/ecu/mems2j/mems2j.go. What the reader's goroutine has buffered, the clock in
-- milliseconds and the context are the rounds of a run; sleeping is left out.
pub mod Safety
pub mod SetUp
pub mod Packets
use rover_mems_ecu.Base.{
  ℕ, ◌+◌, ◌-◌, String, Bool, true, false, ◌&&◌, List, [], ◌∷◌, ◌++◌, Option, none, some, length,
  slice_to, slice_from, branch, ltb, ◌==◌, if◌then◌else◌,
}
use rover_mems_ecu.Mems2j.Commands.{Mems2j, log_debug, guarded, init_command, send_next_command}
use rover_mems_ecu.Mems2j.Parse.{parse_response}

-- One round: the clock at the test of the loop, whether the context is done, what the reader gives,
-- the clock behind it, and the error that a packet sent in this round meets.
pub record Event : Type 0 where
  pub now : ℕ
  pub cancelled : Bool
  pub new_data : List ℕ
  pub received_at : ℕ
  pub write_error : Option String

pub record Session : Type 0 where
  pub m : Mems2j
  pub buffer : List ℕ
  pub last_received_data : ℕ

pub data Failure : Type 0 where
  context_done timed_out : Failure

pub data Outcome : Type 0 where
  running : Session → Outcome
  returned : Session → Failure → Outcome
  -- An index beyond the end of a slice.
  panicked : Outcome

abbrev pub idle_timeout : ℕ
idle_timeout = 1000

-- `for len(buffer) > 0 && buffer[0] == 0x00`: the buffer, and the handler with its log lines.
unfoldable pub clear_zeros : List ℕ → Mems2j → List ℕ × Mems2j
clear_zeros [] m = ([], m)
clear_zeros (b ∷ rest) m =
    let cleared = clear_zeros rest (log_debug "Cleared leading zeros" m) in
    if b == 0 then cleared else (b ∷ rest, m)

-- A full packet that is not an echo: its payload is parsed and the next request sent.
unfoldable pub handle_packet : Option String → List ℕ → Session → Outcome
handle_packet write_error actual s = elim (parse_response actual s.m) [
  | none ↦ panicked
  | some m ↦ running (record s { m = send_next_command write_error actual m; buffer = [] })
]

-- `len(last) > 0 && len(full) >= len(last) && bytes.Equal(full[0:len(last)], last)`.
abbrev pub is_echo : List ℕ → List ℕ → Option Bool
is_echo last full =
    if ltb 0 (length last) then guarded (length last) (length last) last full else some false

-- `buffer = buffer[n:]`.
unfoldable pub advance : Option (List ℕ) → Session → Outcome
advance none s = panicked
advance (some rest) s = running (record s { buffer = rest })

-- The packet in front of the buffer, behind `actualData := buffer[1 : packetSize+1]` and
-- `fullPacket := buffer[0 : packetSize+2]`. The echo test is on the last packet sent.
unfoldable pub open_packet :
    Option String → Option (List ℕ) → Option (List ℕ) → List ℕ → Session → Outcome
open_packet write_error none full buffer s = panicked
open_packet write_error (some actual) none buffer s = panicked
open_packet write_error (some actual) (some full) buffer s =
    let last = s.m.last_sent_command in
    branch panicked (is_echo last full) (advance (slice_from (length last) buffer) s)
      (handle_packet write_error actual (record s { buffer = buffer }))

-- `buffer[1:n]`.
abbrev pub behind_first : Option (List ℕ) → Option (List ℕ)
behind_first none = none
behind_first (some front) = slice_from 1 front

unfoldable pub take_packet : Option String → ℕ → List ℕ → Session → Outcome
take_packet write_error size buffer s =
    if ltb (length buffer) (size + 2)
    then running (record s { buffer = buffer })
    else open_packet write_error (behind_first (slice_to (size + 1) buffer))
        (slice_to (size + 2) buffer) buffer s

-- `len(buffer) >= 5 && bytes.Equal(buffer[0:len(initCommand)], initCommand)`.
abbrev pub is_init_echo : List ℕ → Option Bool
is_init_echo buffer = guarded 5 5 init_command buffer

-- The body of the loop behind the zeros, where the init echo is dropped.
unfoldable pub react : Option String → List ℕ → Session → Outcome
react write_error [] s = running (record s { buffer = [] })
react write_error (b ∷ rest) s =
    branch panicked (is_init_echo (b ∷ rest))
      (advance (slice_from 5 (b ∷ rest)) (record s { m = log_debug "Got our init echo" s.m }))
      (take_packet write_error b (b ∷ rest) s)

unfoldable pub receive : Event → Session → Session
receive e s = record s {
  buffer = s.buffer ++ e.new_data;
  last_received_data = if ltb 0 (length e.new_data) then e.received_at else s.last_received_data;
}

unfoldable pub step : Event → Session → Outcome
step e s =
    if e.cancelled
    then returned s context_done
    else (let s' = receive e s in
        let (buffer, m) = clear_zeros s'.buffer s'.m in
        react e.write_error buffer (record s' { m = m }))

unfoldable pub proceed : (Session → Outcome) → Outcome → Outcome
proceed f (running s) = f s
proceed f (returned s failure) = returned s failure
proceed f panicked = panicked

-- The loop, for as long as there are rounds. A clock that runs backwards counts as no time passed.
unfoldable pub run : List Event → Session → Outcome
run [] s = running s
run (e ∷ events) s =
    if ltb (e.now - s.last_received_data) idle_timeout
    then proceed (run events) (step e s)
    else returned s timed_out
