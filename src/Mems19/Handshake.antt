-- ===== src/Mems19/Handshake.antt =====
-- internal/ecu/mems19/mems19.go: `keywordFrame`, `readUntil`, `waitForChallengeEcho` and
-- `handleWakeUpHandshake`. What is read before a deadline is a list of polls, and the deadline is its
-- end.
pub mod Keywords
pub mod Response
use rover_mems_ecu.Base.{
  ℕ, String, Bool, true, false, List, [], ◌∷◌, ◌++◌, Option, none, some, length, leb, ◌&&◌, ◌||◌,
  ◌==◌, bit_xor, if◌then◌else◌,
}
use rover_mems_ecu.Ecu.Log.{text, num, bytes, Arg}
use rover_mems_ecu.Ecu.State.{State, debug}

-- What the wake-up uses of `MEMS19`, with the bytes that it has handed to the port's `Write`.
pub record Mems19 : Type 0 where
  pub state : State
  pub written : List (List ℕ)

abbrev pub log_debug : String → List Arg → Mems19 → Mems19
log_debug msg args m = record m { state = debug (record { format = msg; args = args }) m.state }

-- The first two bytes.
abbrev two : List ℕ → Option (ℕ × ℕ)
two (a ∷ b ∷ rest) = some (a, b)
two (a ∷ []) = none
two [] = none

-- `keywordFrame`; `none` is nil.
unfoldable pub keyword_frame : List ℕ → Option (ℕ × ℕ)
keyword_frame [] = none
keyword_frame (v ∷ b) =
    let later = keyword_frame b in if v == 0x55 && leb 2 (length b) then two b else later

-- What one call of `Read` gives: bytes, or bytes and an error.
pub data Poll : Type 0 where
  received : List ℕ → Poll
  broken : List ℕ → String → Poll

pub data ReadResult : Type 0 where
  matched timed_out : List ℕ → ReadResult
  failed : List ℕ → String → ReadResult

-- `for len(buf) > 0 && buf[0] == 0x00`.
abbrev pub strip : List ℕ → List ℕ
strip [] = []
strip (b ∷ buf) = let rest = strip buf in if b == 0x00 then rest else b ∷ buf

-- `readUntil`, from a buffer on.
unfoldable pub read_until :
    String → (List ℕ → Bool) → List Poll → List ℕ → Mems19 → Mems19 × ReadResult
read_until label match [] buf m = (m, timed_out buf)
read_until label match (broken incoming e ∷ polls) buf m = (m, failed buf e)
read_until label match (received [] ∷ polls) buf m = read_until label match polls buf m
read_until label match (received (b ∷ bs) ∷ polls) buf m =
    let buf' : List ℕ = strip (buf ++ (b ∷ bs)) in
    let m' : Mems19 =
      log_debug "1.9 %s read %d byte(s), buffer now %X"
        (text label ∷ num (length (b ∷ bs)) ∷ bytes buf' ∷ []) m in
    let later = read_until label match polls buf' m' in
    if match buf' then (m', matched buf') else later

abbrev pub has_keywords : List ℕ → Bool
has_keywords b = elim (keyword_frame b) [ none ↦ false | some kw ↦ true ]

-- `bytes.IndexByte(b, v) >= 0`.
abbrev pub contains : ℕ → List ℕ → Bool
contains v [] = false
contains v (b ∷ bs) = b == v || contains v bs

pub data Outcome : Type 0 where
  completed : Mems19 → Outcome
  aborted : Mems19 → String → Outcome
  panicked : Outcome

-- `waitForChallengeEcho` behind its read.
unfoldable pub echo_seen : Mems19 → ReadResult → Outcome
echo_seen m (failed buf e) = aborted m e
echo_seen m (timed_out buf) = aborted m "timeout waiting for challenge echo (0xE9)"
echo_seen m (matched buf) = completed (log_debug "1.9 ECU init handshake complete" [] m)

unfoldable pub wait_for_challenge_echo : List Poll → Mems19 → Outcome
wait_for_challenge_echo polls m =
    let (m', result) = read_until "challenge-echo" (contains 0xE9) polls [] m in echo_seen m' result

-- What `handleWakeUpHandshake` does with a response to the challenge.
unfoldable pub respond : Option String → List Poll → ℕ → Mems19 → Outcome
respond write_error echoes response m =
    let m' =
      log_debug "Sending Challenge Response: 0x%02X after W4 (%v)" (num response ∷ text "30ms" ∷ [])
        m in
    let m'' : Mems19 = record m' { written = m'.written ++ ((response ∷ []) ∷ []) } in
    elim write_error [ some e ↦ aborted m'' e | none ↦ wait_for_challenge_echo echoes m'' ]

-- `handleWakeUpHandshake` behind its read.
unfoldable pub challenge : Option String → List Poll → Mems19 → ReadResult → Outcome
challenge write_error echoes m (failed buf e) = aborted m e
challenge write_error echoes m (timed_out buf) = respond write_error echoes 0x7C (
    log_debug
      "1.9 ECU: no keyword frame within timeout; sending fallback challenge 0x7C (assumes KW2=0x83)"
      [] m)
challenge write_error echoes m (matched buf) = elim (keyword_frame buf) [
  | none ↦ panicked
  | some kw ↦
      respond write_error echoes (bit_xor kw.1 0xFF)
        (log_debug "1.9 ECU Woke Response received (55 %02X %02X)" (num kw.0 ∷ num kw.1 ∷ []) m)
]

unfoldable pub handle_wake_up_handshake : Option String → List Poll → List Poll → Mems19 → Outcome
handle_wake_up_handshake write_error polls echoes m =
    let (m', result) = read_until "handshake" has_keywords polls [] m in
    challenge write_error echoes m' result
