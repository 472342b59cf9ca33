-- ===== src/Mems1x/Commands.antt =====
-- internal/ecu/mems1x/loop.go: the command bytes, `nextCommand` and `send`.
use rover_mems_ecu.Base.{
  ℕ, String, str_eq, Bool, false, List, [], ◌∷◌, ◌++◌, Option, none, some, find, ◌==◌,
  if◌then◌else◌,
}
use rover_mems_ecu.Ecu.Log.{text, num}
use rover_mems_ecu.Ecu.State.{State, debug, set_user_command}

-- `MEMS1x`, with the bytes that it has handed to the port's `Write`.
pub record Mems1x : Type 0 where
  pub state : State
  pub written : List ℕ
  pub got_kline_echo : Bool
  pub last_kline_byte : ℕ

abbrev pub request_clear_faults : ℕ
request_clear_faults = 0xCC

abbrev pub user_commands : List (String × ℕ)
user_commands =
    ("clearfaults", 0xCC)
    ∷ ("startTestRpmGauge", 0x6B)
    ∷ ("startTestLambdaHeater", 0x19)
    ∷ ("stopTestLambdaHeater", 0x09)
    ∷ ("startTestACClutch", 0x13)
    ∷ ("stopTestACClutch", 0x03)
    ∷ ("startTestFuelPump", 0x11)
    ∷ ("stopTestFuelPump", 0x01)
    ∷ ("startTestFan1", 0x1D)
    ∷ ("stopTestFan1", 0x0D)
    ∷ ("startTestPurgeValve", 0x18)
    ∷ ("stopTestPurgeValve", 0x08)
    ∷ ("increaseIdleDecay", 0x89)
    ∷ ("decreaseIdleDecay", 0x8A)
    ∷ ("increaseIdleSpeed", 0x91)
    ∷ ("decreaseIdleSpeed", 0x92)
    ∷ ("increaseIgnitionAdvanceOffset", 0x93)
    ∷ ("decreaseIgnitionAdvanceOffset", 0x94)
    ∷ ("increaseFuelTrim1", 0x79)
    ∷ ("decreaseFuelTrim1", 0x7A)
    ∷ ("increaseFuelTrim2", 0x7B)
    ∷ ("decreaseFuelTrim2", 0x7C)
    ∷ []

-- `m[b] = name` for each entry. No byte stands twice, so the order of the Go map does not show.
abbrev pub reversed : List (String × ℕ) → List (ℕ × String)
reversed [] = []
reversed ((name, b) ∷ rest) = (b, name) ∷ reversed rest

abbrev pub command_names : List (ℕ × String)
command_names = reversed user_commands

-- The `switch` of `nextCommand`.
unfoldable pub after_response : ℕ → ℕ
after_response previous =
    if previous == request_clear_faults
    then 0x80
    else (if previous == 0xCA
        then 0x75
        else (if previous == 0x75
            then 0xF4
            else (if previous == 0xF4
                then 0xD0
                else (if previous == 0xD0
                    then 0x80
                    else (if previous == 0x80
                        then 0x7D
                        else (if previous == 0x7D then 0x80 else 0x80))))))

-- `nextCommand`: the byte to send, and the state with the pending user command taken out.
unfoldable pub next_command : ℕ → State → State × ℕ
next_command previous s =
    let cmd = s.user_command in
    let s' = set_user_command "" s in
    if str_eq cmd "" then (s', after_response previous) else elim (find cmd user_commands) [
      | some command ↦ (debug (record { format = "> "; args = text cmd ∷ [] }) s', command)
      | none ↦ (
        debug (record { format = "Unknown user command:"; args = text cmd ∷ [] }) s',
        after_response previous,
      )
    ]

-- `send`. `write_error` is the error of the port's `Write`, which is only logged.
unfoldable pub send : Option String → ℕ → Mems1x → Mems1x
send write_error data_byte m =
    let s = debug (record { format = "Sending byte: %02X"; args = num data_byte ∷ [] }) m.state in
    record {
      state = elim write_error [
        | none ↦ s
        | some e ↦ debug (record { format = "serial write failed: %v"; args = text e ∷ [] }) s
      ];
      written = m.written ++ (data_byte ∷ []);
      got_kline_echo = false;
      last_kline_byte = data_byte;
    }
