-- ===== src/Rc5/Commands.antt =====
-- internal/ecu/rc5/rc5.go: the frames, and `sendNextCommand`.
pub mod Sends
use rover_mems_ecu.Base.{
  ℕ, String, str_eq, Bool, ◌||◌, List, [], ◌∷◌, ◌++◌, Option, none, some, find, if◌then◌else◌,
}
use rover_mems_ecu.Ecu.Log.{text}
use rover_mems_ecu.Ecu.State.{State, debug, set_user_command}
use rover_mems_ecu.Mems2j.Commands.{bytes_equal}

-- `RC5`: whether `sp` is set, whether that port is open, and the frames handed to its `Write`.
pub record Rc5 : Type 0 where
  pub state : State
  pub written : List (List ℕ)
  pub has_port : Bool
  pub is_open : Bool

abbrev pub log_debug : String → Rc5 → Rc5
log_debug msg r = record r { state = debug (record { format = msg; args = [] }) r.state }

abbrev pub ping_command : List ℕ
ping_command = 0x82 ∷ 0x00 ∷ 0x7D ∷ []

abbrev pub request_faults_command : List ℕ
request_faults_command = 0x82 ∷ 0x33 ∷ 0x4A ∷ []

abbrev pub clear_faults_command : List ℕ
clear_faults_command = 0x82 ∷ 0xC3 ∷ 0xBA ∷ []

abbrev pub woke_response : List ℕ
woke_response = 0x55 ∷ 0x06 ∷ 0x3B ∷ []

abbrev pub pong_response : List ℕ
pong_response = 0xC2 ∷ 0x00 ∷ 0x3D ∷ []

abbrev pub faults_response : List ℕ
faults_response = 0x33 ∷ []

abbrev pub faults_cleared_response : List ℕ
faults_cleared_response = 0xC2 ∷ 0xC3 ∷ 0x7A ∷ []

abbrev pub user_commands : List (String × List ℕ)
user_commands = ("clearfaults", clear_faults_command) ∷ []

-- `r.sp.Write(command)`, and the log line of its error.
unfoldable pub write : Option String → List ℕ → Rc5 → Rc5
write write_error command r = record r {
  state = elim write_error [
    | none ↦ r.state
    | some e ↦ debug (record { format = "serial write failed: %v"; args = text e ∷ [] }) r.state
  ];
  written = r.written ++ (command ∷ []);
}

-- The ladder of `sendNextCommand` on the previous response.
unfoldable pub request_after : List ℕ → List ℕ
request_after previous =
    if bytes_equal previous pong_response
    then request_faults_command
    else (if bytes_equal previous woke_response || bytes_equal previous faults_response
        then ping_command
        else (if bytes_equal previous faults_cleared_response
            then request_faults_command
            else ping_command))

abbrev pub clear_user_command : Rc5 → Rc5
clear_user_command r = record r { state = set_user_command "" r.state }

unfoldable pub send_next_command : Option String → List ℕ → Rc5 → Rc5
send_next_command write_error previous r =
    let cmd = r.state.user_command in
    let polled : Rc5 → Rc5 =
      λ r'. write write_error (request_after previous) (clear_user_command r') in
    if str_eq cmd "" then polled r else elim (find cmd user_commands) [
      | some command ↦ write write_error command (clear_user_command r)
      | none ↦ polled (log_debug "Asked to perform a user command but don't understand it" r)
    ]
