-- ===== src/Mems3/Commands.antt =====
-- internal/ecu/mems3/mems3.go: the requests, `takeUserCommand`, `sendCommand` and `sendNextCommand`.
pub mod Sends
use rover_mems_ecu.Base.{
  ℕ, ◌+◌, ◌/◌, ◌%◌, String, str_eq, Bool, List, [], ◌∷◌, ◌++◌, Option, none, some, find, length,
  bit_and, bit_xor, if◌then◌else◌,
}
use rover_mems_ecu.Ecu.Log.{text}
use rover_mems_ecu.Ecu.State.{State, debug, set_user_command}
use rover_mems_ecu.Mems2j.Commands.{bytes_equal}

-- `MEMS3`, with the frames that it has handed to the port's `Write`.
pub record Mems3 : Type 0 where
  pub state : State
  pub written : List (List ℕ)
  pub seed : ℕ
  pub key : ℕ

abbrev pub log_debug : String → Mems3 → Mems3
log_debug msg m = record m { state = debug (record { format = msg; args = [] }) m.state }

abbrev pub request_header : List ℕ
request_header = 0xB8 ∷ 0x13 ∷ 0xF7 ∷ []

abbrev pub init_command : List ℕ
init_command = 0x1A ∷ 0x9A ∷ []

abbrev pub init_accepted : List ℕ
init_accepted = 0x5A ∷ 0x9A ∷ []

abbrev pub start_diagnostic : List ℕ
start_diagnostic = 0x10 ∷ 0xA0 ∷ []

abbrev pub start_diag_response : List ℕ
start_diag_response = 0x50 ∷ []

abbrev pub request_seed : List ℕ
request_seed = 0x27 ∷ 0x01 ∷ []

abbrev pub seed_response : List ℕ
seed_response = 0x67 ∷ 0x01 ∷ []

abbrev pub send_key : List ℕ
send_key = 0x27 ∷ 0x02 ∷ []

abbrev pub key_accept_response : List ℕ
key_accept_response = 0x67 ∷ 0x02 ∷ []

abbrev pub ping_command : List ℕ
ping_command = 0x3E ∷ []

abbrev pub pong_response : List ℕ
pong_response = 0x7E ∷ []

abbrev pub clear_faults_command : List ℕ
clear_faults_command = 0x14 ∷ 0x00 ∷ 0x00 ∷ []

abbrev pub faults_cleared_response : List ℕ
faults_cleared_response = 0x54 ∷ 0x00 ∷ 0x00 ∷ []

abbrev pub request_faults_command : List ℕ
request_faults_command = 0x18 ∷ 0x00 ∷ 0x00 ∷ 0x00 ∷ []

abbrev pub response_faults : List ℕ
response_faults = 0x58 ∷ []

abbrev pub request_data : ℕ → List ℕ
request_data pid = 0x21 ∷ pid ∷ []

abbrev pub response_data : ℕ → List ℕ
response_data pid = 0x61 ∷ pid ∷ []

abbrev pub user_commands : List (String × List ℕ)
user_commands = ("clearfaults", clear_faults_command) ∷ []

abbrev pub next_after_response : List (List ℕ × List ℕ)
next_after_response =
    (init_accepted, start_diagnostic)
    ∷ (start_diag_response, request_seed)
    ∷ (key_accept_response, ping_command)
    ∷ (pong_response, request_faults_command)
    ∷ (faults_cleared_response, request_faults_command)
    ∷ (response_faults, request_data 0x00)
    ∷ (response_data 0x00, request_data 0x06)
    ∷ (response_data 0x06, request_data 0x0A)
    ∷ (response_data 0x0A, request_data 0x0B)
    ∷ (response_data 0x0B, request_data 0x21)
    ∷ (response_data 0x21, ping_command)
    ∷ []

-- `nextAfterResponse[string(reply)]`.
abbrev pub get : List ℕ → List (List ℕ × List ℕ) → Option (List ℕ)
get reply [] = none
get reply ((k, v) ∷ m) = if bytes_equal reply k then some v else get reply m

-- `takeUserCommand`, with the state behind it.
unfoldable pub take_user_command : State → State × Option (List ℕ)
take_user_command s =
    let name = s.user_command in
    let s' = set_user_command "" s in
    if str_eq name "" then (s', none) else elim (find name user_commands) [
      | none ↦ (
        debug
            (record {
              format = "Asked to perform a user command but don't understand it";
              args = [];
            })
            s',
        none,
      )
      | some command ↦ (s', some command)
    ]

-- The loop of `xorAllBytes`, from its `result` on.
abbrev pub xor_all_bytes : ℕ → List ℕ → ℕ
xor_all_bytes result [] = result
xor_all_bytes result (b ∷ bs) = xor_all_bytes (bit_xor result b) bs

-- `output` of `sendCommand`.
unfoldable pub frame : List ℕ → List ℕ
frame payload =
    let output = request_header ++ ((length payload % 256) ∷ payload) in
    output ++ (xor_all_bytes 0 output ∷ [])

unfoldable pub send_command : Option String → List ℕ → Mems3 → Mems3
send_command write_error payload m = record m {
  state = elim write_error [
    | none ↦ m.state
    | some e ↦ debug (record { format = "serial write failed: %v"; args = text e ∷ [] }) m.state
  ];
  written = m.written ++ (frame payload ∷ []);
}

-- The request that `sendNextCommand` picks with no user command pending.
unfoldable pub after_response : ℕ → List ℕ → List ℕ
after_response key previous =
    if bytes_equal previous seed_response
    then send_key ++ ((key / 256 % 256) ∷ (bit_and key 0xFF) ∷ [])
    else elim (get previous next_after_response) [ some next ↦ next | none ↦ ping_command ]

unfoldable pub send_next_command : Option String → List ℕ → Mems3 → Mems3
send_next_command write_error previous m =
    let (state, pending) = take_user_command m.state in
    let m' : Mems3 = record m { state = state } in
    elim pending [
      | some command ↦ send_command write_error command m'
      | none ↦ send_command write_error (after_response m.key previous) m'
    ]
