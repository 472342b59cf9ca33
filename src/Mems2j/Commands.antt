-- ===== src/Mems2j/Commands.antt =====
-- internal/ecu/mems2j/mems2j.go: the requests, `buildNextAfterPoll`, `takeUserCommand`, `sendCommand`
-- and `sendNextCommand`.
pub mod Sends
use rover_mems_ecu.Base.{
  ℕ, ◌+◌, ◌/◌, ◌%◌, String, str_append, str_eq, Bool, true, false, ◌&&◌, ◌||◌, List, [], ◌∷◌, ◌++◌,
  Option, none, some, slice_to, slice_to-take, take, leb, ◌≤◌, ◌≡◌, refl, ap, arith, Bool-cases,
  inl, inr, find, lookup, insert, length, be16, bit_and, get_or, ◌==◌, if◌then◌else◌,
}
use rover_mems_ecu.Ecu.Log.{text}
use rover_mems_ecu.Ecu.State.{State, debug, set_user_command}

-- `MEMS2J`, with the packets that it has handed to the port's `Write`.
pub record Mems2j : Type 0 where
  pub state : State
  pub written : List (List ℕ)
  pub last_sent_command : List ℕ
  pub seed : ℕ
  pub key : ℕ

-- `m.logDebug(msg)`.
abbrev pub log_debug : String → Mems2j → Mems2j
log_debug msg m = record m { state = debug (record { format = msg; args = [] }) m.state }

-- `bytes.Equal`.
abbrev pub bytes_equal : List ℕ → List ℕ → Bool
bytes_equal [] [] = true
bytes_equal (a ∷ as') (b ∷ bs) = a == b && bytes_equal as' bs
bytes_equal [] (b ∷ bs) = false
bytes_equal (a ∷ as') [] = false

abbrev equal_to : List ℕ → Option (List ℕ) → Option Bool
equal_to header none = none
equal_to header (some front) = some (bytes_equal front header)

-- `bytes.Equal(actual[0:n], header)`.
abbrev pub starts_with : ℕ → List ℕ → List ℕ → Option Bool
starts_with n header actual = equal_to header (slice_to n actual)

pub starts_with-take :
    (n : ℕ) (header actual : List ℕ)
    → n ≤ length actual
    → starts_with n header actual ≡ some (bytes_equal (take n actual) header)
starts_with-take n header actual h = ap (equal_to header) (slice_to-take n actual h)

-- The same under `len(actual) >= m &&`.
abbrev pub guarded : ℕ → ℕ → List ℕ → List ℕ → Option Bool
guarded m n header actual =
    if leb m (length actual) then starts_with n header actual else some false

pub guarded-take :
    (m n : ℕ) (header actual : List ℕ)
    → n ≤ m
    → guarded m n header actual ≡ some (leb m (length actual) && bytes_equal (take n actual) header)
guarded-take m n header actual h = elim (Bool-cases (leb m (length actual))) [
  | inl long ↦ rw long (starts_with-take n header actual (ground (arith, h, long)))
  | inr short ↦ rw short refl
]

abbrev pub init_command : List ℕ
init_command = 0x81 ∷ 0x13 ∷ 0xF7 ∷ 0x81 ∷ 0x0C ∷ []

abbrev pub start_diagnostic : List ℕ
start_diagnostic = 0x10 ∷ 0xA0 ∷ []

abbrev pub request_seed : List ℕ
request_seed = 0x27 ∷ 0x01 ∷ []

abbrev pub send_key : List ℕ
send_key = 0x27 ∷ 0x02 ∷ []

abbrev pub ping_command : List ℕ
ping_command = 0x3E ∷ []

abbrev pub request_data : ℕ → List ℕ
request_data pid = 0x21 ∷ pid ∷ []

abbrev pub request_faults_command : List ℕ
request_faults_command = request_data 0x19

abbrev pub woke_response : List ℕ
woke_response = 0xC1 ∷ 0xD5 ∷ 0x8F ∷ []

abbrev pub start_diag_response : List ℕ
start_diag_response = 0x50 ∷ []

abbrev pub seed_response : List ℕ
seed_response = 0x67 ∷ 0x01 ∷ []

abbrev pub key_accept_response : List ℕ
key_accept_response = 0x67 ∷ 0x02 ∷ []

abbrev pub pong_response : List ℕ
pong_response = 0x7E ∷ []

abbrev pub faults_cleared_response : List ℕ
faults_cleared_response = 0x71 ∷ 0xCB ∷ []

abbrev pub response_learn_immo_command : List ℕ
response_learn_immo_command = 0x71 ∷ 0xD0 ∷ []

abbrev pub refuse_ping : List ℕ
refuse_ping = 0x7F ∷ 0x3E ∷ 0x10 ∷ []

abbrev pub poll_order : List (List ℕ)
poll_order =
    request_faults_command
    ∷ request_data 0x00
    ∷ request_data 0x01
    ∷ request_data 0x02
    ∷ request_data 0x03
    ∷ request_data 0x05
    ∷ request_data 0x06
    ∷ request_data 0x07
    ∷ request_data 0x08
    ∷ request_data 0x09
    ∷ request_data 0x0A
    ∷ request_data 0x0B
    ∷ request_data 0x0C
    ∷ request_data 0x0D
    ∷ request_data 0x0F
    ∷ request_data 0x10
    ∷ request_data 0x11
    ∷ request_data 0x12
    ∷ request_data 0x13
    ∷ request_data 0x21
    ∷ request_data 0x25
    ∷ request_data 0x3A
    ∷ []

abbrev pub user_commands : List (String × List ℕ)
user_commands =
    ("clearfaults", 0x31 ∷ 0xCB ∷ 0 ∷ 0 ∷ 0 ∷ 0 ∷ 0 ∷ 0 ∷ 0 ∷ 0 ∷ 0 ∷ 0 ∷ 0 ∷ 0 ∷ 0 ∷ 0 ∷ 0 ∷ [])
    ∷ ("learnimmo", 0x31 ∷ 0xD0 ∷ 0 ∷ 0 ∷ 0 ∷ 0 ∷ 0 ∷ 0 ∷ 0 ∷ 0 ∷ [])
    ∷ ("read722", 0x23 ∷ 0x00 ∷ 0x07 ∷ 0x22 ∷ 0x01 ∷ [])
    ∷ ("service13", 0x13 ∷ [])
    ∷ ("service31_d5", 0x31 ∷ 0xD5 ∷ [])
    ∷ ("service33_d5", 0x33 ∷ 0xD5 ∷ [])
    ∷ ("service33_c0", 0x33 ∷ 0xC0 ∷ [])
    ∷ ("service33_c8", 0x33 ∷ 0xC8 ∷ [])
    ∷ ("service33_d2", 0x33 ∷ 0xD2 ∷ [])
    ∷ ("service33_d4", 0x33 ∷ 0xD4 ∷ [])
    ∷ ("service33_da", 0x33 ∷ 0xDA ∷ [])
    ∷ ("service33_c1", 0x33 ∷ 0xC1 ∷ [])
    ∷ ("service33_d7", 0x33 ∷ 0xD7 ∷ [])
    ∷ []

-- The request behind `pollOrder[i]`, which is the first of the `rest`.
abbrev pub request_after : List (List ℕ) → List ℕ
request_after [] = ping_command
request_after (next ∷ rest) = next

-- The loop of `buildNextAfterPoll`. The two bytes of a key are one number, high byte first.
unfoldable pub build_next_after_poll : List (List ℕ) → List (ℕ × List ℕ) → List (ℕ × List ℕ)
build_next_after_poll [] m = m
build_next_after_poll (req ∷ rest) m =
    build_next_after_poll rest (insert (be16 0x61 (get_or req 1 0)) (request_after rest) m)

unfoldable pub next_after_poll : List (ℕ × List ℕ)
next_after_poll = build_next_after_poll poll_order []

-- `takeUserCommand`, with the state behind it.
unfoldable pub take_user_command : State → State × Option (List ℕ)
take_user_command s =
    let name = s.user_command in
    let s' = set_user_command "" s in
    if str_eq name "" then (s', none) else elim (find name user_commands) [
      | none ↦
          (debug (record { format = str_append "Unknown user command: " name; args = [] }) s', none)
      | some command ↦ (
        debug (record { format = str_append "Running 2J user command: " name; args = [] }) s',
        some command,
      )
    ]

abbrev pub sum : List ℕ → ℕ
sum [] = 0
sum (b ∷ bs) = b + sum bs

-- `finalCommand` of `sendCommand`.
unfoldable pub final_command : List ℕ → List ℕ
final_command command =
    let packet = (length command % 256) ∷ command in packet ++ ((bit_and (sum packet) 0xFF) ∷ [])

-- `sendCommand`. `write_error` is the error of the port's `Write`, which is only logged.
unfoldable pub send_command : Option String → List ℕ → Mems2j → Mems2j
send_command write_error command m = record m {
  state = elim write_error [
    | none ↦ m.state
    | some e ↦ debug (record { format = "serial write failed: %v"; args = text e ∷ [] }) m.state
  ];
  written = m.written ++ (final_command command ∷ []);
  last_sent_command = final_command command;
}

-- What `sendNextCommand` recognises by the two bytes in front. The key is that of the handler.
unfoldable pub by_header : ℕ → List ℕ → Option (List ℕ)
by_header key (a ∷ b ∷ rest) =
    if bytes_equal (a ∷ b ∷ []) seed_response
    then some (send_key ++ ((key / 256 % 256) ∷ (bit_and key 0xFF) ∷ []))
    else lookup (be16 a b) next_after_poll
by_header key (a ∷ []) = none
by_header key [] = none

-- The `switch` of `sendNextCommand` and what follows it; `none` is the fall-back.
unfoldable pub after_response : ℕ → List ℕ → Option (List ℕ)
after_response key previous =
    if bytes_equal previous woke_response
    then some start_diagnostic
    else (if bytes_equal previous start_diag_response
        then some request_seed
        else (if bytes_equal previous key_accept_response
            then some ping_command
            else (if bytes_equal previous pong_response
                  || bytes_equal previous faults_cleared_response
                then some request_faults_command
                else (if bytes_equal previous response_learn_immo_command
                    then some (request_data 0x00)
                    else (if bytes_equal previous refuse_ping
                        then some request_seed
                        else by_header key previous)))))

unfoldable pub send_next_command : Option String → List ℕ → Mems2j → Mems2j
send_next_command write_error previous m =
    let (state, pending) = take_user_command m.state in
    let m' : Mems2j = record m { state = state } in
    elim pending [
      | some command ↦ send_command write_error command m'
      | none ↦ elim (after_response m.key previous) [
        | some command ↦ send_command write_error command m'
        | none ↦ send_command write_error ping_command (log_debug "Falling back to ping command" m')
      ]
    ]
