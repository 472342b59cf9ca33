-- ===== src/Mems3/Commands/Sends.antt =====
-- What `sendNextCommand` of internal/ecu/mems3/mems3.go puts on the line.
use package.text.Mathlib.TextEquality.{eq_iff}
use Prim.Native.Nat.{bit_xor-bitwise, digits, differ}
use rover_mems_ecu.Base.{
  ℕ, zero, suc, ◌/◌, ◌%◌, ◌≤◌, ◌≡◌, refl, ap, ◌∙◌, String, str_eq, Bool-cases, Option-cases, inl,
  inr, List, [], ◌∷◌, ◌++◌, Option, none, some, find, length, bit_xor, arith,
}
use rover_mems_ecu.Ecu.State.{State, set_user_command}
use rover_mems_ecu.Mems3.Commands.{
  Mems3, request_header, user_commands, take_user_command, xor_all_bytes, frame, send_command,
  after_response, send_next_command,
}

xor_all_bytes-append :
    (result : ℕ) (xs ys : List ℕ)
    → xor_all_bytes result (xs ++ ys) ≡ xor_all_bytes (xor_all_bytes result xs) ys
xor_all_bytes-append result [] ys = refl
xor_all_bytes-append result (x ∷ xs) ys = xor_all_bytes-append (bit_xor result x) xs ys

differ_self : (x : ℕ) → differ x x ≡ 0
differ_self zero = refl
differ_self (suc x) = differ_self x

digits-differ : (n a : ℕ) → a ≤ n → digits (λ b. b) differ n a a ≡ 0
digits-differ zero zero h = refl
digits-differ zero (suc a) h = absurd (omega arith)
digits-differ (suc n) zero h = refl
digits-differ (suc n) (suc a) h =
    omega (arith, digits-differ n (suc a / 2) (omega arith), differ_self (suc a % 2))

bit_xor_self : (a : ℕ) → bit_xor a a ≡ 0
bit_xor_self a = bit_xor-bitwise a a ∙ digits-differ a a (omega arith)

-- The exclusive or of all bytes of a frame, checksum and all, is 0.
pub xor_all_bytes-frame : (payload : List ℕ) → xor_all_bytes 0 (frame payload) ≡ 0
unfolding frame
xor_all_bytes-frame payload =
    let output : List ℕ = request_header ++ ((length payload % 256) ∷ payload) in
    xor_all_bytes-append 0 output (xor_all_bytes 0 output ∷ [])
    ∙ bit_xor_self (xor_all_bytes 0 output)

-- The request that is due after a reply: that of the pending user command, if there is such a
-- command, and the next of the sequence else.
pub wanted : String → ℕ → List ℕ → List ℕ
wanted name key previous = elim (find name user_commands) [
  | some command ↦ command
  | none ↦ after_response key previous
]

pub Emits : List ℕ → Mems3 → Mems3 → Type 0
Emits command m m' = (m'.written ≡ m.written ++ (frame command ∷ [])) × (m'.state.user_command ≡ "")

send_command-Emits :
    (w : Option String) (command : List ℕ) (m : Mems3)
    → m.state.user_command ≡ ""
    → Emits command m (send_command w command m)
unfolding Emits send_command
send_command-Emits none command m u = (refl, u)
send_command-Emits (some e) command m u = (refl, u)

take_user_command_lem :
    (s : State)
    → ((take_user_command s).1 ≡ find s.user_command user_commands)
      × ((take_user_command s).0.user_command ≡ "")
unfolding take_user_command set_user_command find
take_user_command_lem s = elim (Bool-cases (str_eq s.user_command "")) [
  | inl e ↦
      let nothing : find s.user_command user_commands ≡ none =
        ap (λ name. find name user_commands) ((eq_iff s.user_command "").0 e) in
      (rw (e, nothing), rw e)
  | inr e ↦ elim (Option-cases (find s.user_command user_commands)) [
    | inl f ↦ (rw (e, f), rw (e, f))
    | inr (c, f) ↦ (rw (e, f), rw (e, f))
  ]
]

-- After each reply of a MEMS 3 exactly one frame goes out, that of the request that is due. A pending
-- user command is taken out, known or not.
pub send_next_command-Emits :
    (w : Option String) (previous : List ℕ) (m : Mems3)
    → Emits (wanted m.state.user_command m.key previous) m (send_next_command w previous m)
unfolding send_next_command wanted Emits
send_next_command-Emits w previous m =
    let rest : Mems3 = record m { state = (take_user_command m.state).0 } in
    let (taken, cleared) = take_user_command_lem m.state in
    elim (Option-cases (find m.state.user_command user_commands)) [
      | inr (c, f) ↦
          rw (f, send_next_command, taken ∙ f, wanted) (send_command-Emits w c rest cleared)
      | inl f ↦
          rw (f, send_next_command, taken ∙ f, wanted)
            (send_command-Emits w (after_response m.key previous) rest cleared)
    ]
