-- ===== src/Mems2j/Commands/Sends.antt =====
-- What `sendNextCommand` of internal/ecu/mems2j/mems2j.go puts on the line.
use package.text.Mathlib.TextEquality.{eq_iff}
use rover_mems_ecu.Base.{
  ℕ, ◌≡◌, refl, ap, ◌∙◌, String, str_eq, Bool-cases, Option-cases, inl, inr, List, [], ◌∷◌, ◌++◌,
  Option, none, some, find,
}
use rover_mems_ecu.Ecu.State.{State, set_user_command}
use rover_mems_ecu.Mems2j.Commands.{
  Mems2j, user_commands, ping_command, take_user_command, final_command, send_command,
  after_response, send_next_command, log_debug,
}

-- The request that is due after a response: that of the pending user command, if there is such a
-- command, and the next of the hand-shake or of the poll else, which is a ping after a response that
-- is not recognised.
pub wanted : String → ℕ → List ℕ → List ℕ
wanted name key previous = elim (find name user_commands) [
  | some command ↦ command
  | none ↦ elim (after_response key previous) [ some command ↦ command | none ↦ ping_command ]
]

pub Sent : List ℕ → Mems2j → Mems2j → Type 0
Sent command m m' =
    (m'.written ≡ m.written ++ (final_command command ∷ []))
    × (m'.last_sent_command ≡ final_command command)
    × (m'.state.user_command ≡ "")

send_command-Sent :
    (w : Option String) (command : List ℕ) (m : Mems2j)
    → m.state.user_command ≡ ""
    → Sent command m (send_command w command m)
unfolding Sent send_command
send_command-Sent none command m u = (refl, refl, u)
send_command-Sent (some e) command m u = (refl, refl, u)

take_user_command_lem :
    (s : State)
    → ((take_user_command s).1 ≡ find s.user_command user_commands)
      × ((take_user_command s).0.user_command ≡ "")
unfolding take_user_command set_user_command find
take_user_command_lem s = elim (Bool-cases (str_eq s.user_command "")) [
  | inl e ↦
      let nothing : find s.user_command user_commands ≡ none =
        ap (λ name. find name user_commands) ((eq_iff s.user_command "").0 e) in
      (rw (e, nothing), rw e)
  | inr e ↦ elim (Option-cases (find s.user_command user_commands)) [
    | inl f ↦ (rw (e, f), rw (e, f))
    | inr (c, f) ↦ (rw (e, f), rw (e, f))
  ]
]

-- After each response exactly one packet goes out, the frame of the request that is due, and it is
-- the one whose echo is waited for. A pending user command is taken out, known or not.
pub send_next_command-Sent :
    (w : Option String) (previous : List ℕ) (m : Mems2j)
    → Sent (wanted m.state.user_command m.key previous) m (send_next_command w previous m)
unfolding send_next_command wanted Sent
send_next_command-Sent w previous m =
    let rest : Mems2j = record m { state = (take_user_command m.state).0 } in
    let (taken, cleared) = take_user_command_lem m.state in
    elim (Option-cases (find m.state.user_command user_commands)) [
      | inr (c, f) ↦
          rw (f, send_next_command, taken ∙ f, wanted) (send_command-Sent w c rest cleared)
      | inl f ↦ elim (Option-cases (after_response m.key previous)) [
        | inl g ↦
            rw (f, send_next_command, taken ∙ f, g, wanted)
              (send_command-Sent w ping_command (log_debug "Falling back to ping command" rest)
                cleared)
        | inr (c, g) ↦
            rw (f, send_next_command, taken ∙ f, g, wanted) (send_command-Sent w c rest cleared)
      ]
    ]
