-- ===== src/Rc5/Loop/Answer.antt =====
-- A whole fault reply in the buffer of internal/ecu/rc5/rc5.go, with no user command pending.
use rover_mems_ecu.Base.{
  ℕ, ◌∙◌, ap, false, List, [], ◌∷◌, ◌++◌, none, some, length, drop, slice_from, slice_from-drop,
  ltb, ◌≡◌, arith,
}
use rover_mems_ecu.Rc5.Commands.{
  Rc5, log_debug, ping_command, faults_response, request_after, send_next_command,
}
use rover_mems_ecu.Rc5.Commands.Sends.{send_next_command-idle}
use rover_mems_ecu.Rc5.Faults.{fault_texts, parse_faults}
use rover_mems_ecu.Rc5.Faults.Reports.{parse_faults_lem}
use rover_mems_ecu.Rc5.Loop.{Session, running, expected_length, answer_faults, fault_reply}

pub fault_reply_lem :
    (a b : ℕ) (codes : List ℕ) (s : Session)
    → s.buffer ≡ a ∷ b ∷ codes
    → ltb (length s.buffer) (expected_length a) ≡ false
    → s.r.state.user_command ≡ ""
    → (r : Rc5) × (fault_reply none a s
        ≡ running (record s { r = r; buffer = drop (expected_length a) s.buffer }))
      × (r.written ≡ s.r.written ++ (ping_command ∷ []))
      × (r.state.faults ≡ fault_texts codes)
      × (r.state.user_command ≡ "")
unfolding fault_reply answer_faults request_after
fault_reply_lem a b codes s e whole u =
    let got = log_debug "< FAULTS Got fault codes!" s.r in
    let (r, parsed, faults, same, kept) = parse_faults_lem a b codes got in
    let (sent, idle, reported, linked) = send_next_command-idle none faults_response r (same ∙ u) in
    let parsed' : parse_faults s.buffer got ≡ some r = ap (λ bs. parse_faults bs got) e ∙ parsed in
    let left : slice_from (expected_length a) s.buffer ≡ some (drop (expected_length a) s.buffer) =
      slice_from-drop (expected_length a) s.buffer (ground (arith, whole)) in
    (
      send_next_command none faults_response r,
      rw (whole, parsed', left),
      sent ∙ ap (λ frames. frames ++ (ping_command ∷ [])) kept,
      reported ∙ faults,
      idle,
    )
