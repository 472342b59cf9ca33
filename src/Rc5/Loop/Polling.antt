-- ===== src/Rc5/Loop/Polling.antt =====
-- The poll of internal/ecu/rc5/rc5.go on a line that echoes: ping, pong, request, faults, ping.
use rover_mems_ecu.Base.{
  ℕ, ◌+◌, ◌≤◌, ◌∙◌, ap, Bool, ◌&&◌, true, false, List, [], ◌∷◌, ◌++◌, append_assoc, map, none,
  length, length-append, drop_all, ◌==◌, ◌≡◌, refl, arith,
}
use rover_mems_ecu.Mems1x.Loop.{reads, no_error}
use rover_mems_ecu.Rc5.Commands.{
  Rc5, log_debug, ping_command, pong_response, request_faults_command, request_after,
  send_next_command,
}
use rover_mems_ecu.Rc5.Commands.Sends.{send_next_command-idle}
use rover_mems_ecu.Rc5.Faults.Reports.{encode, text_of, fault_texts-encode}
use rover_mems_ecu.Rc5.Loop.Answer.{fault_reply_lem}
use rover_mems_ecu.Rc5.Loop.{
  Session, running, expected_length, fault_reply, dispatch, react, receive, step, proceed, run,
}

-- A fault reply: the length above 0xC0, the service, the codes and a checksum.
abbrev pub reply : List (ℕ × ℕ) → ℕ → List ℕ
reply codes check = (0xC0 + (length (encode codes) + 2)) ∷ 0x33 ∷ (encode codes ++ (check ∷ []))

abbrev pub waiting : Rc5 → Session
waiting r = record { r = r; buffer = []; read_loops = 0 }

length-encode : (codes : List (ℕ × ℕ)) → length (encode codes) ≡ length codes + length codes
length-encode [] = omega arith
length-encode ((hi, lo) ∷ codes) = omega (arith, length-encode codes)

-- The reply alone in the buffer: its codes are the faults, a ping goes out, and nothing is left.
fault_reply-reply :
    (codes : List (ℕ × ℕ)) (check n : ℕ) (r : Rc5)
    → length codes ≤ 30
    → r.state.user_command ≡ ""
    → let s : Session = record { r = r; buffer = reply codes check; read_loops = n } in
      (r' : Rc5) × (fault_reply none (0xC0 + (length (encode codes) + 2)) s
        ≡ running (record { r = r'; buffer = []; read_loops = n }))
      × (r'.written ≡ r.written ++ (ping_command ∷ []))
      × (r'.state.faults ≡ map text_of codes)
      × (r'.state.user_command ≡ "")
fault_reply-reply codes check n r few u =
    let a = 0xC0 + (length (encode codes) + 2) in
    let rest : List ℕ = encode codes ++ (check ∷ []) in
    let s : Session = record { r = r; buffer = reply codes check; read_loops = n } in
    let size : length (reply codes check) ≡ expected_length a =
      omega (arith, length-encode codes, length-append (encode codes) (check ∷ [])) in
    let (r', replied, sent, faults, idle) =
      fault_reply_lem a 0x33 rest s refl (ground (arith, size)) u in
    (
      r',
      replied
          ∙ ap (λ bs. running (record { r = r'; buffer = bs; read_loops = n }))
              (drop_all (expected_length a) (reply codes check) (omega (arith, size))),
      sent,
      faults ∙ fault_texts-encode codes check,
      idle,
    )

and_false : (t : Bool) → (t && false) ≡ false
and_false true = refl
and_false false = refl

dispatch-header :
    (a c : ℕ) (rest : List ℕ) (s : Session)
    → 0xC0 ≤ a
    → dispatch none a 0x33 c rest s ≡ fault_reply none a s
unfolding dispatch
dispatch-header a c rest s h =
    let other : (a == 0x82) ≡ false = ground (arith, h) in rw (other, and_false (a == 0xC2))

react-reply :
    (codes : List (ℕ × ℕ)) (check : ℕ) (s : Session)
    → react none (reply codes check) s ≡ fault_reply none (0xC0 + (length (encode codes) + 2)) s
unfolding react
react-reply [] check s = dispatch-header 0xC2 check [] s (omega arith)
react-reply ((hi, lo) ∷ codes) check s =
    dispatch-header (0xC0 + (length (encode ((hi, lo) ∷ codes)) + 2)) hi
      (lo ∷ (encode codes ++ (check ∷ []))) s (omega arith)

-- One round of the poll on a line that echoes, cut into reads as the handler's pauses cut it: the echo of
-- a ping with the pong, and the echo of the request with a fault reply. The faults are those of the
-- reply, and the poll is where it was.
pub run-poll :
    (codes : List (ℕ × ℕ)) (check : ℕ) (r : Rc5)
    → length codes ≤ 30
    → r.state.user_command ≡ ""
    → (r' : Rc5) × (run
          (reads (ping_command ++ pong_response) no_error none
            ∷ reads [] no_error none
            ∷ reads (request_faults_command ++ reply codes check) no_error none
            ∷ reads [] no_error none
            ∷ [])
          (waiting r)
        ≡ running (record { r = r'; buffer = []; read_loops = 1 }))
      × (r'.written ≡ r.written ++ (request_faults_command ∷ ping_command ∷ []))
      × (r'.state.faults ≡ map text_of codes)
      × (r'.state.user_command ≡ "")
unfolding run step receive react dispatch proceed request_after
run-poll codes check r few u =
    let ponged = log_debug "< PONG from ECU" r in
    let (sent, idle, reported, linked) = send_next_command-idle none pong_response ponged u in
    let asked = send_next_command none pong_response ponged in
    let (r', replied, sent', faults, idle') = fault_reply-reply codes check 1 asked few idle in
    let s : Session = record { r = asked; buffer = reply codes check; read_loops = 1 } in
    (
      r',
      ap (proceed (run [])) (react-reply codes check s ∙ replied),
      sent'
          ∙ ap (λ frames. frames ++ (ping_command ∷ [])) sent
          ∙ append_assoc r.written (request_faults_command ∷ []) (ping_command ∷ []),
      faults,
      idle',
    )
