-- ===== src/Mems19/Connect/Handover.antt =====
-- How `Connect` of internal/ecu/mems19/mems19.go ends.
use rover_mems_ecu.Base.{
  ℕ, ◌≡◌, ◌⊎◌, inl, inr, refl, subst, sym, String, true, false, List, [], ◌∷◌, ◌++◌, Option, none,
  some,
}
use rover_mems_ecu.Mems19.SlowInit.{Pulse, BreakError, send_5_baud_wakeup}
use rover_mems_ecu.Mems19.Handshake.{
  Mems19, log_debug, Outcome, completed, aborted, panicked, handle_wake_up_handshake,
}
use rover_mems_ecu.Mems19.Handshake.Response.{AtMostOne, handshake-AtMostOne}
use rover_mems_ecu.Mems19.Connect.{
  Flushed, stale, nothing, timed_out, failed, PortAnswers, Failure, open_failed, set_timeout_failed,
  wake_up_failed, Connection, give_up, flush_input, conclude, release, hand_over, behind_wakeup,
  wake_up, open_port, connect,
}

-- At most one frame of one byte is written behind these.
abbrev pub WroteFew : List (List ℕ) → Mems19 → Type 0
WroteFew frames m = (m.written ≡ frames) ⊎ ((b : ℕ) × (m.written ≡ frames ++ ((b ∷ []) ∷ [])))

-- What an error of `Connect` comes from. The handshake is none of these.
abbrev pub CausedBy : PortAnswers → Failure → Type 0
CausedBy port (open_failed e) = port.open_error ≡ some e
CausedBy port (set_timeout_failed e) =
    (port.timeout_error ≡ some e) ⊎ (port.no_timeout_error ≡ some e)
CausedBy port (wake_up_failed e) = (send_5_baud_wakeup port.breaks).1 ≡ some e

-- The port is open and handed over, or it is closed and there is an error with its cause.
abbrev pub IsSettled : PortAnswers → Connection → Type 0
IsSettled port c =
    ((c.failure ≡ none) × (c.is_open ≡ true) × (c.handed_over ≡ true))
    ⊎ ((e : Failure) × ((c.failure ≡ some e)
          × (CausedBy port e)
          × (c.is_open ≡ false)
          × (c.handed_over ≡ false)))

-- It has not panicked, and has ended well.
abbrev pub EndsWell : PortAnswers → List (List ℕ) → Option Connection → Type 0
EndsWell port frames r =
    (c : Connection) × ((r ≡ some c) × IsSettled port c × WroteFew frames c.handler)

flush_input-written :
    (reads : List Flushed) (m : Mems19) → (flush_input reads m).written ≡ m.written
unfolding flush_input
flush_input-written [] m = refl
flush_input-written (stale ∷ reads) m = flush_input-written reads m
flush_input-written (nothing ∷ reads) m = refl
flush_input-written (timed_out ∷ reads) m = refl
flush_input-written (failed e ∷ reads) m = refl

conclude-WroteFew :
    (frames : List (List ℕ)) (o : Outcome)
    → AtMostOne frames o
    → (m : Mems19) × ((conclude o ≡ some m) × WroteFew frames m)
unfolding conclude
conclude-WroteFew frames (completed m) h = (_, (refl, h))
conclude-WroteFew frames (aborted m e) h = (_, (refl, h))
conclude-WroteFew frames panicked h = elim h [ inl e ↦ absurd e | inr (b, e) ↦ absurd e ]

give_up-EndsWell :
    (port : PortAnswers) (frames : List (List ℕ)) (m : Mems19) (pulses : List Pulse) (e : Failure)
    → CausedBy port e
    → WroteFew frames m
    → EndsWell port frames (some (give_up m pulses e))
give_up-EndsWell port frames m pulses e cause few =
    (give_up m pulses e, (refl, inr (e, (refl, cause, refl, refl)), few))

release-EndsWell :
    (port : PortAnswers) (frames : List (List ℕ)) (pulses : List Pulse) (failure : Option String)
    (m : Mems19)
    → port.no_timeout_error ≡ failure
    → WroteFew frames m
    → EndsWell port frames (some (release port pulses failure m))
unfolding release
release-EndsWell port frames pulses (some e) m cause few =
    give_up-EndsWell port frames m pulses (set_timeout_failed e) (inr cause) few
release-EndsWell port frames pulses none m cause few =
    let flushed : WroteFew frames (flush_input port.leftovers m) =
      subst (λ out. (out ≡ frames) ⊎ ((b : ℕ) × (out ≡ frames ++ ((b ∷ []) ∷ []))))
        (sym (flush_input-written port.leftovers m)) few in
    (_, (refl, inl (refl, refl, refl), flushed))

behind_wakeup-EndsWell :
    (port : PortAnswers) (pulses : List Pulse) (failure : Option BreakError) (m : Mems19)
    → (send_5_baud_wakeup port.breaks).1 ≡ failure
    → EndsWell port m.written (behind_wakeup port pulses failure m)
unfolding behind_wakeup hand_over
behind_wakeup-EndsWell port pulses (some e) m cause =
    give_up-EndsWell port m.written m pulses (wake_up_failed e) cause (inl refl)
behind_wakeup-EndsWell port pulses none m cause =
    let m' = log_debug "1.9 5-baud wake-up sent, starting keyword handshake" [] m in
    let o = handle_wake_up_handshake port.write_error port.polls port.echoes m' in
    let (done, (concluded, few)) =
      conclude-WroteFew m.written o
        (handshake-AtMostOne port.write_error port.polls port.echoes m') in
    subst (λ r. EndsWell port m.written (hand_over port pulses r)) (sym concluded)
      (release-EndsWell port m.written pulses port.no_timeout_error done refl few)

wake_up-EndsWell :
    (port : PortAnswers) (failure : Option String) (m : Mems19)
    → port.timeout_error ≡ failure
    → EndsWell port m.written (wake_up port failure m)
unfolding wake_up
wake_up-EndsWell port (some e) m cause =
    give_up-EndsWell port m.written m [] (set_timeout_failed e) (inl cause) (inl refl)
wake_up-EndsWell port none m cause =
    let (pulses, failure) = send_5_baud_wakeup port.breaks in
    subst (λ frames. EndsWell port frames (wake_up port none m))
      (flush_input-written port.stale_input _) (behind_wakeup-EndsWell port pulses failure _ refl)

open_port-EndsWell :
    (port : PortAnswers) (name : String) (failure : Option String) (m : Mems19)
    → port.open_error ≡ failure
    → EndsWell port m.written (open_port port name failure m)
unfolding open_port
open_port-EndsWell port name (some e) m cause =
    give_up-EndsWell port m.written m [] (open_failed e) cause (inl refl)
open_port-EndsWell port name none m cause = wake_up-EndsWell port port.timeout_error _ refl

-- Whatever the port answers: `Connect` does not panic, and either hands the open port over to the handler
-- of MEMS 1.x, or closes it and returns an error of opening it, of setting its timeout or of a break. No
-- outcome of the handshake is an error. At most one byte is written.
pub connect-EndsWell :
    (port : PortAnswers) (name : String) (m : Mems19)
    → (c : Connection) × ((connect port name m ≡ some c)
        × IsSettled port c
        × WroteFew m.written c.handler)
unfolding connect
connect-EndsWell port name m = open_port-EndsWell port name port.open_error _ refl
