-- ===== src/Mems2j/Port.antt =====
-- internal/ecu/mems2j/mems2j.go: `Connect`, `wakeUp` and `Close`.
use rover_mems_ecu.Base.{String, true, false, [], ◌∷◌, ◌++◌, Option, none, some}
use rover_mems_ecu.Ecu.Cable.{
  Cable, PortAnswers, Failure, wake_pulse_failed, init_command_failed, say, give_up, open_cable,
  close_cable,
}
use rover_mems_ecu.Mems2j.Commands.{init_command}

-- `wakeUp` behind `Write`, with its error.
unfoldable pub behind_write : Option String → Cable → Cable × Option Failure
behind_write (some e) c = (c, some (init_command_failed e))
behind_write none c = (say "Done sending init command" c, none)

-- `wakeUp` behind `Break`, with its error.
unfoldable pub behind_break : PortAnswers → Option String → Cable → Cable × Option Failure
behind_break a (some e) c = (c, some (wake_pulse_failed e))
behind_break a none c =
    behind_write a.write_error (record c { written = c.written ++ (init_command ∷ []) })

unfoldable pub wake_up : PortAnswers → Cable → Cable × Option Failure
wake_up a c = behind_break a a.break_error c

-- `Connect` behind `wakeUp`.
unfoldable pub behind_wake_up : Cable × Option Failure → Cable × Option Failure
behind_wake_up (c, some e) = give_up c e
behind_wake_up (c, none) = (c, none)

unfoldable pub connect : PortAnswers → Cable → Cable × Option Failure
connect a c =
    open_cable "Connecting to MEMS 2J ECU"
      (λ opened.
        behind_wake_up
          (wake_up a (record (say "Serial cable set to 10400 8N1" opened) { reading = true })))
      a c

-- `Close`, with the reader's `Stop`.
unfoldable pub close : Cable → Cable
close c = close_cable (record c { reading = false })
