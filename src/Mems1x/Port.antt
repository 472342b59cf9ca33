-- ===== src/Mems1x/Port.antt =====
-- internal/ecu/mems1x/mems1x.go: `Connect`, `Close` and `SetSerialPort`.
use rover_mems_ecu.Base.{Bool, Option, none, some}
use rover_mems_ecu.Ecu.Cable.{Cable, PortAnswers, Failure, say, open_cable, close_cable}

unfoldable pub connect : PortAnswers → Cable → Cable × Option Failure
connect a c =
    open_cable "Connecting to MEMS 1.x (1.2, 1.3, 1.6) ECU"
      (λ opened. (say "Serial cable set to 9600 8N1" opened, none)) a c

unfoldable pub close : Cable → Cable
close c = close_cable c

-- The port of another handler, open or not.
unfoldable pub set_serial_port : Bool → Cable → Cable
set_serial_port is_open c = record c { port = some is_open }
