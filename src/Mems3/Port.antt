-- ===== src/Mems3/Port.antt =====
-- internal/ecu/mems3/mems3.go: `Connect` and `Close`.
use rover_mems_ecu.Base.{Option, none}
use rover_mems_ecu.Ecu.Cable.{Cable, PortAnswers, Failure, open_cable, close_cable}

unfoldable pub connect : PortAnswers → Cable → Cable × Option Failure
connect a c = open_cable "Connecting to MEMS 3 ECU" (λ opened. (opened, none)) a c

unfoldable pub close : Cable → Cable
close c = close_cable c
