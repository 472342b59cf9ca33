-- ===== src/Lib.antt =====
-- A model of rover-mems-ecu, the agent that talks to the engine control units of Rover cars over a
-- serial cable and, over Bluetooth and HTTP, to a phone and a dashboard.
--
-- The program's parts. `internal/ecu` has the shared `State` with its debug log, and the key for
-- security access. A handler per kind of ECU (`internal/ecu/mems1x` and others) reads its serial
-- port in a loop, answers each response with the next command, and writes readings, faults and
-- alerts into `State`, which the web server and the Bluetooth server read as snapshots. Beside them
-- stand four stores for companion data: `internal/nowplaying`, `internal/navigation`,
-- `internal/notification` and `internal/headunit`. Peers write to them, and each passes what it
-- learns on to its subscribers over buffered channels.
--
-- What models what.
--   Base            shared names: tests, lists, integers and maps over the native numbers, bits.
--   Ecu/Log         internal/ecu/ecu.go: `appendLog`, `LogDebug`, `LogLinesSince`.
--   Ecu/State       internal/ecu/ecu.go: `State`, its setters, `Snapshot`, `Register`, `Factory`.
--   Ecu/Key         internal/ecu/auth.go: `GenerateKey`.
--   Ecu/Cable       what `Connect` and `Close` of the handlers of MEMS 1.x, 2J and 3 write alike; their
--                   own parts are Mems1x/Port, Mems2j/Port and Mems3/Port.
--   Ecu/Reading, Ecu/Fields
--                   `float32` values, and the statements `Data[name] = …` of the parsers as tables.
--   Mems1x          internal/ecu/mems1x: `nextCommand` and `send` (Commands), `parseData80` and
--                   `parseData7D` (Frames), `loop` (Loop).
--   Mems2j          internal/ecu/mems2j: mems2j.go (Commands, Loop), parse.go (Parse), faults.go
--                   (Faults).
--   Mems19          internal/ecu/mems19/mems19.go: `send5BaudWakeup` (SlowInit),
--                   `handleWakeUpHandshake` with what it calls (Handshake), `Connect` (Connect).
--   Mems3           internal/ecu/mems3/mems3.go: the requests and `sendNextCommand` (Commands),
--                   `parseFaults` (Faults), `handleFrame` (Frames), `ReadData` (Loop).
--   Rc5             internal/ecu/rc5/rc5.go: `sendNextCommand` (Commands), `parseFaults` (Faults),
--                   `Connect` and `Close` (Connect), `ReadData` (Loop).
--   Fake            internal/ecu/fake/fake.go: the readings of the simulated ECU (Signals), its
--                   loop, `Connect` and `Close` (Loop).
--   Serial          internal/serial: `Open` and the interface of port.go (Port), capture.go
--                   (Capture, Hex), readwrite.go (Reader).
--   Agent           cmd/rover-mems/main.go: `connectLoop` and `runECU` (Connect), `runEventLoop`
--                   (EventLoop).
--   Web             internal/web/server.go: the routes (Api), the streaming loops (Streams) and their
--                   handlers (Visits), `wsHandler` (Polls), `checkOrigin` (Origin).
--   Ble             internal/ble/server.go: the write events of the characteristics and
--                   `runCatalogNotifier`.
--   Companion/Fanout, Companion/Chunks
--                   the subscriber lists and the chunk maps, which the stores write alike.
--   Companion/NowPlaying, Companion/Navigation, Companion/Notification
--                   the stores of internal/nowplaying, internal/navigation, internal/notification.
--   Companion/Headunit
--                   internal/headunit: protocol.go (Protocol) and headunit.go (Relay, and Relay/Races
--                   for calls that come between each other's steps).
--   Examples        concrete runs.
--
-- How. A record stands for each struct, and an operation takes the old state and gives the new one
-- with its results. A mutex makes an operation one step, and goroutines show as the order of the
-- steps: the theorems quantify over that order. The goroutines of the serial reader are a step
-- relation. A call of the head unit's store frees the mutex between its steps, and so is a `Task`
-- whose steps other calls come between. Errors are values; an index or a slice expression beyond the
-- end, which panics in Go, is `none` or the outcome `panicked`. Bytes are natural numbers; the wrap of
-- `uint16(n)` is written out. A JSON decoder, a clock, the serial port and the context are arguments
-- or events. `float32` arithmetic is not evaluated: `Float32` has a constructor for each operation,
-- so a reading is the expression that the code computes, and so is a `float64` of the simulated ECU. Log lines are kept as format and arguments.
--
-- Bounds. A read loop is recursion on the list of its events; it needs no fuel. Those of MEMS 1.x,
-- MEMS 3 and RC5 count empty reads, that of MEMS 2J looks at the clock. The
-- polls of MEMS 1.9 before a deadline are a list, and its slow init has one round for each bit of
-- the address frame, which is enough as each round takes at least one. The init loop of RC5 has 100
-- rounds, as in the code. Loops over counts are recursion on the rounds left.
--
-- Not modelled: listing serial ports, the Bluetooth adapter, the HTTP server and Wi-Fi, which are
-- input and output; the log file; and the parts of which no file is named above.
pub mod Base
pub mod Ecu
pub mod Companion
pub mod Mems1x
pub mod Mems2j
pub mod Mems19
pub mod Mems3
pub mod Rc5
pub mod Serial
pub mod Fake
pub mod Agent
pub mod Examples
pub mod Web
pub mod Ble
