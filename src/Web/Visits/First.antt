-- ===== src/Web/Visits/First.antt =====
-- What the streaming handlers of internal/web/server.go send first, and what they miss.
use rover_mems_ecu.Base.{ℕ, ◌≡◌, ap, true, List, [], ◌∷◌, All, Option, none, some}
use rover_mems_ecu.Ecu.State.{State}
use rover_mems_ecu.Companion.Fanout.{subscribe}
use rover_mems_ecu.Companion.Fanout.Delivery.{IsFresh}
use rover_mems_ecu.Companion.Navigation
use rover_mems_ecu.Web.Streams.{Write, Event, ws_json_write, write_encoded, ws_bytes_write}
use rover_mems_ecu.Web.Streams.Departure.{IsForeign}
use rover_mems_ecu.Web.Streams.Queue.{stream, serve-stream}
use rover_mems_ecu.Web.Visits.{subscribed, behind_first, ws_navigation_handler}

-- A write that succeeds.
abbrev pub good : Write
good = record { deadline_set = true; written = true }

-- With a first snapshot that is encoded and written, the navigation handler sends this snapshot, and then
-- what a queue of its own gives that is empty when the handler subscribes. What other goroutines do to the
-- store between the two, such as a new instruction, changes nothing of what is sent.
pub ws_navigation_handler-first :
    (marshal : Navigation.Snapshot → Option (List ℕ)) (json : List ℕ)
    (meanwhile : Navigation.Store → Navigation.Store) (es : List (Event Write Navigation.Snapshot))
    (agent : State) (s : Navigation.Store)
    → marshal (Navigation.snapshot s) ≡ some json
    → IsFresh (meanwhile s).hub
    → All (IsForeign (meanwhile s).hub.next) es
    → (ws_navigation_handler marshal none good meanwhile es agent s).stream.sent
      ≡ json ∷ stream (ws_json_write marshal) 8 [] es
unfolding ws_navigation_handler behind_first subscribed ws_json_write write_encoded ws_bytes_write
    subscribe
ws_navigation_handler-first marshal json meanwhile es agent s encoded fresh fs = rw encoded (
    ap (λ (later : List (List ℕ)). json ∷ later)
      (serve-stream (ws_json_write marshal) 8 es (meanwhile s).hub fresh fs))
