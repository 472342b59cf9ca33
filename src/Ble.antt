-- ===== src/Ble.antt =====
-- internal/ble/server.go: the write events of the characteristics, and `runCatalogNotifier`. What JSON
-- decoding gives and the outcome of each notification are arguments.
pub mod Catalogs
pub mod Uploads
use rover_mems_ecu.Base.{
  ℕ, ◌+◌, Bool, true, false, List, [], ◌∷◌, Option, none, some, if◌then◌else◌,
}
use rover_mems_ecu.Companion.Fanout.{Hub}
use rover_mems_ecu.Companion.NowPlaying
use rover_mems_ecu.Companion.Navigation
use rover_mems_ecu.Companion.Notification
use rover_mems_ecu.Companion.Headunit.Relay
use rover_mems_ecu.Companion.Headunit.Protocol.{build_frames, max_fragment_payload}
use rover_mems_ecu.Web.Api.{Server}
use rover_mems_ecu.Web.Streams.{Event, Stream}
use rover_mems_ecu.Web.Visits.{subscribed}

-- What the stores decode.
pub record Decoders : Type 0 where
  pub metadata : List ℕ → Option NowPlaying.WireMetadata
  pub art_control : List ℕ → Option NowPlaying.ArtControl
  pub navigation : List ℕ → Option Navigation.WireNavigation
  pub icon_control : List ℕ → Option Navigation.IconControl
  pub alert : List ℕ → Option Notification.Alert
  pub json : Relay.Json

-- The characteristics that a phone writes to.
pub data Characteristic : Type 0 where
  metadata art_control art_data navigation icon_control icon_data alert command : Characteristic

-- `WriteEvent` at a time. An error is only logged.
unfoldable pub write_event : Decoders → ℕ → Characteristic → List ℕ → Server → Server
write_event d now metadata value s = record s {
  now_playing = (NowPlaying.handle_metadata d.metadata value s.now_playing).0;
}
write_event d now art_control value s = record s {
  now_playing = (NowPlaying.handle_art_control d.art_control now value s.now_playing).0;
}
write_event d now art_data value s = record s {
  now_playing = (NowPlaying.handle_art_chunk now value s.now_playing).0;
}
write_event d now navigation value s = record s {
  navigation = (Navigation.handle_navigation d.navigation value s.navigation).0;
}
write_event d now icon_control value s = record s {
  navigation = (Navigation.handle_icon_control d.icon_control value s.navigation).0;
}
write_event d now icon_data value s = record s {
  navigation = (Navigation.handle_icon_chunk value s.navigation).0;
}
write_event d now alert value s = record s {
  notification = (Notification.handle_alert d.alert value s.notification).0;
}
write_event d now command value s = record s {
  headunit = (Relay.handle_command d.json value s.headunit).0;
}

-- Writes that come one after the other.
pub record Arrival : Type 0 where
  pub time : ℕ
  pub characteristic : Characteristic
  pub value : List ℕ

unfoldable pub write_events : Decoders → List Arrival → Server → Server
write_events d [] s = s
write_events d (a ∷ arrivals) s =
    write_events d arrivals (write_event d a.time a.characteristic a.value s)

-- Whether the notification of a frame fails, and whether the context is done before the delay is over.
pub record Outcome : Type 0 where
  pub failed : Bool
  pub stopped : Bool

-- The loop over the frames from number `i` on: those that are written, and whether the notifier returns.
unfoldable pub send_frames : (ℕ → Outcome) → ℕ → List (List ℕ) → List (List ℕ) × Bool
send_frames outcomes i [] = ([], false)
send_frames outcomes i (frame ∷ frames) =
    let (later, ended) = send_frames outcomes (i + 1) frames in
    let o = outcomes i in
    if o.failed
    then ([], false)
    else (if o.stopped then (frame ∷ [], true) else (frame ∷ later, ended))

-- `none` is the panic of `BuildFrames`, which ends the program.
unfoldable pub send_built : (ℕ → Outcome) → Option (List (List ℕ)) → List (List ℕ) × Bool
send_built outcomes none = ([], true)
send_built outcomes (some frames) = send_frames outcomes 0 frames

unfoldable pub notify_catalog : (ℕ → Outcome) → List ℕ → List (List ℕ) × Bool
notify_catalog outcomes catalog = send_built outcomes (build_frames catalog max_fragment_payload)

-- `runCatalogNotifier`, a loop like those of the WebSockets, without a ticker and a reader.
unfoldable pub run_catalog_notifier :
    List (Event (ℕ → Outcome) (List ℕ)) → Hub (List ℕ) → Stream (List ℕ)
run_catalog_notifier es h = subscribed notify_catalog 4 es h
