-- ===== src/Web/Visits.antt =====
-- internal/web/server.go: the four streaming handlers, from the upgrade of the request on. The error of
-- `Upgrade`, and what other goroutines do to the store between a handler's first message and its
-- subscription, are arguments.
pub mod First
use rover_mems_ecu.Base.{
  ℕ, String, Bool, true, List, [], ◌∷◌, ◌++◌, Option, none, some, if◌then◌else◌,
}
use rover_mems_ecu.Ecu.Log.{text}
use rover_mems_ecu.Ecu.State.{State, debug}
use rover_mems_ecu.Companion.Fanout.{Hub, subscribe}
use rover_mems_ecu.Companion.NowPlaying
use rover_mems_ecu.Companion.Navigation
use rover_mems_ecu.Companion.Notification
use rover_mems_ecu.Companion.Headunit.Relay.{
  Json, RelayError, not_object, not_compact, bad_command, set_catalog,
}
use rover_mems_ecu.Companion.Headunit.Relay
use rover_mems_ecu.Web.Streams.{
  Write, Event, Stream, elsewhere, serve, write_encoded, ws_json_write, ws_bytes_write,
}

-- The shared state, and what became of the stream.
pub record Visit {ℓ} (M : Type ℓ) : Type ℓ where
  pub agent : State
  pub stream : Stream M

module _ {ℓ} {W : Type 0} {M : Type ℓ} where
  -- A return before anything is subscribed; the other goroutines go on.
  unfoldable pub turned_away : ℕ → List (Event W M) → Hub M → List (List ℕ) → Stream M
  turned_away capacity es h out = record {
    hub = elsewhere capacity es h;
    sent = out;
    returned = true;
  }

  -- The subscription, with the deferred `unsub`, and the loop.
  unfoldable pub subscribed :
      (W → M → List (List ℕ) × Bool) → ℕ → List (Event W M) → Hub M → Stream M
  subscribed write capacity es h = let (h', id) = subscribe h in serve write capacity id es h'

  -- The first message with its error, and what follows.
  unfoldable pub behind_first :
      (W → M → List (List ℕ) × Bool)
      → ℕ
      → List (List ℕ) × Bool
      → List (Event W M)
      → Hub M
      → Stream M
  behind_first write capacity first es h =
      let (out, failed) = first in
      let later = subscribed write capacity es h in
      if failed then turned_away capacity es h out else record later { sent = out ++ later.sent }

-- `s.state.LogDebug("…: upgrade failed:", err)`.
abbrev pub upgrade_failed : String → String → State → State
upgrade_failed msg e agent = debug (record { format = msg; args = text e ∷ [] }) agent

-- `wsNowPlayingWrite`, less its `log.Printf`.
unfoldable pub ws_now_playing_write :
    (NowPlaying.Snapshot → Option (List ℕ)) → Write → NowPlaying.Snapshot → List (List ℕ) × Bool
ws_now_playing_write marshal w snap = write_encoded w (marshal snap)

unfoldable pub ws_now_playing_handler :
    (NowPlaying.Snapshot → Option (List ℕ))
    → Option String
    → Write
    → (NowPlaying.Store → NowPlaying.Store)
    → List (Event Write NowPlaying.Snapshot)
    → State
    → NowPlaying.Store
    → Visit NowPlaying.Snapshot
ws_now_playing_handler marshal (some e) first meanwhile es agent s = record {
  agent = upgrade_failed "ws/nowplaying: upgrade failed:" e agent;
  stream = turned_away 8 es s.hub [];
}
ws_now_playing_handler marshal none first meanwhile es agent s =
    let write = ws_now_playing_write marshal in
    record {
      agent = agent;
      stream = behind_first write 8 (write first (NowPlaying.snapshot s)) es (meanwhile s).hub;
    }

unfoldable pub ws_navigation_handler :
    (Navigation.Snapshot → Option (List ℕ))
    → Option String
    → Write
    → (Navigation.Store → Navigation.Store)
    → List (Event Write Navigation.Snapshot)
    → State
    → Navigation.Store
    → Visit Navigation.Snapshot
ws_navigation_handler marshal (some e) first meanwhile es agent s = record {
  agent = upgrade_failed "ws/navigation: upgrade failed:" e agent;
  stream = turned_away 8 es s.hub [];
}
ws_navigation_handler marshal none first meanwhile es agent s =
    let write = ws_json_write marshal in
    record {
      agent = agent;
      stream = behind_first write 8 (write first (Navigation.snapshot s)) es (meanwhile s).hub;
    }

unfoldable pub ws_notifications_handler :
    (Notification.Alert → Option (List ℕ))
    → Option String
    → List (Event Write Notification.Alert)
    → State
    → Notification.Store
    → Visit Notification.Alert
ws_notifications_handler marshal (some e) es agent s = record {
  agent = upgrade_failed "ws/notifications: upgrade failed:" e agent;
  stream = turned_away 8 es s.hub [];
}
ws_notifications_handler marshal none es agent s = record {
  agent = agent;
  stream = subscribed (ws_json_write marshal) 8 es s.hub;
}

-- The reader's answer to the error of `SetCatalog`, with its text.
unfoldable pub rejected : (RelayError → String) → Option RelayError → State → State
rejected explain none agent = agent
rejected explain (some e) agent =
    debug (record { format = "ws/headunit: catalog rejected: %v"; args = text (explain e) ∷ [] })
      agent

-- The reader goroutine of `wsHeadUnitHandler`, with the messages that it reads before an error.
unfoldable pub read_catalogs :
    Json → (RelayError → String) → List (List ℕ) → State → Relay.Store → State × Relay.Store
read_catalogs j explain [] agent s = (agent, s)
read_catalogs j explain (message ∷ messages) agent s =
    let (s', failure) = set_catalog j message s in
    read_catalogs j explain messages (rejected explain failure agent) s'

-- The handler and its reader work on different fields of the store: the subscribers to commands, and the
-- catalog with its subscribers.
unfoldable pub ws_head_unit_handler :
    Json
    → (RelayError → String)
    → Option String
    → List (List ℕ)
    → List (Event Write (List ℕ))
    → State
    → Relay.Store
    → Visit (List ℕ) × Relay.Store
ws_head_unit_handler j explain (some e) messages es agent s =
    let stream = turned_away 4 es s.cmd_subs [] in
    (
      record { agent = upgrade_failed "ws/headunit: upgrade failed:" e agent; stream = stream },
      record s { cmd_subs = stream.hub },
    )
ws_head_unit_handler j explain none messages es agent s =
    let (agent', s') = read_catalogs j explain messages agent s in
    let stream = subscribed ws_bytes_write 4 es s.cmd_subs in
    (record { agent = agent'; stream = stream }, record s' { cmd_subs = stream.hub })
