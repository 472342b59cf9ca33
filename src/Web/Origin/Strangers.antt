-- ===== src/Web/Origin/Strangers.antt =====
-- What a page of another site gets from the WebSockets of internal/web/server.go.
use rover_mems_ecu.Base.{ℕ, ◌≡◌, ◌∙◌, refl, ap, String, str_eq, Bool, false, List, [], Option, some}
use rover_mems_ecu.Ecu.State.{State}
use rover_mems_ecu.Companion.NowPlaying
use rover_mems_ecu.Companion.Navigation
use rover_mems_ecu.Companion.Notification
use rover_mems_ecu.Companion.Headunit.Relay
use rover_mems_ecu.Web.Streams.{Write, Event, elsewhere}
use rover_mems_ecu.Web.Visits.{
  turned_away, ws_now_playing_handler, ws_navigation_handler, ws_notifications_handler,
  ws_head_unit_handler,
}
use rover_mems_ecu.Web.Polls.{Payload, Poll, ws_handler}
use rover_mems_ecu.Web.Origin.{is_local, check_origin}

-- A page whose address is given and is not of this machine.
pub record IsStranger (hostname : String → Option String) (origin host : String) : Type 0 where
  pub given : str_eq origin "" ≡ false
  pub parsed : hostname origin ≡ some host
  pub not_localhost : str_eq host "localhost" ≡ false
  pub not_v4 : str_eq host "127.0.0.1" ≡ false
  pub not_v6 : str_eq host "::1" ≡ false

check_origin-stranger :
    (hostname : String → Option String) (origin host : String)
    → IsStranger hostname origin host
    → check_origin hostname origin ≡ false
unfolding check_origin is_local
check_origin-stranger hostname origin host s =
    rw (check_origin, is_local, s.given, s.parsed, s.not_localhost, s.not_v4, s.not_v6) refl

-- If `Upgrade` fails where `CheckOrigin` says no, and a page gives an origin whose host is none of the
-- names of this machine: whatever the page sends, and whatever other goroutines do meanwhile, no handler
-- of a WebSocket sends it anything, and the head unit's store changes by those others alone.
pub stranger-silence :
    (hostname : String → Option String) (upgrade : Bool → Option String)
    (origin host refused : String) (now_playing : List (Event Write NowPlaying.Snapshot))
    (navigation : List (Event Write Navigation.Snapshot))
    (alerts : List (Event Write Notification.Alert)) (commands : List (Event Write (List ℕ)))
    (messages : List (List ℕ)) (polls : List Poll) (agent : State)
    (marshal_playing : NowPlaying.Snapshot → Option (List ℕ))
    (marshal_navigation : Navigation.Snapshot → Option (List ℕ))
    (marshal_alert : Notification.Alert → Option (List ℕ)) (marshal : Payload → Option (List ℕ))
    (j : Relay.Json) (explain : Relay.RelayError → String) (first : Write) (p : NowPlaying.Store)
    (n : Navigation.Store) (a : Notification.Store) (r : Relay.Store)
    → IsStranger hostname origin host
    → upgrade false ≡ some refused
    → let error = upgrade (check_origin hostname origin) in
      ((ws_now_playing_handler marshal_playing error first (λ s. s) now_playing agent p).stream.sent
        ≡ [])
      × ((ws_navigation_handler marshal_navigation error first
            (λ s. s)
            navigation
            agent
            n).stream.sent
          ≡ [])
      × ((ws_notifications_handler marshal_alert error alerts agent a).stream.sent ≡ [])
      × ((ws_handler marshal error polls agent).sent ≡ [])
      × ((ws_head_unit_handler j explain error messages commands agent r).0.stream.sent ≡ [])
      × ((ws_head_unit_handler j explain error messages commands agent r).1
          ≡ record r { cmd_subs = elsewhere 4 commands r.cmd_subs })
unfolding turned_away ws_now_playing_handler ws_navigation_handler ws_notifications_handler
    ws_head_unit_handler ws_handler
stranger-silence hostname upgrade origin host refused now_playing navigation alerts commands
      messages polls agent marshal_playing marshal_navigation marshal_alert marshal j explain first
      p n a r stranger documented =
    let no = ap upgrade (check_origin-stranger hostname origin host stranger) ∙ documented in
    rw no (refl, refl, refl, refl, refl, refl)
