-- ===== src/Web/Api.antt =====
-- internal/web/server.go: the routes of `buildRouter` that are no WebSockets, and their handlers. JSON
-- encoders, the dashboard's page and the outcome of switching the Wi-Fi are arguments.
pub mod Effects
use rover_mems_ecu.Base.{
  ℕ, String, str_eq, str_append, Bool, List, [], ◌∷◌, Option, none, some, if◌then◌else◌,
}
use rover_mems_ecu.Ecu.Reading.{DataMap}
use rover_mems_ecu.Ecu.State.{
  State, Snapshot, snapshot, set_ecu_type, set_selected_serial_port, set_user_command,
}
use rover_mems_ecu.Companion.NowPlaying
use rover_mems_ecu.Companion.Navigation
use rover_mems_ecu.Companion.Notification
use rover_mems_ecu.Companion.Headunit.Relay

pub record Server : Type 0 where
  pub state : State
  pub now_playing : NowPlaying.Store
  pub navigation : Navigation.Store
  pub notification : Notification.Store
  pub headunit : Relay.Store

-- A route with its parameter.
pub data Request : Type 0 where
  get_api get_ports get_now_playing get_art get_navigation get_icon get_notifications : Request
  get_head_unit get_dashboard get_ping get_connected get_faults : Request
  post_ecu post_serial_port post_command : String → Request
  post_wifi_enable post_wifi_disable : Request

pub data Content : Type 0 where
  json jpeg png html : List ℕ → Content
  plain : String → Content
  no_content : Content

pub record Response : Type 0 where
  pub status : ℕ
  pub content : Content

-- The map that `apiStateHandler` encodes.
pub record StateJson : Type 0 where
  pub faults : List String
  pub connected : Bool
  pub ecu_type : String
  pub user_command : String
  pub alert : String
  pub alert_seq : ℕ
  pub error : String
  pub error_seq : ℕ
  pub ecu_data : DataMap
  pub agent_version : String

-- The encoders, `none` for an error of `json.Marshal`, and what else the routes use.
pub record Surroundings : Type 0 where
  pub marshal_state : StateJson → Option (List ℕ)
  pub marshal_ports : List String → String → Option (List ℕ)
  pub marshal_now_playing : NowPlaying.Snapshot → Option (List ℕ)
  pub marshal_navigation : Navigation.Snapshot → Option (List ℕ)
  pub marshal_alert : Notification.Alert → Option (List ℕ)
  pub marshal_faults : List String → Option (List ℕ)
  pub marshal_connected : Bool → List ℕ
  pub pong : List ℕ
  pub dashboard_html : List ℕ
  pub enable_wifi : Option String
  pub disable_wifi : Option String

unfoldable pub api_state : State → StateJson
api_state s =
    let snap = snapshot s in
    record {
      faults = snap.faults;
      connected = snap.connected;
      ecu_type = snap.ecu_type;
      user_command = snap.user_command;
      alert = snap.alert;
      alert_seq = snap.alert_seq;
      error = snap.error;
      error_seq = snap.error_seq;
      ecu_data = snap.values;
      agent_version = snap.agent_version;
    }

-- `c.Data(http.StatusOK, "application/json", jsonData)`, or the abort for an error of `json.Marshal`.
unfoldable pub encoded : Option (List ℕ) → Response
encoded none = record { status = 500; content = no_content }
encoded (some text) = record { status = 200; content = json text }

-- What is there, or 404.
unfoldable pub art_found : Option (String × List ℕ) → Response
art_found none = record { status = 404; content = no_content }
art_found (some (id, image)) = record { status = 200; content = jpeg image }

unfoldable pub icon_found : Option (String × List ℕ) → Response
icon_found none = record { status = 404; content = no_content }
icon_found (some (id, image)) = record { status = 200; content = png image }

unfoldable pub alert_found :
    (Notification.Alert → Option (List ℕ)) → Option Notification.Alert → Response
alert_found marshal none = record { status = 404; content = no_content }
alert_found marshal (some alert) = encoded (marshal alert)

unfoldable pub catalog_found : Option (List ℕ) → Response
catalog_found none = record { status = 404; content = no_content }
catalog_found (some catalog) = record { status = 200; content = json catalog }

unfoldable pub wifi_switched : String → Option String → Response
wifi_switched msg none = record { status = 200; content = plain msg }
wifi_switched msg (some e) = record { status = 500; content = plain e }

abbrev ok_text : String → Response
ok_text msg = record { status = 200; content = plain msg }

module _ (around : Surroundings) (s : Server) where
  unfoldable pub api_state_handler : Response
  api_state_handler = encoded (around.marshal_state (api_state s.state))

  unfoldable pub api_ports_handler : Response
  api_ports_handler =
      let snap = snapshot s.state in
      encoded (around.marshal_ports snap.serial_ports snap.selected_serial_port)

  unfoldable pub api_now_playing_handler : Response
  api_now_playing_handler = encoded (around.marshal_now_playing (NowPlaying.snapshot s.now_playing))

  unfoldable pub api_navigation_handler : Response
  api_navigation_handler = encoded (around.marshal_navigation (Navigation.snapshot s.navigation))

  unfoldable pub api_notifications_handler : Response
  api_notifications_handler =
      alert_found around.marshal_alert (Notification.last_alert s.notification)

unfoldable pub api_now_playing_art_handler : Server → Response
api_now_playing_art_handler s = art_found (NowPlaying.current_art s.now_playing)

unfoldable pub api_navigation_icon_handler : Server → Response
api_navigation_icon_handler s = icon_found (Navigation.current_icon s.navigation)

unfoldable pub api_head_unit_handler : Server → Response
api_head_unit_handler s = catalog_found s.headunit.catalog

unfoldable pub route : Surroundings → Request → Server → Server × Response
route around get_api s = (s, api_state_handler around s)
route around get_ports s = (s, api_ports_handler around s)
route around get_now_playing s = (s, api_now_playing_handler around s)
route around get_art s = (s, api_now_playing_art_handler s)
route around get_navigation s = (s, api_navigation_handler around s)
route around get_icon s = (s, api_navigation_icon_handler s)
route around get_notifications s = (s, api_notifications_handler around s)
route around get_head_unit s = (s, api_head_unit_handler s)
route around get_dashboard s = (s, record { status = 200; content = html around.dashboard_html })
route around get_ping s = (s, record { status = 200; content = json around.pong })
route around get_connected s =
    (s, record { status = 200; content = json (around.marshal_connected s.state.connected) })
route around get_faults s = (s, encoded (around.marshal_faults s.state.faults))
route around (post_ecu name) s =
    (record s { state = set_ecu_type name s.state }, ok_text (str_append "ECU type set to " name))
route around (post_serial_port name) s =
    if str_eq name "" then (s, record { status = 400; content = plain "missing port name" }) else (
      record s { state = set_selected_serial_port name s.state },
      ok_text (str_append "Serial port set to " name),
    )
route around (post_command name) s = (
  record s { state = set_user_command name s.state },
  ok_text (str_append "User command accepted " name),
)
route around post_wifi_enable s = (s, wifi_switched "wifi enabled" around.enable_wifi)
route around post_wifi_disable s = (s, wifi_switched "wifi disabled" around.disable_wifi)

-- Requests that are answered one after the other.
unfoldable pub route_all : Surroundings → List Request → Server → Server
route_all around [] s = s
route_all around (r ∷ rs) s = route_all around rs (route around r s).0
