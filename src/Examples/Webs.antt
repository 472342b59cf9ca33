-- ===== src/Examples/Webs.antt =====
-- Concrete runs of internal/web/server.go.
use rover_mems_ecu.Base.{
  if◌then◌else◌, String, Bool, ℕ, ◌≡◌, refl, true, false, List, [], ◌∷◌, ◌++◌, Option, none, some,
}
use rover_mems_ecu.Ecu.Log.{Line}
use rover_mems_ecu.Ecu.Log.History.{Retains}
use rover_mems_ecu.Ecu.State.{State, new_state}
use rover_mems_ecu.Companion.Fanout.{notify, send_all, no_subs, subscribe}
use rover_mems_ecu.Companion.Navigation
use rover_mems_ecu.Companion.NowPlaying
use rover_mems_ecu.Companion.Notification
use rover_mems_ecu.Companion.Headunit.Relay
use rover_mems_ecu.Web.Streams.{
  Write, Event, stopped, ticked, received, posted, joined, elsewhere, serve, ws_json_write,
}
use rover_mems_ecu.Web.Streams.Departure.{without, serve-departs}
use rover_mems_ecu.Web.Streams.Queue.{stream, serve-stream}
use rover_mems_ecu.Web.Visits.{ws_navigation_handler}
use rover_mems_ecu.Web.Visits.First.{good, ws_navigation_handler-first}
use rover_mems_ecu.Web.Polls.{Poll, is_space, trim_left, trim_space, is_dot, is_poll, run_polls}
use rover_mems_ecu.Web.Polls.Lines.{lines_of, keeps_up, waiting, asks, run_polls-lines}
use rover_mems_ecu.Web.Api.{
  Server, Surroundings, Request, get_ports, post_serial_port, post_command,
}

abbrev as_json : ℕ → Option (List ℕ)
as_json n = some (n ∷ [])

-- Two messages, one of which is sent before the context is done.
abbrev session : List (Event Write ℕ)
session = posted 7 ∷ joined ∷ received good ∷ ticked good ∷ posted 8 ∷ stopped ∷ posted 9 ∷ []

serve-departs_example :
    without 0 (serve (ws_json_write as_json) 8 0 session (subscribe no_subs).0)
    ≡ elsewhere 8 session (record { next = 1; subs = [] })
serve-departs_example =
    serve-departs (ws_json_write as_json) 8 session no_subs tt
      (tt, (tt, (tt, (tt, (tt, (tt, (tt, tt)))))))

serve-stream_example :
    (serve (ws_json_write as_json) 8 0 session (subscribe no_subs).0).sent
    ≡ stream (ws_json_write as_json) 8 [] session
serve-stream_example =
    serve-stream (ws_json_write as_json) 8 session no_subs tt
      (tt, (tt, (tt, (tt, (tt, (tt, (tt, tt)))))))

abbrev turn : Navigation.Navigation
turn = record {
  active = true;
  instruction = "Turn left";
  distance = "200 m";
  eta = "";
  icon_id = "";
}

abbrev idle : Navigation.Store
idle = record {
  nav = record turn { active = false };
  icon_id = "";
  icon = [];
  transfer = none;
  hub = no_subs;
}

-- An instruction that comes between the first snapshot and the subscription.
ws_navigation_handler-first_example :
    (ws_navigation_handler
      (λ snap. some (1 ∷ []))
      none
      good
      (λ s. Navigation.notify_snapshot (record s { nav = turn }))
      (received good ∷ stopped ∷ [])
      new_state
      idle).stream.sent
    ≡ (1 ∷ [])
      ∷ stream {W = Write} {M = Navigation.Snapshot}
          (ws_json_write (λ snap. some (1 ∷ [])))
          8
          []
          (received good ∷ stopped ∷ [])
unfolding Navigation.notify_snapshot notify send_all
ws_navigation_handler-first_example =
    ws_navigation_handler-first (λ snap. some (1 ∷ [])) (1 ∷ [])
      (λ s. Navigation.notify_snapshot (record s { nav = turn })) (received good ∷ stopped ∷ [])
      new_state idle refl tt (tt, (tt, tt))

abbrev line : Line
line = record { format = "runECU: connected"; args = [] }

abbrev poll : Poll
poll = record {
  others = λ s. s;
  logged = line ∷ [];
  deadline_set = true;
  message = some (0x2E ∷ 10 ∷ []);
  timestamp = "12:00";
  write = good;
}

abbrev polls : List Poll
polls = poll ∷ record poll { message = some (0x3F ∷ []) } ∷ poll ∷ []

new_state-Retains : Retains new_state.log []
unfolding new_state
new_state-Retains = record { tail = refl; counted = refl }

run_polls-lines_example :
    (w : List Line) × Retains
      (run_polls (λ payload. some []) polls 0 new_state).state.log
      (([] ++ lines_of (run_polls (λ payload. some []) polls 0 new_state).sent) ++ w)
unfolding keeps_up waiting asks is_poll is_dot trim_space trim_left is_space
run_polls-lines_example =
    run_polls-lines (λ payload. some []) polls [] new_state new_state-Retains refl

abbrev web : Surroundings
web = record {
  marshal_state = λ s. some [];
  marshal_ports = λ ports selected. some [];
  marshal_now_playing = λ snap. some [];
  marshal_navigation = λ snap. some [];
  marshal_alert = λ alert. some [];
  marshal_faults = λ faults. some [];
  marshal_connected = λ b. [];
  pong = [];
  dashboard_html = [];
  enable_wifi = none;
  disable_wifi = some "rfkill";
}

abbrev pub server : Server
server = record {
  state = new_state;
  now_playing = NowPlaying.new_store;
  navigation = idle;
  notification = Notification.new_store;
  headunit = Relay.new_store;
}

abbrev requests : List Request
requests = post_command "clear faults" ∷ get_ports ∷ post_serial_port "" ∷ []

-- A page of another site: `url.Parse` gives its host, and `Upgrade` refuses it.
abbrev host_of : String → Option String
host_of origin = some "evil.example"

abbrev upgrade : Bool → Option String
upgrade allowed = if allowed then none else some "request origin not allowed"

abbrev no_json : Relay.Json
no_json = record { valid = λ raw. true; compact = λ raw. some raw; unmarshal = λ raw. none }
