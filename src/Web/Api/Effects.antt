-- ===== src/Web/Api/Effects.antt =====
-- What requests to internal/web/server.go change, and what they make the rest of the agent do.
use rover_mems_ecu.Base.{◌≡◌, refl, ◌∙◌, ap, both, String, str_eq, List, [], ◌∷◌}
use rover_mems_ecu.Ecu.State.{State, set_ecu_type, set_selected_serial_port, set_user_command}
use rover_mems_ecu.Agent.Connect
use rover_mems_ecu.Web.Api.{
  Server, Request, get_api, get_ports, get_now_playing, get_art, get_navigation, get_icon,
  get_notifications, get_head_unit, get_dashboard, get_ping, get_connected, get_faults, post_ecu,
  post_serial_port, post_command, post_wifi_enable, post_wifi_disable, Surroundings, Response,
  route, route_all,
}

-- The server with other choices of the user: the type of ECU, the port and the command.
abbrev pub choosing : String → String → String → Server → Server
choosing ecu_type port command s = record s {
  state = record s.state {
    ecu_type = ecu_type;
    selected_serial_port = port;
    user_command = command;
  };
}

abbrev Chooses : Server → Server → Type 0
Chooses s s' = s' ≡ choosing s'.state.ecu_type s'.state.selected_serial_port s'.state.user_command s

route-Chooses : (around : Surroundings) (r : Request) (s : Server) → Chooses s (route around r s).0
unfolding route set_ecu_type set_selected_serial_port set_user_command
route-Chooses around get_api s = refl
route-Chooses around get_ports s = refl
route-Chooses around get_now_playing s = refl
route-Chooses around get_art s = refl
route-Chooses around get_navigation s = refl
route-Chooses around get_icon s = refl
route-Chooses around get_notifications s = refl
route-Chooses around get_head_unit s = refl
route-Chooses around get_dashboard s = refl
route-Chooses around get_ping s = refl
route-Chooses around get_connected s = refl
route-Chooses around get_faults s = refl
route-Chooses around (post_ecu name) s = refl
route-Chooses around (post_serial_port name) s =
    both {A = Server × Response} (λ r. Chooses s r.0) (str_eq name "") refl refl
route-Chooses around (post_command name) s = refl
route-Chooses around post_wifi_enable s = refl
route-Chooses around post_wifi_disable s = refl

-- Whatever is requested, and however often: the stores stay as they are, and of the shared state nothing
-- changes but the type of ECU, the port and the command.
pub route_all-choosing :
    (around : Surroundings) (rs : List Request) (s : Server)
    → let s' = route_all around rs s in
      s' ≡ choosing s'.state.ecu_type s'.state.selected_serial_port s'.state.user_command s
unfolding route_all
route_all-choosing around [] s = refl
route_all-choosing around (r ∷ rs) s =
    let s' = route_all around rs (route around r s).0 in
    route_all-choosing around rs (route around r s).0
    ∙ ap (choosing s'.state.ecu_type s'.state.selected_serial_port s'.state.user_command)
        (route-Chooses around r s)
