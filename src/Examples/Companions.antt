-- ===== src/Examples/Companions.antt =====
-- Concrete runs of the companion stores (internal/nowplaying, internal/navigation,
-- internal/notification, internal/headunit).
use rover_mems_ecu.Base.{
  ℕ, arith, ◌↔◌, ◌≡◌, refl, pos, true, false, List, [], ◌∷◌, Option, none, some, ◌==◌,
  if◌then◌else◌,
}
use rover_mems_ecu.Companion.Fanout.{Subscriber, Hub}
use rover_mems_ecu.Companion.Headunit.Protocol.{ok, Command, parse_command, check_command}
use rover_mems_ecu.Companion.Headunit.Protocol.Commands.{WellFormed, parse_command-WellFormed}
use rover_mems_ecu.Companion.Headunit.Relay.{
  Json, Store, finished, check_request, check_catalog, is_json_object, skip_space, is_space,
}
use rover_mems_ecu.Companion.Headunit.Relay.Races.{interleave, begun, interleave-stale}
use rover_mems_ecu.Companion.Fanout.Delivery.{received_all}
use rover_mems_ecu.Companion.Fanout.{no_subs}
use rover_mems_ecu.Companion.NowPlaying as NowPlaying
use rover_mems_ecu.Companion.NowPlaying.Guards as Guards
use rover_mems_ecu.Companion.Navigation as Navigation
use rover_mems_ecu.Companion.Navigation.Icon as Icon
use rover_mems_ecu.Companion.Notification as Notification

-- A file of two chunks.
abbrev pub photo : ℕ → List ℕ
photo i = if i == 0 then 1 ∷ 2 ∷ [] else 3 ∷ []

abbrev pub cover : List ℕ → Option NowPlaying.ArtControl
cover payload = some (record { art_id = "cover"; total_bytes = pos 3; chunk_count = pos 2 })

-- Chunk 1, chunk 0, and chunk 1 once more, after seconds 1, 2 and 3.
abbrev pub arrivals : List (ℕ × ℕ)
arrivals = (1000, 1) ∷ (2000, 0) ∷ (3000, 1) ∷ []

-- A peer that announces too much, then a proper file, then sends a chunk beyond the count.
abbrev attack : List (Guards.Write × ℕ × List ℕ)
attack =
    (Guards.art_control, 0, [])
    ∷ (Guards.art_chunk, 10, 0 ∷ 9 ∷ 7 ∷ [])
    ∷ (Guards.art_chunk, 20, 0 ∷ 0 ∷ 1 ∷ 2 ∷ [])
    ∷ []

handle_all-IsBounded_example :
    Guards.IsBounded (Guards.handle_all (λ payload. none) cover attack NowPlaying.new_store)
handle_all-IsBounded_example = Guards.handle_all-IsBounded (λ payload. none) cover attack

abbrev turn : List ℕ → Option Navigation.IconControl
turn payload = some (record { icon_id = "left"; total_bytes = pos 3; chunk_count = pos 2 })

abbrev left_turn : Navigation.WireNavigation
left_turn = record {
  active = true;
  instruction = some "Turn left";
  distance = none;
  eta = none;
  icon_id = some "left";
}

abbrev no_icon : Navigation.Store
no_icon = record {
  nav = record { active = false; instruction = ""; distance = ""; eta = ""; icon_id = "" };
  icon_id = "";
  icon = [];
  transfer = none;
  hub = record { next = 0; subs = [] };
}

snapshot-deliver_example :
    let s' =
      (Navigation.handle_navigation
        (λ payload. some left_turn)
        []
        (Icon.deliver photo
          (1 ∷ 1 ∷ 0 ∷ [])
          (Navigation.handle_icon_control turn [] no_icon).0)).0 in
    (Navigation.current_icon s' ≡ some ("left", 1 ∷ 2 ∷ 3 ∷ []))
    × (Navigation.snapshot s' ≡ record {
      navigation = Navigation.parse_navigation left_turn;
      icon_id = "left";
      has_icon = true;
    })
snapshot-deliver_example =
    Icon.snapshot-deliver photo 2 turn [] (λ payload. some left_turn) [] left_turn "left"
      (1 ∷ 1 ∷ 0 ∷ []) no_icon refl refl refl refl (omega arith) (omega arith) (λ j h. ground arith)

abbrev go_next : Command
go_next = record {
  kind = "nav_key";
  view_id = "";
  visible = none;
  setting_id = "";
  value = [];
  key = "next";
}

abbrev always_next : List ℕ → Option Command
always_next payload = some go_next

parse_command-WellFormed_example :
    (parse_command always_next (1 ∷ []) ≡ ok go_next)
    ↔ ((always_next (1 ∷ []) ≡ some go_next) × WellFormed go_next)
parse_command-WellFormed_example = parse_command-WellFormed always_next (1 ∷ []) go_next

abbrev braces : Json
braces = record {
  valid = λ raw. true;
  compact = λ raw. some raw;
  unmarshal = λ raw. some (record go_next { kind = "request_catalog" });
}

abbrev phone : Subscriber (List ℕ)
phone = record { id = 0; buffer = [] }

abbrev relay : Store
relay = record {
  catalog = some (b'{' ∷ b' ' ∷ b'}' ∷ []);
  catalog_subs = record { next = 1; subs = phone ∷ [] };
  cmd_subs = no_subs;
}

interleave-stale_example :
    let (ts, s') =
      interleave
        (0 ∷ 0 ∷ 1 ∷ 1 ∷ 0 ∷ [])
        (begun
          (check_request braces (b'{' ∷ []))
          (begun (check_catalog braces (b'{' ∷ b'}' ∷ [])) []))
        relay in
    (ts ≡ finished ∷ finished ∷ [])
    × (s'.catalog ≡ some (b'{' ∷ b'}' ∷ []))
    × (s'.catalog_subs.subs
        ≡ received_all 4 ((b'{' ∷ b'}' ∷ []) ∷ (b'{' ∷ b' ' ∷ b'}' ∷ []) ∷ []) (phone ∷ []))
    × (s'.cmd_subs.subs ≡ received_all {M = List ℕ} 4 ((b'{' ∷ []) ∷ []) [])
unfolding check_request check_catalog parse_command check_command is_json_object skip_space is_space
interleave-stale_example =
    interleave-stale braces (b'{' ∷ []) (b'{' ∷ b'}' ∷ []) (b'{' ∷ b'}' ∷ [])
      (b'{' ∷ b' ' ∷ b'}' ∷ []) (b'{' ∷ []) relay refl refl refl

abbrev reader : Subscriber ℕ
reader = record { id = 0; buffer = 5 ∷ [] }

abbrev one_reader : Hub ℕ
one_reader = record { next = 1; subs = reader ∷ [] }

abbrev decode_one : List ℕ → Option Notification.Alert
decode_one [] = none
decode_one (b ∷ bs) = some (record { app = "sms"; title = "Hi"; text = ""; posted_at = pos b })
