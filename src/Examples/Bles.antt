-- ===== src/Examples/Bles.antt =====
-- Concrete runs of internal/ble/server.go.
use rover_mems_ecu.Base.{ℕ, ◌≡◌, refl, false, List, [], ◌∷◌, map, length, none, some, arith}
use rover_mems_ecu.Companion.Fanout.{no_subs}
use rover_mems_ecu.Companion.Headunit.Protocol.Frames.{reassemble}
use rover_mems_ecu.Web.Streams.{stopped, received, posted}
use rover_mems_ecu.Web.Api.{jpeg, api_now_playing_art_handler}
use rover_mems_ecu.Ble.{Decoders, art_control, write_events, Outcome, run_catalog_notifier}
use rover_mems_ecu.Ble.Uploads.{chunk_writes, api_now_playing_art_handler-write_events}
use rover_mems_ecu.Ble.Catalogs.{Occurrence, concat, taken, run_catalog_notifier-Reassembles}
use rover_mems_ecu.Examples.Companions.{photo, cover, arrivals}
use rover_mems_ecu.Examples.Webs.{server}

abbrev decoders : Decoders
decoders = record {
  metadata = λ value. none;
  art_control = cover;
  navigation = λ value. none;
  icon_control = λ value. none;
  alert = λ value. none;
  json = record { valid = λ raw. false; compact = λ raw. none; unmarshal = λ raw. none };
}

api_now_playing_art_handler-write_events_example :
    api_now_playing_art_handler (
      write_events decoders
        (record { time = 0; characteristic = art_control; value = [] }
          ∷ chunk_writes photo arrivals)
        server)
    ≡ record { status = 200; content = jpeg (1 ∷ 2 ∷ 3 ∷ []) }
api_now_playing_art_handler-write_events_example =
    api_now_playing_art_handler-write_events decoders photo 2 [] "cover" 0 arrivals server refl
      (omega arith) (omega arith) (omega arith) (omega arith) (omega arith) (λ j h. ground arith)

abbrev fine : ℕ → Outcome
fine i = record { failed = false; stopped = false }

-- Two catalogs; the second one is posted while the first one waits.
abbrev session : List Occurrence
session = posted (1 ∷ 2 ∷ []) ∷ posted (3 ∷ []) ∷ received fine ∷ received fine ∷ stopped ∷ []

run_catalog_notifier-Reassembles_example :
    (groups : List (List (List ℕ))) × (((run_catalog_notifier session no_subs).sent ≡ concat groups)
      × (map (λ g. reassemble (length g) 0 g) groups ≡ map (λ c. some c) (taken 4 [] session)))
unfolding taken
run_catalog_notifier-Reassembles_example =
    run_catalog_notifier-Reassembles session no_subs tt (tt, (tt, (tt, (tt, (tt, tt)))))
      (tt, (tt, ((λ i. (refl, refl)), ((λ i. (refl, refl)), (tt, tt)))))
      (omega arith, (omega arith, tt))
