-- ===== src/Ble/Uploads.antt =====
-- From a write over Bluetooth to a request over HTTP: internal/ble/server.go and internal/web/server.go.
use rover_mems_ecu.Base.{ℕ, ◌≡◌, ◌≤◌, ◌<◌, refl, ap, ◌∙◌, String, pos, List, [], ◌∷◌, length, some}
use rover_mems_ecu.Companion.NowPlaying
use rover_mems_ecu.Companion.NowPlaying.{max_art_bytes, max_art_chunks}
use rover_mems_ecu.Companion.NowPlaying.Art.{frame, deliver, Carries, InTime, current_art-deliver}
use rover_mems_ecu.Companion.Chunks.Assembly.{whole}
use rover_mems_ecu.Web.Api.{Server, jpeg, api_now_playing_art_handler, art_found}
use rover_mems_ecu.Ble.{Decoders, Arrival, art_control, art_data, write_event, write_events}

-- The writes of frames to the characteristic for art.
abbrev pub chunk_writes : (ℕ → List ℕ) → List (ℕ × ℕ) → List Arrival
chunk_writes piece [] = []
chunk_writes piece ((now, i) ∷ order) =
    record { time = now; characteristic = art_data; value = frame piece i }
    ∷ chunk_writes piece order

write_events-deliver :
    (d : Decoders) (piece : ℕ → List ℕ) (order : List (ℕ × ℕ)) (s : Server)
    → (write_events d (chunk_writes piece order) s).now_playing ≡ deliver piece order s.now_playing
unfolding write_events write_event deliver
write_events-deliver d piece [] s = refl
write_events-deliver d piece ((now, i) ∷ order) s = write_events-deliver d piece order _

-- The phone announces a file within the limits, and its frames arrive in any order, as often as it likes
-- and none too late, so that each chunk arrives at least once. Then a request for the art is answered with
-- the file, byte for byte, whatever the stores held before.
pub api_now_playing_art_handler-write_events :
    (d : Decoders) (piece : ℕ → List ℕ) (n : ℕ) (payload : List ℕ) (id : String) (now : ℕ)
    (order : List (ℕ × ℕ)) (s : Server)
    → d.art_control payload
      ≡ some (record {
        art_id = id;
        total_bytes = pos (length (whole piece n 0));
        chunk_count = pos n;
      })
    → 0 < length (whole piece n 0)
    → length (whole piece n 0) ≤ max_art_bytes
    → 0 < n
    → n ≤ max_art_chunks
    → InTime piece n now order
    → ((j : ℕ) → j < n → Carries j order)
    → api_now_playing_art_handler (
        write_events d
          (record { time = now; characteristic = art_control; value = payload }
            ∷ chunk_writes piece order)
          s)
      ≡ record { status = 200; content = jpeg (whole piece n 0) }
unfolding write_events write_event api_now_playing_art_handler art_found
api_now_playing_art_handler-write_events d piece n payload id now order s e p q c m v carried =
    ap art_found (
      ap NowPlaying.current_art (write_events-deliver d piece order _)
      ∙ current_art-deliver piece n d.art_control payload id now order s.now_playing e p q c m v
          carried)
