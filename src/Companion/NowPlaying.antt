-- ===== src/Companion/NowPlaying.antt =====
-- internal/nowplaying/nowplaying.go: the store of the current track and its cover art. JSON decoding
-- (`encoding/json` into the struct) is the argument `unmarshal`; the clock is the argument `now`, in
-- milliseconds. A handler returns the new store and its error, `none` for nil.

pub mod Art
pub mod Guards
use rover_mems_ecu.Base.{
  ℕ, ◌*◌, ◌-◌, String, ℤ, pos, pos_part, ltb_ℤ, leb_ℤ, Bool, ◌||◌, not, List, [], ◌∷◌, Option, none,
  some, length, be16, ltb, insert, if◌then◌else◌,
}
use rover_mems_ecu.Companion.Fanout.{Hub, no_subs, notify}
use rover_mems_ecu.Companion.Chunks.{ChunkMap, count_received, assemble}

pub record Metadata : Type 0 where
  pub title : String
  pub artist : String
  pub album : String
  pub play_state : String
  pub position_ms : ℤ
  pub duration_ms : ℤ
  pub art_id : String

-- `wireMetadata`: a null `art_id` is `none`.
pub record WireMetadata : Type 0 where
  pub title : String
  pub artist : String
  pub album : String
  pub play_state : String
  pub position_ms : ℤ
  pub duration_ms : ℤ
  pub art_id : Option String

-- The struct of `ParseArtControl`, and its three results.
pub record ArtControl : Type 0 where
  pub art_id : String
  pub total_bytes : ℤ
  pub chunk_count : ℤ

pub data Error : Type 0 where
  bad_json total_bytes_range chunk_count_range too_short no_transfer expired index_beyond overflow :
      Error

abbrev pub max_art_bytes : ℕ
max_art_bytes = 512 * 1024

abbrev pub max_art_chunks : ℕ
max_art_chunks = 4096

-- 30 seconds.
abbrev pub art_transfer_ttl : ℕ
art_transfer_ttl = 30 * 1000

pub record ArtTransfer : Type 0 where
  pub art_id : String
  pub total_bytes : ℤ
  pub chunk_count : ℤ
  pub chunks : ChunkMap
  pub received : ℕ
  pub started_at : ℕ

pub record Snapshot : Type 0 where
  pub metadata : Metadata
  pub art_id : String
  pub has_art : Bool

pub record Store : Type 0 where
  pub metadata : Metadata
  pub art_id : String
  pub art : List ℕ
  pub transfer : Option ArtTransfer
  pub hub : Hub Snapshot

abbrev pub empty_metadata : Metadata
empty_metadata = record {
  title = "";
  artist = "";
  album = "";
  play_state = "";
  position_ms = pos 0;
  duration_ms = pos 0;
  art_id = "";
}

abbrev pub new_store : Store
new_store = record {
  metadata = empty_metadata;
  art_id = "";
  art = [];
  transfer = none;
  hub = no_subs;
}

-- `ParseMetadata`, on what was decoded.
pub parse_metadata : WireMetadata → Metadata
parse_metadata w = record {
  title = w.title;
  artist = w.artist;
  album = w.album;
  play_state = w.play_state;
  position_ms = w.position_ms;
  duration_ms = w.duration_ms;
  art_id = elim w.art_id [ none ↦ "" | some id ↦ id ];
}

-- `snapshotLocked`, and `Snapshot`.
pub snapshot : Store → Snapshot
snapshot s = record { metadata = s.metadata; art_id = s.art_id; has_art = ltb 0 (length s.art) }

-- `notify` with the snapshot of the store; the channels hold 8.
pub notify_snapshot : Store → Store
unfolding snapshot
notify_snapshot s = record s { hub = notify 8 (snapshot s) s.hub }

unfoldable pub handle_metadata :
    (List ℕ → Option WireMetadata) → List ℕ → Store → Store × Option Error
unfolding parse_metadata notify_snapshot
handle_metadata unmarshal payload s = elim (unmarshal payload) [
  | none ↦ (s, some bad_json)
  | some w ↦ (notify_snapshot (record s { metadata = parse_metadata w }), none)
]

-- `HandleArtControl` behind `ParseArtControl`.
pub start_transfer : ℕ → ArtControl → Store → Store × Option Error
start_transfer now c s =
    if leb_ℤ c.total_bytes (pos 0) || ltb_ℤ (pos max_art_bytes) c.total_bytes
    then (s, some total_bytes_range)
    else (if leb_ℤ c.chunk_count (pos 0) || ltb_ℤ (pos max_art_chunks) c.chunk_count
        then (s, some chunk_count_range)
        else (
          record s {
            transfer = some (record {
              art_id = c.art_id;
              total_bytes = c.total_bytes;
              chunk_count = c.chunk_count;
              chunks = [];
              received = 0;
              started_at = now;
            });
          },
          none,
        ))

pub handle_art_control : (List ℕ → Option ArtControl) → ℕ → List ℕ → Store → Store × Option Error
unfolding start_transfer
handle_art_control unmarshal now payload s = elim (unmarshal payload) [
  | none ↦ (s, some bad_json)
  | some c ↦ start_transfer now c s
]

-- "Assembly complete": the chunks become the art, and the subscribers are told.
pub finish_transfer : ArtTransfer → Store → Store
finish_transfer t s = notify_snapshot (record s {
  art = assemble (pos_part t.chunk_count) 0 t.chunks;
  art_id = t.art_id;
  transfer = none;
})

-- The tests of `HandleArtChunk` behind the update of the transfer `t`.
pub settle : ArtTransfer → Store → Store × Option Error
settle t s =
    if ltb_ℤ t.total_bytes (pos t.received)
    then (record s { transfer = none }, some overflow)
    else (if ltb_ℤ (pos t.received) t.total_bytes
        then (record s { transfer = some t }, none)
        else (finish_transfer t s, none))

-- `HandleArtChunk` with a transfer in progress.
pub store_chunk : ℕ → ℕ → List ℕ → ArtTransfer → Store → Store × Option Error
store_chunk now idx payload t s =
    if ltb art_transfer_ttl (now - t.started_at)
    then (record s { transfer = none }, some expired)
    else (if not (ltb_ℤ (pos idx) t.chunk_count)
        then (s, some index_beyond)
        else settle
            (record t {
              chunks = insert idx payload t.chunks;
              received = count_received idx payload t.chunks t.received;
            })
            s)

pub handle_art_chunk : ℕ → List ℕ → Store → Store × Option Error
handle_art_chunk now (hi ∷ lo ∷ payload) s = elim s.transfer [
  | none ↦ (s, some no_transfer)
  | some t ↦ store_chunk now (be16 hi lo) payload t s
]
handle_art_chunk now _ s = (s, some too_short)

-- `Art`: `none` is `ok == false`.
pub current_art : Store → Option (String × List ℕ)
current_art s = if ltb 0 (length s.art) then some (s.art_id, s.art) else none
