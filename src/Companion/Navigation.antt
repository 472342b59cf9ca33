-- ===== src/Companion/Navigation.antt =====
-- internal/navigation/navigation.go: the store of the turn-by-turn instruction and its maneuver icon.
-- JSON decoding (`encoding/json` into the struct) is the argument `unmarshal`. A handler returns the
-- new store and its error, `none` for nil.
pub mod Icon
use rover_mems_ecu.Base.{
  ℕ, String, str_eq, ℤ, pos, pos_part, ltb_ℤ, Bool, ◌&&◌, not, List, [], ◌∷◌, Option, none, some,
  length, be16, ltb, insert, if◌then◌else◌,
}
use rover_mems_ecu.Companion.Fanout.{Hub, notify}
use rover_mems_ecu.Companion.Chunks.{ChunkMap, count_received, assemble}

pub record Navigation : Type 0 where
  pub active : Bool
  pub instruction : String
  pub distance : String
  pub eta : String
  pub icon_id : String

-- `wireNavigation`: a null field is `none`.
pub record WireNavigation : Type 0 where
  pub active : Bool
  pub instruction : Option String
  pub distance : Option String
  pub eta : Option String
  pub icon_id : Option String

-- The struct of `ParseIconControl`, and its three results.
pub record IconControl : Type 0 where
  pub icon_id : String
  pub total_bytes : ℤ
  pub chunk_count : ℤ

pub data Error : Type 0 where
  bad_json too_short no_transfer overflow : Error

pub record IconTransfer : Type 0 where
  pub icon_id : String
  pub total_bytes : ℤ
  pub chunk_count : ℤ
  pub chunks : ChunkMap
  pub received : ℕ

pub record Snapshot : Type 0 where
  pub navigation : Navigation
  pub icon_id : String
  pub has_icon : Bool

pub record Store : Type 0 where
  pub nav : Navigation
  pub icon_id : String
  pub icon : List ℕ
  pub transfer : Option IconTransfer
  pub hub : Hub Snapshot

-- A null text is empty.
abbrev pub or_empty : Option String → String
or_empty none = ""
or_empty (some t) = t

-- `ParseNavigation`, on what was decoded.
pub parse_navigation : WireNavigation → Navigation
parse_navigation w = record {
  active = w.active;
  instruction = or_empty w.instruction;
  distance = or_empty w.distance;
  eta = or_empty w.eta;
  icon_id = or_empty w.icon_id;
}

-- `snapshotLocked`, and `Snapshot`.
pub snapshot : Store → Snapshot
snapshot s = record {
  navigation = s.nav;
  icon_id = s.icon_id;
  has_icon = ltb 0 (length s.icon) && (not (str_eq s.icon_id "") && str_eq s.icon_id s.nav.icon_id);
}

-- `notify` with the snapshot of the store; the channels hold 8.
unfoldable pub notify_snapshot : Store → Store
unfolding snapshot
notify_snapshot s = record s { hub = notify 8 (snapshot s) s.hub }

pub handle_navigation : (List ℕ → Option WireNavigation) → List ℕ → Store → Store × Option Error
unfolding parse_navigation notify_snapshot
handle_navigation unmarshal payload s = elim (unmarshal payload) [
  | none ↦ (s, some bad_json)
  | some w ↦ (notify_snapshot (record s { nav = parse_navigation w }), none)
]

pub handle_icon_control : (List ℕ → Option IconControl) → List ℕ → Store → Store × Option Error
handle_icon_control unmarshal payload s = elim (unmarshal payload) [
  | none ↦ (s, some bad_json)
  | some c ↦ (
    record s {
      transfer = some (record {
        icon_id = c.icon_id;
        total_bytes = c.total_bytes;
        chunk_count = c.chunk_count;
        chunks = [];
        received = 0;
      });
    },
    none,
  )
]

-- "Assembly complete": the chunks become the icon, and the subscribers are told.
pub finish_transfer : IconTransfer → Store → Store
finish_transfer t s = notify_snapshot (record s {
  icon = assemble (pos_part t.chunk_count) 0 t.chunks;
  icon_id = t.icon_id;
  transfer = none;
})

-- The tests of `HandleIconChunk` behind the update of the transfer `t`.
pub settle : IconTransfer → Store → Store × Option Error
settle t s =
    if ltb_ℤ t.total_bytes (pos t.received)
    then (record s { transfer = none }, some overflow)
    else (if ltb_ℤ (pos t.received) t.total_bytes
        then (record s { transfer = some t }, none)
        else (finish_transfer t s, none))

-- `HandleIconChunk` with a transfer in progress.
pub store_chunk : ℕ → List ℕ → IconTransfer → Store → Store × Option Error
store_chunk idx payload t s =
    settle
      (record t {
        chunks = insert idx payload t.chunks;
        received = count_received idx payload t.chunks t.received;
      })
      s

pub handle_icon_chunk : List ℕ → Store → Store × Option Error
handle_icon_chunk (hi ∷ lo ∷ payload) s = elim s.transfer [
  | none ↦ (s, some no_transfer)
  | some t ↦ store_chunk (be16 hi lo) payload t s
]
handle_icon_chunk _ s = (s, some too_short)

-- `Icon`: `none` is `ok == false`.
pub current_icon : Store → Option (String × List ℕ)
current_icon s = if ltb 0 (length s.icon) then some (s.icon_id, s.icon) else none
