-- ===== src/Companion/NowPlaying/Guards.antt =====
-- What an unauthenticated peer can make the store of internal/nowplaying/nowplaying.go hold.
use rover_mems_ecu.Base.{
  ℕ, Bool-cases, ltb_ℤ, leb_ℤ, ltb, not, ◌||◌, subst, ◌-◌, ◌≤◌, ◌<◌, ◌≡◌, refl, sym, ap, inl, inr,
  pos, pos_part, List, [], ◌∷◌, length, be16, Option, none, some, Option-cases, lookup,
  lookup-insert, arith,
}
use rover_mems_ecu.Companion.Chunks.{assemble}
use rover_mems_ecu.Companion.Chunks.Assembly.{count_received-assemble, assemble_empty}
use rover_mems_ecu.Companion.NowPlaying.{
  WireMetadata, ArtControl, ArtTransfer, Store, max_art_bytes, art_transfer_ttl, max_art_chunks,
  new_store, start_transfer, finish_transfer, settle, store_chunk, notify_snapshot,
  handle_art_chunk, handle_art_control, handle_metadata,
}

-- An open transfer: what was announced is within the limits, the count of received bytes is exactly
-- what the chunks hold, it is below what was announced, and no index is beyond the chunk count.
pub record Bounded (t : ArtTransfer) : Type 0 where
  pub total_pos : 0 < pos_part t.total_bytes
  pub total_max : pos_part t.total_bytes ≤ max_art_bytes
  pub count_max : pos_part t.chunk_count ≤ max_art_chunks
  pub counted : t.received ≡ length (assemble (pos_part t.chunk_count) 0 t.chunks)
  pub partial : t.received < pos_part t.total_bytes
  pub within : (j : ℕ) → pos_part t.chunk_count ≤ j → lookup j t.chunks ≡ none

abbrev pub BoundedTransfer : Option ArtTransfer → Type 0
BoundedTransfer none = Unit
BoundedTransfer (some t) = Bounded t

pub record IsBounded (s : Store) : Type 0 where
  pub art_max : length s.art ≤ max_art_bytes
  pub open_transfer : BoundedTransfer s.transfer

notify_snapshot-IsBounded : (s : Store) → IsBounded s → IsBounded (notify_snapshot s)
unfolding notify_snapshot
notify_snapshot-IsBounded s b = record { art_max = b.art_max; open_transfer = b.open_transfer }

-- The art that a transfer leaves is as long as what it has counted.
finish_transfer-IsBounded :
    (t : ArtTransfer) (s : Store)
    → length (assemble (pos_part t.chunk_count) 0 t.chunks) ≤ max_art_bytes
    → IsBounded (finish_transfer t s)
unfolding finish_transfer notify_snapshot
finish_transfer-IsBounded t s h = record { art_max = h; open_transfer = tt }

lookup_empty : (i : ℕ) → lookup {V = List ℕ} i [] ≡ none
unfolding lookup
lookup_empty i = refl

-- A transfer behind a chunk, before the tests of its count.
settle-IsBounded :
    (t : ArtTransfer) (s : Store)
    → IsBounded s
    → 0 < pos_part t.total_bytes
    → pos_part t.total_bytes ≤ max_art_bytes
    → pos_part t.chunk_count ≤ max_art_chunks
    → t.received ≡ length (assemble (pos_part t.chunk_count) 0 t.chunks)
    → ((j : ℕ) → pos_part t.chunk_count ≤ j → lookup j t.chunks ≡ none)
    → IsBounded (settle t s).0
unfolding settle
settle-IsBounded t s b p q c e w = elim (Bool-cases (ltb_ℤ t.total_bytes (pos t.received))) [
  | inl over ↦ rw over (record { art_max = b.art_max; open_transfer = tt })
  | inr fits ↦ rw fits (elim (Bool-cases (ltb_ℤ (pos t.received) t.total_bytes)) [
    | inl less ↦ rw less (record {
      art_max = b.art_max;
      open_transfer = record {
        total_pos = p;
        total_max = q;
        count_max = c;
        counted = e;
        partial = ground arith;
        within = w;
      };
    })
    | inr full ↦ rw full (finish_transfer-IsBounded t s (ground arith))
  ])
]

start_transfer-IsBounded :
    (now : ℕ) (c : ArtControl) (s : Store) → IsBounded s → IsBounded (start_transfer now c s).0
unfolding start_transfer
start_transfer-IsBounded now c s b =
    elim (Bool-cases (leb_ℤ c.total_bytes (pos 0) || ltb_ℤ (pos max_art_bytes) c.total_bytes)) [
      | inl bad ↦ rw bad b
      | inr good ↦
          rw good
            (elim (Bool-cases
              (leb_ℤ c.chunk_count (pos 0) || ltb_ℤ (pos max_art_chunks) c.chunk_count)) [
                | inl bad ↦ rw bad b
                | inr good' ↦ rw good' (record {
                  art_max = b.art_max;
                  open_transfer = record {
                    total_pos = ground arith;
                    total_max = ground arith;
                    count_max = ground arith;
                    counted = sym (
                        ap (λ (xs : List ℕ). length xs)
                          (assemble_empty (pos_part c.chunk_count) 0));
                    partial = ground arith;
                    within = λ j h. lookup_empty j;
                  };
                })
              ])
    ]

store_chunk-IsBounded :
    (now idx : ℕ) (payload : List ℕ) (t : ArtTransfer) (s : Store)
    → IsBounded s
    → Bounded t
    → IsBounded (store_chunk now idx payload t s).0
unfolding store_chunk
store_chunk-IsBounded now idx payload t s b o =
    elim (Bool-cases (ltb art_transfer_ttl (now - t.started_at))) [
      | inl late ↦ rw late (record { art_max = b.art_max; open_transfer = tt })
      | inr early ↦ rw early (elim (Bool-cases (not (ltb_ℤ (pos idx) t.chunk_count))) [
        | inl beyond ↦ rw beyond b
        | inr known ↦
            let inside : idx < pos_part t.chunk_count = ground arith in
            rw known (
              settle-IsBounded _ s b o.total_pos o.total_max o.count_max
                (count_received-assemble (pos_part t.chunk_count) idx t.received payload t.chunks
                  inside o.counted)
                (λ j h. ground (arith, lookup-insert idx j payload t.chunks, o.within j h)))
      ])
    ]

-- A call of one of the store's write handlers, at a time.
pub data Write : Type 0 where
  metadata art_control art_chunk : Write

pub handle :
    (List ℕ → Option WireMetadata)
    → (List ℕ → Option ArtControl)
    → Write
    → ℕ
    → List ℕ
    → Store
    → Store
handle meta control metadata now payload s = (handle_metadata meta payload s).0
handle meta control art_control now payload s = (handle_art_control control now payload s).0
handle meta control art_chunk now payload s = (handle_art_chunk now payload s).0

-- Any writes, one after the other.
pub handle_all :
    (List ℕ → Option WireMetadata)
    → (List ℕ → Option ArtControl)
    → List (Write × ℕ × List ℕ)
    → Store
    → Store
handle_all meta control [] s = s
handle_all meta control ((w, now, payload) ∷ ws) s =
    handle_all meta control ws (handle meta control w now payload s)

module _ (meta : List ℕ → Option WireMetadata) (control : List ℕ → Option ArtControl) where
  handle-IsBounded :
      (w : Write) (now : ℕ) (payload : List ℕ) (s : Store)
      → IsBounded s
      → IsBounded (handle meta control w now payload s)
  unfolding handle handle_metadata handle_art_control handle_art_chunk
  handle-IsBounded metadata now payload s b = elim (Option-cases (meta payload)) [
    | inl e ↦ rw (e, handle, handle_metadata) b
    | inr (w, e) ↦
        rw (e, handle, handle_metadata)
          (record { art_max = b.art_max; open_transfer = b.open_transfer })
  ]
  handle-IsBounded art_control now payload s b = elim (Option-cases (control payload)) [
    | inl e ↦ rw (e, handle, handle_art_control) b
    | inr (c, e) ↦ rw (e, handle, handle_art_control) (start_transfer-IsBounded now c s b)
  ]
  handle-IsBounded art_chunk now [] s b = b
  handle-IsBounded art_chunk now (hi ∷ []) s b = b
  handle-IsBounded art_chunk now (hi ∷ lo ∷ payload) s b = elim (Option-cases s.transfer) [
    | inl e ↦ simp (e, handle, handle_art_chunk) b
    | inr (t, e) ↦
        simp (e, handle, handle_art_chunk)
          (store_chunk-IsBounded now (be16 hi lo) payload t s b
            (subst BoundedTransfer e b.open_transfer))
  ]

  -- Whatever a peer writes, in whatever order and at whatever times, the store never holds more than
  -- the limits: the art is at most 512 KiB, and an open transfer was announced with 1 to 512 KiB in
  -- at most 4096 chunks, has counted exactly the bytes of its chunks, fewer than announced, and has
  -- no chunk beyond the count.
  pub handle_all-IsBounded :
      (ws : List (Write × ℕ × List ℕ)) → IsBounded (handle_all meta control ws new_store)
  unfolding handle_all
  handle_all-IsBounded ws = from ws new_store (record { art_max = omega arith; open_transfer = tt })
    where
      from :
          (ws : List (Write × ℕ × List ℕ)) (s : Store)
          → IsBounded s
          → IsBounded (handle_all meta control ws s)
      from [] s b = b
      from ((w, now, payload) ∷ ws) s b =
          from ws (handle meta control w now payload s) (handle-IsBounded w now payload s b)
