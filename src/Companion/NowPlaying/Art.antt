-- ===== src/Companion/NowPlaying/Art.antt =====
-- Cover art over Bluetooth, internal/nowplaying/nowplaying.go: chunks in any order, with repeats,
-- give back the file that the phone cut up.
use native.Mathlib.Decide.{dec_lt}
use rover_mems_ecu.Base.{
  ℕ, ◌-◌, ◌/◌, ◌%◌, ◌≤◌, ◌<◌, ◌≡◌, ◌⊎◌, inl, inr, refl, sym, ap, subst, String, pos, List, [], ◌∷◌,
  length, be16, Option, none, some, lookup, insert, lookup-insert, All, arith,
}
use rover_mems_ecu.Companion.Chunks.{count_received, assemble}
use rover_mems_ecu.Companion.Chunks.Assembly.{
  whole, Agrees, Agrees-insert, assemble-whole, assemble_full, assemble_empty,
  count_received-assemble,
}
use rover_mems_ecu.Companion.NowPlaying.{
  ArtControl, ArtTransfer, Store, art_transfer_ttl, max_art_bytes, max_art_chunks, finish_transfer,
  settle, store_chunk, handle_art_chunk, handle_art_control, notify_snapshot, current_art,
}

-- The frame that carries chunk `i`: its index, high byte first, and its bytes.
abbrev pub frame : (ℕ → List ℕ) → ℕ → List ℕ
frame piece i = (i / 256) ∷ (i % 256) ∷ piece i

-- Frames as they arrive: the time, and the index of the chunk. Errors go back to the phone only.
unfoldable pub deliver : (ℕ → List ℕ) → List (ℕ × ℕ) → Store → Store
deliver piece [] s = s
deliver piece ((now, i) ∷ rest) s = deliver piece rest (handle_art_chunk now (frame piece i) s).0

lookup_empty : (i : ℕ) → lookup {V = List ℕ} i [] ≡ none
unfolding lookup
lookup_empty i = refl

-- An announcement within the limits starts a transfer with nothing received.
handle_art_control-start :
    (unmarshal : List ℕ → Option ArtControl) (payload : List ℕ) (id : String) (now size n : ℕ)
    (s : Store)
    → unmarshal payload ≡ some (record { art_id = id; total_bytes = pos size; chunk_count = pos n })
    → 0 < size
    → size ≤ max_art_bytes
    → 0 < n
    → n ≤ max_art_chunks
    → handle_art_control unmarshal now payload s ≡ (
      record s {
        transfer = some (record {
          art_id = id;
          total_bytes = pos size;
          chunk_count = pos n;
          chunks = [];
          received = 0;
          started_at = now;
        });
      },
      none,
    )
unfolding handle_art_control
handle_art_control-start unmarshal payload id now size n s e p q c d = ground arith

-- The frame of chunk `j` is among those that arrive.
abbrev pub Carries : ℕ → List (ℕ × ℕ) → Type 0
Carries j [] = ⊥
Carries j ((now, i) ∷ rest) = (i ≡ j) ⊎ Carries j rest

module _ (piece : ℕ → List ℕ) (n : ℕ) where
  -- A transfer of the phone's file that still lacks bytes.
  pub record InProgress (t : ArtTransfer) : Type 0 where
    pub total : t.total_bytes ≡ pos (length (whole piece n 0))
    pub count : t.chunk_count ≡ pos n
    pub agrees : Agrees piece t.chunks
    pub counted : t.received ≡ length (assemble n 0 t.chunks)
    pub partial : t.received < length (whole piece n 0)

  abbrev added : ℕ → ArtTransfer → ArtTransfer
  added i t = record t {
    chunks = insert i (piece i) t.chunks;
    received = count_received i (piece i) t.chunks t.received;
  }

  -- The transfer after a chunk of the file.
  added-counted :
      (i : ℕ) (t : ArtTransfer)
      → InProgress t
      → i < n
      → ((added i t).received ≡ length (assemble n 0 (added i t).chunks))
  added-counted i t p h = count_received-assemble n i t.received (piece i) t.chunks h p.counted

  -- A chunk of the file in time leaves the transfer in progress, or completes it with the file.
  store_chunk-InProgress :
      (now i : ℕ) (t : ArtTransfer) (s : Store)
      → InProgress t
      → i < n
      → now - t.started_at ≤ art_transfer_ttl
      → ((store_chunk now i (piece i) t s ≡ (record s { transfer = some (added i t) }, none))
          × InProgress (added i t))
        ⊎ ((store_chunk now i (piece i) t s ≡ (finish_transfer (added i t) s, none))
            × (assemble n 0 (added i t).chunks ≡ whole piece n 0))
  unfolding store_chunk settle
  store_chunk-InProgress now i t s p h k =
      let counted = added-counted i t p h in
      let agrees = Agrees-insert piece i t.chunks p.agrees in
      let (le, eq) = assemble-whole piece n 0 (added i t).chunks agrees in
      elim (dec_lt (added i t).received (length (whole piece n 0))) [
        | yes less ↦ inl (
          ground (arith, p.total, p.count, p.counted),
          record {
            total = p.total;
            count = p.count;
            agrees = agrees;
            counted = counted;
            partial = less;
          },
        )
        | no full ↦
            inr (ground (arith, p.total, p.count, le, counted), eq (omega (arith, le, counted)))
      ]

  -- The frames arrive in time, and carry chunks of the file.
  abbrev pub InTime : ℕ → List (ℕ × ℕ) → Type 0
  InTime started = All (λ (a : ℕ × ℕ). (a.0 - started ≤ art_transfer_ttl) × (a.1 < n))

  -- The art of the store is the file, under its name, and no transfer is open.
  pub record HasFile (id : String) (s : Store) : Type 0 where
    pub closed : s.transfer ≡ none
    pub art : s.art ≡ whole piece n 0
    pub named : s.art_id ≡ id

  frame_index : (i : ℕ) → be16 (i / 256) (i % 256) ≡ i
  frame_index i = omega arith

  handle_art_chunk-frame :
      (now i : ℕ) (t : ArtTransfer) (s : Store)
      → s.transfer ≡ some t
      → handle_art_chunk now (frame piece i) s ≡ store_chunk now i (piece i) t s
  unfolding handle_art_chunk
  handle_art_chunk-frame now i t s e = simp (e, frame_index)

  deliver_closed :
      (order : List (ℕ × ℕ)) (s : Store) → s.transfer ≡ none → deliver piece order s ≡ s
  unfolding deliver handle_art_chunk
  deliver_closed [] s e = refl
  deliver_closed ((now, i) ∷ rest) s e = simp e (deliver_closed rest s e)

  finish_transfer-HasFile :
      (id : String) (t : ArtTransfer) (s : Store)
      → t.chunk_count ≡ pos n
      → t.art_id ≡ id
      → assemble n 0 t.chunks ≡ whole piece n 0
      → HasFile id (finish_transfer t s)
  unfolding finish_transfer notify_snapshot
  finish_transfer-HasFile id t s c d e = record { closed = refl; art = rw c e; named = d }

  deliver-HasFile :
      (order : List (ℕ × ℕ)) (id : String) (t : ArtTransfer) (s : Store)
      → s.transfer ≡ some t
      → t.art_id ≡ id
      → InProgress t
      → InTime t.started_at order
      → ((j : ℕ) → j < n → Carries j order ⊎ (lookup j t.chunks ≡ some (piece j)))
      → HasFile id (deliver piece order s)
  unfolding deliver
  deliver-HasFile [] id t s e d p v left =
      let full : assemble n 0 t.chunks ≡ whole piece n 0 =
        assemble_full piece n 0 t.chunks
          (λ j h k. elim (left j (omega arith)) [ inl x ↦ absurd x | inr l ↦ l ]) in
      absurd (omega (arith, p.partial, p.counted, ap (λ (xs : List ℕ). length xs) full))
  deliver-HasFile ((now, i) ∷ rest) id t s e d p v left =
      rw (handle_art_chunk-frame now i t s e)
        (elim (store_chunk-InProgress now i t s p v.0.1 v.0.0) [
          | inl (r, p') ↦ rw r (
              deliver-HasFile rest id (added i t) (record s { transfer = some (added i t) }) refl d
                p' v.1 (λ j h. still j (left j h)))
          | inr (r, w) ↦
              let f : HasFile id (finish_transfer (added i t) s) =
                finish_transfer-HasFile id (added i t) s p.count d w in
              rw r (
                subst (HasFile id)
                  (sym (deliver_closed rest (finish_transfer (added i t) s) f.closed)) f)
        ])
    where
      still :
          (j : ℕ)
          → Carries j ((now, i) ∷ rest) ⊎ (lookup j t.chunks ≡ some (piece j))
          → Carries j rest ⊎ (lookup j (added i t).chunks ≡ some (piece j))
      still j (inl (inl q)) = inr (ground (arith, lookup-insert i j (piece i) t.chunks, ap piece q))
      still j (inl (inr c)) = inl c
      still j (inr l) = inr (ground (arith, lookup-insert i j (piece i) t.chunks, chunk_of i j))
        where
          chunk_of : (a b : ℕ) → a ≡ b → piece a ≡ piece b
          chunk_of a b q = ap piece q

  -- The phone announces a file within the limits, and its frames arrive in any order, as often as it
  -- likes and none too late, so that each chunk arrives at least once. Then `Art` gives the file,
  -- byte for byte, under the announced name, whatever the store held before.
  pub current_art-deliver :
      (unmarshal : List ℕ → Option ArtControl) (payload : List ℕ) (id : String) (now : ℕ)
      (order : List (ℕ × ℕ)) (s : Store)
      → unmarshal payload
        ≡ some (record {
          art_id = id;
          total_bytes = pos (length (whole piece n 0));
          chunk_count = pos n;
        })
      → 0 < length (whole piece n 0)
      → length (whole piece n 0) ≤ max_art_bytes
      → 0 < n
      → n ≤ max_art_chunks
      → InTime now order
      → ((j : ℕ) → j < n → Carries j order)
      → current_art (deliver piece order (handle_art_control unmarshal now payload s).0)
        ≡ some (id, whole piece n 0)
  unfolding current_art
  current_art-deliver unmarshal payload id now order s e p q c d v carried =
      let t : ArtTransfer = record {
        art_id = id;
        total_bytes = pos (length (whole piece n 0));
        chunk_count = pos n;
        chunks = [];
        received = 0;
        started_at = now;
      } in
      let started : handle_art_control unmarshal now payload s
          ≡ (record s { transfer = some t }, none) =
        handle_art_control-start unmarshal payload id now (length (whole piece n 0)) n s e p q c
          d in
      let f : HasFile id (deliver piece order (record s { transfer = some t })) =
        deliver-HasFile order id t (record s { transfer = some t }) refl refl
          (record {
            total = refl;
            count = refl;
            agrees = λ i c h. cc (lookup_empty i);
            counted = omega (arith, ap (λ (xs : List ℕ). length xs) (assemble_empty n 0));
            partial = p;
          })
          v (λ j h. inl (carried j h)) in
      rw started (ground (arith, f.art, f.named))
