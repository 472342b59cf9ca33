-- ===== src/Companion/Navigation/Icon.antt =====
-- The maneuver icon of internal/navigation/navigation.go: chunks in any order, with repeats, give
-- back the file that the phone cut up, and the snapshot says so.
use native.Mathlib.Decide.{dec_lt}
use text.Mathlib.TextEquality.{eq_iff}
use rover_mems_ecu.Base.{
  ℕ, ◌/◌, ◌%◌, ◌<◌, ◌≡◌, ◌⊎◌, inl, inr, refl, sym, ap, subst, true, false, str_eq, String, pos,
  List, [], ◌∷◌, length, be16, Option, none, some, lookup, insert, lookup-insert, All, arith,
}
use rover_mems_ecu.Companion.Chunks.{count_received, assemble}
use rover_mems_ecu.Companion.Chunks.Assembly.{
  whole, Agrees, Agrees-insert, assemble-whole, assemble_full, assemble_empty,
  count_received-assemble,
}
use rover_mems_ecu.Companion.Navigation.{
  IconControl, IconTransfer, Store, finish_transfer, settle, store_chunk, handle_icon_chunk,
  handle_icon_control, notify_snapshot, current_icon, handle_navigation, snapshot, parse_navigation,
  WireNavigation,
}

-- The frame that carries chunk `i`: its index, high byte first, and its bytes.
abbrev pub frame : (ℕ → List ℕ) → ℕ → List ℕ
frame piece i = (i / 256) ∷ (i % 256) ∷ piece i

-- Frames as they arrive, by the index of the chunk. Errors go back to the phone only.
pub deliver : (ℕ → List ℕ) → List ℕ → Store → Store
deliver piece [] s = s
deliver piece (i ∷ rest) s = deliver piece rest (handle_icon_chunk (frame piece i) s).0

lookup_empty : (i : ℕ) → lookup {V = List ℕ} i [] ≡ none
unfolding lookup
lookup_empty i = refl

-- An announcement starts a transfer with nothing received.
handle_icon_control-start :
    (unmarshal : List ℕ → Option IconControl) (payload : List ℕ) (id : String) (size n : ℕ)
    (s : Store)
    → unmarshal payload
      ≡ some (record { icon_id = id; total_bytes = pos size; chunk_count = pos n })
    → handle_icon_control unmarshal payload s ≡ (
      record s {
        transfer = some (record {
          icon_id = id;
          total_bytes = pos size;
          chunk_count = pos n;
          chunks = [];
          received = 0;
        });
      },
      none,
    )
unfolding handle_icon_control
handle_icon_control-start unmarshal payload id size n s e = ground arith

-- The frame of chunk `j` is among those that arrive.
abbrev pub Carries : ℕ → List ℕ → Type 0
Carries j [] = ⊥
Carries j (i ∷ rest) = (i ≡ j) ⊎ Carries j rest

module _ (piece : ℕ → List ℕ) (n : ℕ) where
  -- A transfer of the phone's file that still lacks bytes.
  pub record InProgress (t : IconTransfer) : Type 0 where
    pub total : t.total_bytes ≡ pos (length (whole piece n 0))
    pub count : t.chunk_count ≡ pos n
    pub agrees : Agrees piece t.chunks
    pub counted : t.received ≡ length (assemble n 0 t.chunks)
    pub partial : t.received < length (whole piece n 0)

  abbrev added : ℕ → IconTransfer → IconTransfer
  added i t = record t {
    chunks = insert i (piece i) t.chunks;
    received = count_received i (piece i) t.chunks t.received;
  }

  -- The transfer after a chunk of the file.
  added-counted :
      (i : ℕ) (t : IconTransfer)
      → InProgress t
      → i < n
      → ((added i t).received ≡ length (assemble n 0 (added i t).chunks))
  added-counted i t p h = count_received-assemble n i t.received (piece i) t.chunks h p.counted

  -- A chunk of the file leaves the transfer in progress, or completes it with the file.
  store_chunk-InProgress :
      (i : ℕ) (t : IconTransfer) (s : Store)
      → InProgress t
      → i < n
      → ((store_chunk i (piece i) t s ≡ (record s { transfer = some (added i t) }, none))
          × InProgress (added i t))
        ⊎ ((store_chunk i (piece i) t s ≡ (finish_transfer (added i t) s, none))
            × (assemble n 0 (added i t).chunks ≡ whole piece n 0))
  unfolding store_chunk settle
  store_chunk-InProgress i t s p h =
      let counted = added-counted i t p h in
      let agrees = Agrees-insert piece i t.chunks p.agrees in
      let (le, eq) = assemble-whole piece n 0 (added i t).chunks agrees in
      elim (dec_lt (added i t).received (length (whole piece n 0))) [
        | yes less ↦ inl (
          ground (arith, p.total, p.count, p.counted),
          record {
            total = p.total;
            count = p.count;
            agrees = agrees;
            counted = counted;
            partial = less;
          },
        )
        | no full ↦
            inr (ground (arith, p.total, p.count, le, counted), eq (omega (arith, le, counted)))
      ]

  -- The frames carry chunks of the file.
  abbrev pub InFile : List ℕ → Type 0
  InFile = All (λ (i : ℕ). i < n)

  -- The icon of the store is the file, under its name, and no transfer is open.
  pub record HasFile (id : String) (s : Store) : Type 0 where
    pub closed : s.transfer ≡ none
    pub icon : s.icon ≡ whole piece n 0
    pub named : s.icon_id ≡ id

  frame_index : (i : ℕ) → be16 (i / 256) (i % 256) ≡ i
  frame_index i = omega arith

  handle_icon_chunk-frame :
      (i : ℕ) (t : IconTransfer) (s : Store)
      → s.transfer ≡ some t
      → handle_icon_chunk (frame piece i) s ≡ store_chunk i (piece i) t s
  unfolding handle_icon_chunk
  handle_icon_chunk-frame i t s e = simp (e, frame_index)

  deliver_closed : (order : List ℕ) (s : Store) → s.transfer ≡ none → deliver piece order s ≡ s
  unfolding deliver handle_icon_chunk
  deliver_closed [] s e = refl
  deliver_closed (i ∷ rest) s e = simp e (deliver_closed rest s e)

  finish_transfer-HasFile :
      (id : String) (t : IconTransfer) (s : Store)
      → t.chunk_count ≡ pos n
      → t.icon_id ≡ id
      → assemble n 0 t.chunks ≡ whole piece n 0
      → HasFile id (finish_transfer t s)
  unfolding finish_transfer notify_snapshot
  finish_transfer-HasFile id t s c d e = record { closed = refl; icon = rw c e; named = d }

  -- An instruction that names the icon, on a store that has it.
  snapshot-HasFile :
      (unmarshal : List ℕ → Option WireNavigation) (payload : List ℕ) (w : WireNavigation)
      (id : String) (s : Store)
      → HasFile id s
      → unmarshal payload ≡ some w
      → w.icon_id ≡ some id
      → str_eq id "" ≡ false
      → 0 < length (whole piece n 0)
      → let s' = (handle_navigation unmarshal payload s).0 in
        (current_icon s' ≡ some (id, whole piece n 0))
        × (snapshot s' ≡ record { navigation = parse_navigation w; icon_id = id; has_icon = true })
  unfolding handle_navigation current_icon snapshot parse_navigation
  snapshot-HasFile unmarshal payload w id s f e named given p =
      rw (e, handle_navigation)
        (
          ground (arith, f.icon, f.named),
          ground (arith, f.icon, f.named, eq_iff s.icon_id id, eq_iff id id),
        )

  deliver-HasFile :
      (order : List ℕ) (id : String) (t : IconTransfer) (s : Store)
      → s.transfer ≡ some t
      → t.icon_id ≡ id
      → InProgress t
      → InFile order
      → ((j : ℕ) → j < n → Carries j order ⊎ (lookup j t.chunks ≡ some (piece j)))
      → HasFile id (deliver piece order s)
  unfolding deliver
  deliver-HasFile [] id t s e d p v left =
      let full : assemble n 0 t.chunks ≡ whole piece n 0 =
        assemble_full piece n 0 t.chunks
          (λ j h k. elim (left j (omega arith)) [ inl x ↦ absurd x | inr l ↦ l ]) in
      absurd (omega (arith, p.partial, p.counted, ap (λ (xs : List ℕ). length xs) full))
  deliver-HasFile (i ∷ rest) id t s e d p v left =
      rw (handle_icon_chunk-frame i t s e) (elim (store_chunk-InProgress i t s p v.0) [
        | inl (r, p') ↦ rw r (
            deliver-HasFile rest id (added i t) (record s { transfer = some (added i t) }) refl d p'
              v.1 (λ j h. still j (left j h)))
        | inr (r, w) ↦
            let f : HasFile id (finish_transfer (added i t) s) =
              finish_transfer-HasFile id (added i t) s p.count d w in
            rw r (
              subst (HasFile id)
                (sym (deliver_closed rest (finish_transfer (added i t) s) f.closed)) f)
      ])
    where
      still :
          (j : ℕ)
          → Carries j (i ∷ rest) ⊎ (lookup j t.chunks ≡ some (piece j))
          → Carries j rest ⊎ (lookup j (added i t).chunks ≡ some (piece j))
      still j (inl (inl q)) = inr (ground (arith, lookup-insert i j (piece i) t.chunks, ap piece q))
      still j (inl (inr c)) = inl c
      still j (inr l) = inr (ground (arith, lookup-insert i j (piece i) t.chunks, chunk_of i j))
        where
          chunk_of : (a b : ℕ) → a ≡ b → piece a ≡ piece b
          chunk_of a b q = ap piece q

  -- The phone announces an icon whose name and file are not empty, with its length and the number of
  -- its chunks; its frames arrive in any order and as often as it likes, each chunk at least once, and
  -- then it writes an instruction that names the icon. Then
  -- `Icon` gives the file, byte for byte, under that name, and the snapshot has the instruction and
  -- says that its icon is there, whatever the store held before.
  pub snapshot-deliver :
      (unmarshal : List ℕ → Option IconControl) (payload : List ℕ)
      (unmarshal_nav : List ℕ → Option WireNavigation) (nav_payload : List ℕ) (w : WireNavigation)
      (id : String) (order : List ℕ) (s : Store)
      → unmarshal payload
        ≡ some (record {
          icon_id = id;
          total_bytes = pos (length (whole piece n 0));
          chunk_count = pos n;
        })
      → unmarshal_nav nav_payload ≡ some w
      → w.icon_id ≡ some id
      → str_eq id "" ≡ false
      → 0 < length (whole piece n 0)
      → InFile order
      → ((j : ℕ) → j < n → Carries j order)
      → let s' =
          (handle_navigation unmarshal_nav nav_payload
            (deliver piece order (handle_icon_control unmarshal payload s).0)).0 in
        (current_icon s' ≡ some (id, whole piece n 0))
        × (snapshot s' ≡ record { navigation = parse_navigation w; icon_id = id; has_icon = true })
  snapshot-deliver unmarshal payload unmarshal_nav nav_payload w id order s e e' named given p v
        carried =
      let t : IconTransfer = record {
        icon_id = id;
        total_bytes = pos (length (whole piece n 0));
        chunk_count = pos n;
        chunks = [];
        received = 0;
      } in
      let started : handle_icon_control unmarshal payload s
          ≡ (record s { transfer = some t }, none) =
        handle_icon_control-start unmarshal payload id (length (whole piece n 0)) n s e in
      let f : HasFile id (deliver piece order (record s { transfer = some t })) =
        deliver-HasFile order id t (record s { transfer = some t }) refl refl
          (record {
            total = refl;
            count = refl;
            agrees = λ i c h. cc (lookup_empty i);
            counted = omega (arith, ap (λ (xs : List ℕ). length xs) (assemble_empty n 0));
            partial = p;
          })
          v (λ j h. inl (carried j h)) in
      rw started (snapshot-HasFile unmarshal_nav nav_payload w id _ f e' named given p)
