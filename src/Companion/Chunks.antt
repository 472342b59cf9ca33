-- ===== src/Companion/Chunks.antt =====
-- The chunk map of a transfer, which internal/nowplaying and internal/navigation write alike: a
-- `map[int][]byte`, the count of bytes received, and the loop that assembles the chunks in order.
pub mod Assembly
use rover_mems_ecu.Base.{
  ℕ, zero, suc, ◌+◌, ◌-◌, List, [], ◌++◌, Option, none, some, length, lookup, insert,
}

-- `map[int][]byte`.
abbrev pub ChunkMap : Type 0
ChunkMap = List (ℕ × List ℕ)

-- `t.chunks[i]`, which is nil where no chunk has arrived.
unfoldable pub chunk_or_nil : ℕ → ChunkMap → List ℕ
chunk_or_nil i m = elim (lookup i m) [ none ↦ [] | some c ↦ c ]

-- `t.received -= len(prev)` if the index is there, then `t.received += len(payload)`.
unfoldable pub count_received : ℕ → List ℕ → ChunkMap → ℕ → ℕ
count_received idx payload m received =
    let rest : ℕ = elim (lookup idx m) [ none ↦ received | some prev ↦ received - length prev ] in
    rest + length payload

-- `for i := …; i < chunkCount; i++ { assembled = append(assembled, t.chunks[i]...) }`, by the rounds
-- that are left.
unfoldable pub assemble : ℕ → ℕ → ChunkMap → List ℕ
assemble zero i m = []
assemble (suc n) i m = chunk_or_nil i m ++ assemble n (i + 1) m
