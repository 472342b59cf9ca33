-- ===== src/Companion/Fanout.antt =====
-- Subscriber lists and buffered channels, which the four stores of the companion packages write
-- alike: `Subscribe`, its unsubscribe function, and the non-blocking sends of `notify`.
pub mod Delivery
use rover_mems_ecu.Base.{ℕ, ◌+◌, List, [], ◌∷◌, ◌++◌, length, ltb, ◌==◌, if◌then◌else◌}

-- `&subscriber{ch: make(chan M, capacity)}`: the number stands for the pointer.
pub record Subscriber {ℓ} (M : Type ℓ) : Type ℓ where
  pub id : ℕ
  pub buffer : List M

-- The subscriber list, with the number of the next subscriber.
pub record Hub {ℓ} (M : Type ℓ) : Type ℓ where
  pub next : ℕ
  pub subs : List (Subscriber M)

abbrev pub no_subs {ℓ} : {M : Type ℓ} → Hub M
no_subs = record { next = 0; subs = [] }

module _ {ℓ} {M : Type ℓ} where
  -- `select { case sub.ch <- m: default: }`.
  unfoldable pub try_send : ℕ → M → Subscriber M → Subscriber M
  try_send capacity m sub =
      if ltb (length sub.buffer) capacity
      then record sub { buffer = sub.buffer ++ (m ∷ []) }
      else sub

  -- The loop over the copied list of subscribers.
  unfoldable pub send_all : ℕ → M → List (Subscriber M) → List (Subscriber M)
  send_all capacity m [] = []
  send_all capacity m (sub ∷ subs) = try_send capacity m sub ∷ send_all capacity m subs

  unfoldable pub notify : ℕ → M → Hub M → Hub M
  notify capacity m h = record h { subs = send_all capacity m h.subs }

  unfoldable pub subscribe : Hub M → Hub M × ℕ
  subscribe h = (
    record { next = h.next + 1; subs = h.subs ++ (record { id = h.next; buffer = [] } ∷ []) },
    h.next,
  )

  -- The first subscriber with the pointer is cut out, and the loop ends.
  unfoldable pub remove : ℕ → List (Subscriber M) → List (Subscriber M)
  remove id [] = []
  remove id (v ∷ vs) = if v.id == id then vs else v ∷ remove id vs

  unfoldable pub unsubscribe : ℕ → Hub M → Hub M
  unsubscribe id h = record h { subs = remove id h.subs }
