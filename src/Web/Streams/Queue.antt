-- ===== src/Web/Streams/Queue.antt =====
-- What a client of the streaming handlers of internal/web/server.go is sent: the refinement of the loop by
-- one bounded queue.
use rover_mems_ecu.Base.{
  ℕ, ◌≡◌, ◌≢◌, refl, ap, ◌∙◌, Bool, true, false, List, [], ◌∷◌, ◌++◌, length, drop, ltb, ◌==◌, All,
  arith, if◌then◌else◌,
}
use rover_mems_ecu.Companion.Fanout.{
  Subscriber, Hub, try_send, send_all, notify, subscribe, remove, unsubscribe,
}
use rover_mems_ecu.Companion.Fanout.Delivery.{AllIds, IsFresh}
use rover_mems_ecu.Web.Streams.{
  Event, stopped, peer_gone, ticked, received, posted, joined, left, Stream, pop, buffer_of, leave,
  behind_receive, serve, ws_ping,
}
use rover_mems_ecu.Web.Streams.Departure.{IsForeign}

module _ {ℓ} {W : Type 0} {M : Type ℓ} where
  -- The case of the channel, on a queue of messages.
  unfoldable pub take_one :
      (W → M → List (List ℕ) × Bool) → W → List M → List (List ℕ) → List (List ℕ)
  take_one write w [] later = later
  take_one write w (m ∷ ms) later =
      let (out, failed) = write w m in if failed then out else out ++ later

  -- What a handler sends from a queue of messages on that takes a message when it has room.
  unfoldable pub stream :
      (W → M → List (List ℕ) × Bool) → ℕ → List M → List (Event W M) → List (List ℕ)
  stream write capacity q [] = []
  stream write capacity q (stopped ∷ es) = []
  stream write capacity q (peer_gone ∷ es) = []
  stream write capacity q (ticked w ∷ es) =
      let later = stream write capacity q es in if ws_ping w then [] else later
  stream write capacity q (received w ∷ es) =
      take_one write w q (stream write capacity (drop 1 q) es)
  stream write capacity q (posted m ∷ es) =
      stream write capacity (if ltb (length q) capacity then q ++ (m ∷ []) else q) es
  stream write capacity q (joined ∷ es) = stream write capacity q es
  stream write capacity q (left j ∷ es) = stream write capacity q es

module _ {ℓ} {M : Type ℓ} where
  -- Whether a subscriber is in the list.
  pub has : ℕ → List (Subscriber M) → Bool
  has id [] = false
  has id (v ∷ vs) = if v.id == id then true else has id vs

  -- The subscriber is in the list, and this is in its channel.
  abbrev pub Holds : ℕ → List M → Hub M → Type ℓ
  Holds id q h = (has id h.subs ≡ true) × (buffer_of id h.subs ≡ q)

  buffer_of-send_all :
      (id capacity : ℕ) (m : M) (subs : List (Subscriber M))
      → has id subs ≡ true
      → buffer_of id (send_all capacity m subs) ≡ (
          if ltb (length (buffer_of id subs)) capacity
          then buffer_of id subs ++ (m ∷ [])
          else buffer_of id subs)
  unfolding buffer_of send_all has try_send
  buffer_of-send_all id capacity m [] h = cc
  buffer_of-send_all id capacity m (v ∷ vs) h = ground (arith, buffer_of-send_all id capacity m vs)

  has-send_all :
      (id capacity : ℕ) (m : M) (subs : List (Subscriber M))
      → has id (send_all capacity m subs) ≡ has id subs
  unfolding send_all has try_send
  has-send_all id capacity m [] = refl
  has-send_all id capacity m (v ∷ vs) = ground (arith, has-send_all id capacity m vs)

  has-append :
      (id : ℕ) (subs ws : List (Subscriber M)) → has id subs ≡ true → has id (subs ++ ws) ≡ true
  unfolding has
  has-append id [] ws h = cc
  has-append id (v ∷ vs) ws h = ground (arith, has-append id vs ws)

  buffer_of-append :
      (id : ℕ) (subs ws : List (Subscriber M))
      → has id subs ≡ true
      → buffer_of id (subs ++ ws) ≡ buffer_of id subs
  unfolding has buffer_of
  buffer_of-append id [] ws h = cc
  buffer_of-append id (v ∷ vs) ws h = ground (arith, buffer_of-append id vs ws)

  has-remove :
      (id j : ℕ) (subs : List (Subscriber M)) → j ≢ id → has id (remove j subs) ≡ has id subs
  unfolding has remove
  has-remove id j [] ne = refl
  has-remove id j (v ∷ vs) ne = ground (arith, has-remove id j vs ne)

  buffer_of-remove :
      (id j : ℕ) (subs : List (Subscriber M))
      → j ≢ id
      → buffer_of id (remove j subs) ≡ buffer_of id subs
  unfolding buffer_of remove
  buffer_of-remove id j [] ne = refl
  buffer_of-remove id j (v ∷ vs) ne = ground (arith, buffer_of-remove id j vs ne)

  has-pop : (id : ℕ) (subs : List (Subscriber M)) → has id (pop id subs) ≡ has id subs
  unfolding has pop
  has-pop id [] = refl
  has-pop id (v ∷ vs) = ground (arith, has-pop id vs)

  buffer_of-pop :
      (id : ℕ) (subs : List (Subscriber M))
      → buffer_of id (pop id subs) ≡ drop 1 (buffer_of id subs)
  unfolding buffer_of pop
  buffer_of-pop id [] = refl
  buffer_of-pop id (v ∷ vs) = ground (arith, buffer_of-pop id vs)

  sent-if : (t : Bool) (x y : Stream M) → (if t then x else y).sent ≡ (if t then x.sent else y.sent)
  sent-if true x y = refl
  sent-if false x y = refl

module _ {ℓ} {W : Type 0} {M : Type ℓ} where
  sent-behind_receive :
      (write : W → M → List (List ℕ) × Bool) (w : W) (ms : List M) (gone later : Stream M)
      → (behind_receive write w ms gone later).sent ≡ take_one write w ms later.sent
  unfolding behind_receive take_one
  sent-behind_receive write w [] gone later = refl
  sent-behind_receive write w (m ∷ ms) gone later =
      let (out, failed) = write w m in
      sent-if failed (record gone { sent = out }) (record later { sent = out ++ later.sent })

  serve-Holds :
      (write : W → M → List (List ℕ) × Bool) (capacity id : ℕ) (es : List (Event W M)) (q : List M)
      (h : Hub M)
      → All (IsForeign id) es
      → Holds id q h
      → (serve write capacity id es h).sent ≡ stream write capacity q es
  unfolding serve stream leave notify subscribe unsubscribe
  serve-Holds write capacity id [] q h fs holds = refl
  serve-Holds write capacity id (stopped ∷ es) q h fs holds = refl
  serve-Holds write capacity id (peer_gone ∷ es) q h fs holds = refl
  serve-Holds write capacity id (ticked w ∷ es) q h (f, fs) holds =
      sent-if (ws_ping w) (leave capacity id es h) _
      ∙ ap (λ (xs : List (List ℕ)). if ws_ping w then [] else xs)
          (serve-Holds write capacity id es q h fs holds)
  serve-Holds write capacity id (received w ∷ es) q h (f, fs) (inside, e) =
      sent-behind_receive write w (buffer_of id h.subs) _ _ ∙ λ i. take_one write w (e i) (
        serve-Holds write capacity id es (drop 1 q) (record h { subs = pop id h.subs }) fs
          (has-pop id h.subs ∙ inside, buffer_of-pop id h.subs ∙ ap (drop 1) e) i)
  serve-Holds write capacity id (posted m ∷ es) q h (f, fs) (inside, e) =
      serve-Holds write capacity id es _ (notify capacity m h) fs (
        has-send_all id capacity m h.subs ∙ inside,
        buffer_of-send_all id capacity m h.subs inside
            ∙ ap (λ b. if ltb (length b) capacity then b ++ (m ∷ []) else b) e,
      )
  serve-Holds write capacity id (joined ∷ es) q h (f, fs) (inside, e) =
      serve-Holds write capacity id es q (subscribe h).0 fs
        (has-append id h.subs _ inside, buffer_of-append id h.subs _ inside ∙ e)
  serve-Holds write capacity id (left j ∷ es) q h (f, fs) (inside, e) =
      serve-Holds write capacity id es q (unsubscribe j h) fs
        (has-remove id j h.subs f ∙ inside, buffer_of-remove id j h.subs f ∙ e)

module _ {ℓ} {M : Type ℓ} where
  has-new :
      (id : ℕ) (subs : List (Subscriber M))
      → AllIds id subs
      → (has id (subs ++ (record { id = id; buffer = [] } ∷ [])) ≡ true)
        × (buffer_of id (subs ++ (record { id = id; buffer = [] } ∷ [])) ≡ [])
  unfolding has buffer_of
  has-new id [] h = (ground arith, ground arith)
  has-new id (v ∷ vs) (b, h) =
      let later = has-new id vs h in (ground (arith, later.0), ground (arith, later.1))

module _ {ℓ} {W : Type 0} {M : Type ℓ} where
  -- What a handler that has just subscribed sends depends on nothing but what happens from then on: it is
  -- what a queue of its own gives, which takes a posted message when there is room, and gives up its first
  -- one for each write. No other subscriber and no other goroutine changes it.
  pub serve-stream :
      (write : W → M → List (List ℕ) × Bool) (capacity : ℕ) (es : List (Event W M)) (h : Hub M)
      → IsFresh h
      → All (IsForeign h.next) es
      → (serve write capacity h.next es (subscribe h).0).sent ≡ stream write capacity [] es
  unfolding subscribe
  serve-stream write capacity es h fresh fs =
      serve-Holds write capacity h.next es [] (subscribe h).0 fs (has-new h.next h.subs fresh)
