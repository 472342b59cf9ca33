-- ===== src/Web/Streams.antt =====
-- internal/web/server.go: the handlers that stream messages over a WebSocket, `wsNowPlayingHandler`,
-- `wsNavigationHandler`, `wsNotificationsHandler` and `wsHeadUnitHandler`. Their loops are written alike.
-- JSON encoding is the argument `marshal`.
pub mod Queue
pub mod Departure
pub mod Order
use rover_mems_ecu.Base.{
  ℕ, Bool, true, false, not, List, [], ◌∷◌, ◌++◌, Option, none, some, drop, ◌==◌, if◌then◌else◌,
}
use rover_mems_ecu.Companion.Fanout.{Subscriber, Hub, notify, subscribe, unsubscribe}

-- Whether `SetWriteDeadline` and `WriteMessage` succeed.
pub record Write : Type 0 where
  pub deadline_set : Bool
  pub written : Bool

-- `wsBytesWrite`: the messages that are written, and whether there is an error.
unfoldable pub ws_bytes_write : Write → List ℕ → List (List ℕ) × Bool
ws_bytes_write w payload =
    if not w.deadline_set
    then ([], true)
    else (if w.written then (payload ∷ [], false) else ([], true))

-- `wsPing`: whether there is an error.
unfoldable pub ws_ping : Write → Bool
ws_ping w = if not w.deadline_set then true else not w.written

-- `wsJSONWrite`, behind `json.Marshal`.
unfoldable pub write_encoded : Write → Option (List ℕ) → List (List ℕ) × Bool
write_encoded w none = ([], true)
write_encoded w (some json) = ws_bytes_write w json

unfoldable pub ws_json_write {ℓ} :
    {M : Type ℓ} → (M → Option (List ℕ)) → Write → M → List (List ℕ) × Bool
ws_json_write marshal w m = write_encoded w (marshal m)

-- What happens next: the select of the loop finds the context done, `done` closed by the reader, the
-- ticker, or its channel ready, with the outcomes `W` of its writes; or another goroutine posts a message to the store, subscribes or leaves.
pub data Event {ℓ} (W : Type 0) (M : Type ℓ) : Type ℓ where
  stopped peer_gone : Event W M
  ticked : Write → Event W M
  received : W → Event W M
  posted : M → Event W M
  joined : Event W M
  left : ℕ → Event W M

-- The subscribers of the store, the messages that the handler has written, and whether it has returned.
pub record Stream {ℓ} (M : Type ℓ) : Type ℓ where
  pub hub : Hub M
  pub sent : List (List ℕ)
  pub returned : Bool

module _ {ℓ} {M : Type ℓ} where
  -- The channel of a subscriber.
  unfoldable pub buffer_of : ℕ → List (Subscriber M) → List M
  buffer_of id [] = []
  buffer_of id (v ∷ vs) = if v.id == id then v.buffer else buffer_of id vs

  -- `<-ch`: the first message leaves the channel. An empty channel is left as it is.
  unfoldable pub pop : ℕ → List (Subscriber M) → List (Subscriber M)
  pop id [] = []
  pop id (v ∷ vs) = if v.id == id then record v { buffer = drop 1 v.buffer } ∷ vs else v ∷ pop id vs

module _ {ℓ} {W : Type 0} {M : Type ℓ} where
  -- What another goroutine does to the store's subscribers.
  unfoldable pub other : ℕ → Event W M → Hub M → Hub M
  other capacity (posted m) h = notify capacity m h
  other capacity joined h = (subscribe h).0
  other capacity (left j) h = unsubscribe j h
  other capacity stopped h = h
  other capacity peer_gone h = h
  other capacity (ticked w) h = h
  other capacity (received w) h = h

  unfoldable pub elsewhere : ℕ → List (Event W M) → Hub M → Hub M
  elsewhere capacity [] h = h
  elsewhere capacity (e ∷ es) h = elsewhere capacity es (other capacity e h)

  -- The deferred `unsub`; the other goroutines go on.
  unfoldable pub leave : ℕ → ℕ → List (Event W M) → Hub M → Stream M
  leave capacity id es h = record {
    hub = elsewhere capacity es (unsubscribe id h);
    sent = [];
    returned = true;
  }

  -- The case of the channel: it is ready if there is a message in it. `gone` is the return of the
  -- handler, `later` the rest of the loop.
  unfoldable pub behind_receive :
      (W → M → List (List ℕ) × Bool) → W → List M → Stream M → Stream M → Stream M
  behind_receive write w [] gone later = later
  behind_receive write w (m ∷ ms) gone later =
      let (out, failed) = write w m in
      if failed then record gone { sent = out } else record later { sent = out ++ later.sent }

  -- The loop, with the write of the handler.
  unfoldable pub serve :
      (W → M → List (List ℕ) × Bool) → ℕ → ℕ → List (Event W M) → Hub M → Stream M
  serve write capacity id [] h = record { hub = h; sent = []; returned = false }
  serve write capacity id (stopped ∷ es) h = leave capacity id es h
  serve write capacity id (peer_gone ∷ es) h = leave capacity id es h
  serve write capacity id (ticked w ∷ es) h =
      let later = serve write capacity id es h in
      if ws_ping w then leave capacity id es h else later
  serve write capacity id (received w ∷ es) h =
      let h' = record h { subs = pop id h.subs } in
      behind_receive write w (buffer_of id h.subs) (leave capacity id es h')
        (serve write capacity id es h')
  serve write capacity id (posted m ∷ es) h = serve write capacity id es (notify capacity m h)
  serve write capacity id (joined ∷ es) h = serve write capacity id es (subscribe h).0
  serve write capacity id (left j ∷ es) h = serve write capacity id es (unsubscribe j h)
