-- ===== src/Web/Streams/Order.antt =====
-- In which order a client of the streaming handlers of internal/web/server.go gets the messages.
use mathlib.Core.List.{Sublist, nil-sublist, sublist-append_right, sublist-append_left}
use mathlib.Core.List.Sublist
use rover_mems_ecu.Base.{
  ℕ, ◌≡◌, refl, ap, ◌∙◌, sym, Bool, not, List, [], ◌∷◌, ◌++◌, append_assoc, Option, none, some,
  length, drop, ltb, All, both, subst, if◌then◌else◌,
}
use rover_mems_ecu.Companion.Fanout.{Hub, subscribe}
use rover_mems_ecu.Companion.Fanout.Delivery.{IsFresh}
use rover_mems_ecu.Web.Streams.{
  Write, Event, stopped, peer_gone, ticked, received, posted, joined, left, serve, ws_ping,
  ws_bytes_write, write_encoded, ws_json_write,
}
use rover_mems_ecu.Web.Streams.Departure.{IsForeign}
use rover_mems_ecu.Web.Streams.Queue.{take_one, stream, serve-stream}

abbrev text_of : Option (List ℕ) → List (List ℕ)
text_of none = []
text_of (some json) = json ∷ []

module _ {ℓ} {M : Type ℓ} where
  -- The messages that are posted, in order.
  pub posts : List (Event Write M) → List M
  posts [] = []
  posts (posted m ∷ es) = m ∷ posts es
  posts (stopped ∷ es) = posts es
  posts (peer_gone ∷ es) = posts es
  posts (ticked w ∷ es) = posts es
  posts (received w ∷ es) = posts es
  posts (joined ∷ es) = posts es
  posts (left j ∷ es) = posts es

module _ {ℓ} {M : Type ℓ} (marshal : M → Option (List ℕ)) where
  -- The texts of messages, less those that are not encoded.
  pub texts : List M → List (List ℕ)
  texts [] = []
  texts (m ∷ ms) = text_of (marshal m) ++ texts ms

  texts-append : (ms ns : List M) → texts (ms ++ ns) ≡ texts ms ++ texts ns
  unfolding texts
  texts-append [] ns = refl
  texts-append (m ∷ ms) ns =
      ap (λ (xs : List (List ℕ)). text_of (marshal m) ++ xs) (texts-append ms ns)
      ∙ sym (append_assoc (text_of (marshal m)) (texts ms) (texts ns))

  ws_bytes_write-Sublist :
      (w : Write) (json : List ℕ) → Sublist (ws_bytes_write w json).0 (json ∷ [])
  unfolding ws_bytes_write
  ws_bytes_write-Sublist w json =
      let P : List (List ℕ) × Bool → Type 0 = λ r. Sublist r.0 (json ∷ []) in
      both P (not w.deadline_set) (nil-sublist (json ∷ []))
        (both P w.written (Sublist.refl (json ∷ [])) (nil-sublist (json ∷ [])))

  write_encoded-Sublist :
      (w : Write) (o : Option (List ℕ)) → Sublist (write_encoded w o).0 (text_of o)
  unfolding write_encoded
  write_encoded-Sublist w none = nil-sublist []
  write_encoded-Sublist w (some json) = ws_bytes_write-Sublist w json

  take_one-Sublist :
      (w : Write) (q : List M) (later : List (List ℕ)) (ms : List M)
      → Sublist later (texts (drop 1 q ++ ms))
      → Sublist (take_one (ws_json_write marshal) w q later) (texts (q ++ ms))
  unfolding take_one texts ws_json_write
  take_one-Sublist w [] later ms h = h
  take_one-Sublist w (m ∷ q) later ms h =
      let (out, failed) = ws_json_write marshal w m in
      let first = write_encoded-Sublist w (marshal m) in
      both {A = List (List ℕ)} (λ xs. Sublist xs (text_of (marshal m) ++ texts (q ++ ms))) failed
        (Sublist.trans first (sublist-append_left (text_of (marshal m)) (texts (q ++ ms))))
        (Sublist.append first h)

  -- A queue that has no room loses a message.
  enqueue-Sublist :
      (capacity : ℕ) (q : List M) (m : M) (ms : List M)
      → Sublist
          (texts ((if ltb (length q) capacity then q ++ (m ∷ []) else q) ++ ms))
          (texts (q ++ (m ∷ ms)))
  unfolding texts
  enqueue-Sublist capacity q m ms =
      both (λ (p : List M). Sublist (texts (p ++ ms)) (texts (q ++ (m ∷ ms))))
        (ltb (length q) capacity)
        (subst (λ xs. Sublist (texts xs) (texts (q ++ (m ∷ ms)))) (sym (append_assoc q (m ∷ []) ms))
          (Sublist.refl (texts (q ++ (m ∷ ms)))))
        (rw (texts-append q ms, texts-append q (m ∷ ms))
          (Sublist.append (Sublist.refl (texts q))
            (sublist-append_right (text_of (marshal m)) (texts ms))))

  stream-Sublist :
      (capacity : ℕ) (q : List M) (es : List (Event Write M))
      → Sublist (stream (ws_json_write marshal) capacity q es) (texts (q ++ posts es))
  unfolding stream posts
  stream-Sublist capacity q [] = nil-sublist (texts (q ++ []))
  stream-Sublist capacity q (stopped ∷ es) = nil-sublist (texts (q ++ posts es))
  stream-Sublist capacity q (peer_gone ∷ es) = nil-sublist (texts (q ++ posts es))
  stream-Sublist capacity q (ticked w ∷ es) =
      both {A = List (List ℕ)} (λ xs. Sublist xs (texts (q ++ posts es))) (ws_ping w)
        (nil-sublist (texts (q ++ posts es))) (stream-Sublist capacity q es)
  stream-Sublist capacity q (received w ∷ es) =
      take_one-Sublist w q _ (posts es) (stream-Sublist capacity (drop 1 q) es)
  stream-Sublist capacity q (posted m ∷ es) =
      Sublist.trans (stream-Sublist capacity _ es) (enqueue-Sublist capacity q m (posts es))
  stream-Sublist capacity q (joined ∷ es) = stream-Sublist capacity q es
  stream-Sublist capacity q (left j ∷ es) = stream-Sublist capacity q es

  -- What is sent behind the subscription are texts of the messages that are posted from then on, in their
  -- order, each at most once: some may be missing, and none is made up.
  pub serve-Sublist :
      (capacity : ℕ) (es : List (Event Write M)) (h : Hub M)
      → IsFresh h
      → All (IsForeign h.next) es
      → Sublist
          (serve (ws_json_write marshal) capacity h.next es (subscribe h).0).sent
          (texts (posts es))
  serve-Sublist capacity es h fresh fs =
      subst (λ xs. Sublist xs (texts (posts es)))
        (sym (serve-stream (ws_json_write marshal) capacity es h fresh fs))
        (stream-Sublist capacity [] es)
