-- ===== src/Web/Streams/Departure.antt =====
-- What the streaming handlers of internal/web/server.go leave behind in a store's list of subscribers.
use rover_mems_ecu.Base.{
  ℕ, ◌+◌, ◌<◌, ◌≡◌, ◌≢◌, refl, ap, ◌∙◌, Bool, List, [], ◌∷◌, ◌++◌, All, both, arith, if◌then◌else◌,
}
use rover_mems_ecu.Companion.Fanout.{Subscriber, Hub, notify, subscribe, remove, unsubscribe}
use rover_mems_ecu.Companion.Fanout.Delivery.{IsFresh, remove-append, remove-send_all}
use rover_mems_ecu.Web.Streams.{
  Event, stopped, peer_gone, ticked, received, posted, joined, left, Stream, pop, buffer_of, other,
  elsewhere, leave, behind_receive, serve, ws_ping,
}

module _ {ℓ} {W : Type 0} {M : Type ℓ} where
  -- Another goroutine leaves with its own subscription.
  abbrev pub IsForeign : ℕ → Event W M → Type 0
  IsForeign id (left j) = j ≢ id
  IsForeign id _ = Unit

module _ {ℓ} {M : Type ℓ} where
  remove-pop : (id : ℕ) (subs : List (Subscriber M)) → remove id (pop id subs) ≡ remove id subs
  unfolding remove pop
  remove-pop id [] = refl
  remove-pop id (v ∷ vs) = ground (arith, remove-pop id vs)

  remove-append_other :
      (id : ℕ) (subs : List (Subscriber M)) (x : Subscriber M)
      → x.id ≢ id
      → remove id (subs ++ (x ∷ [])) ≡ remove id subs ++ (x ∷ [])
  unfolding remove
  remove-append_other id [] x h = ground arith
  remove-append_other id (v ∷ vs) x h = ground (arith, remove-append_other id vs x h)

  remove-remove :
      (id j : ℕ) (subs : List (Subscriber M))
      → j ≢ id
      → remove id (remove j subs) ≡ remove j (remove id subs)
  unfolding remove
  remove-remove id j [] h = refl
  remove-remove id j (v ∷ vs) h = ground (arith, remove-remove id j vs h)

  unsubscribe-notify :
      (id capacity : ℕ) (m : M) (h : Hub M)
      → unsubscribe id (notify capacity m h) ≡ notify capacity m (unsubscribe id h)
  unfolding unsubscribe notify
  unsubscribe-notify id capacity m h =
      ap (λ (subs : List (Subscriber M)). record h { subs = subs })
        (remove-send_all id capacity m h.subs)

  unsubscribe-join :
      (id : ℕ) (h : Hub M)
      → id < h.next
      → unsubscribe id (subscribe h).0 ≡ (subscribe (unsubscribe id h)).0
  unfolding unsubscribe subscribe
  unsubscribe-join id h below =
      ap (λ (subs : List (Subscriber M)). record { next = h.next + 1; subs = subs })
        (remove-append_other id h.subs _ (omega arith))

  unsubscribe-unsubscribe :
      (id j : ℕ) (h : Hub M)
      → j ≢ id
      → unsubscribe id (unsubscribe j h) ≡ unsubscribe j (unsubscribe id h)
  unfolding unsubscribe
  unsubscribe-unsubscribe id j h other =
      ap (λ (subs : List (Subscriber M)). record h { subs = subs })
        (remove-remove id j h.subs other)

  unsubscribe-pop :
      (id : ℕ) (h : Hub M) → unsubscribe id (record h { subs = pop id h.subs }) ≡ unsubscribe id h
  unfolding unsubscribe
  unsubscribe-pop id h =
      ap (λ (subs : List (Subscriber M)). record h { subs = subs }) (remove-pop id h.subs)

  below-subscribe : (h : Hub M) → h.next < (subscribe h).0.next
  unfolding subscribe
  below-subscribe h = omega arith

  -- The store's subscribers less the handler's, also where it still streams.
  pub without : ℕ → Stream M → Hub M
  without id r = if r.returned then r.hub else unsubscribe id r.hub

module _ {ℓ} {W : Type 0} {M : Type ℓ} where
  without-behind_receive :
      (write : W → M → List (List ℕ) × Bool) (w : W) (id : ℕ) (ms : List M) (gone later : Stream M)
      (g : Hub M)
      → without id gone ≡ g
      → without id later ≡ g
      → without id (behind_receive write w ms gone later) ≡ g
  unfolding behind_receive without
  without-behind_receive write w id [] gone later g p q = q
  without-behind_receive write w id (m ∷ ms) gone later g p q =
      both {A = Stream M} (λ r. without id r ≡ g) (write w m).1 p q

  without-serve :
      (write : W → M → List (List ℕ) × Bool) (capacity id : ℕ) (es : List (Event W M)) (h g : Hub M)
      → All (IsForeign id) es
      → id < h.next
      → unsubscribe id h ≡ g
      → without id (serve write capacity id es h) ≡ elsewhere capacity es g
  unfolding serve without leave elsewhere other notify subscribe unsubscribe
  without-serve write capacity id [] h g fs b e = e
  without-serve write capacity id (stopped ∷ es) h g (f, fs) b e = ap (elsewhere capacity es) e
  without-serve write capacity id (peer_gone ∷ es) h g (f, fs) b e = ap (elsewhere capacity es) e
  without-serve write capacity id (ticked w ∷ es) h g (f, fs) b e =
      both {A = Stream M} (λ r. without id r ≡ elsewhere capacity es g) (ws_ping w)
        (ap (elsewhere capacity es) e) (without-serve write capacity id es h g fs b e)
  without-serve write capacity id (received w ∷ es) h g (f, fs) b e =
      let popped : unsubscribe id (record h { subs = pop id h.subs }) ≡ g =
        unsubscribe-pop id h ∙ e in
      without-behind_receive write w id (buffer_of id h.subs) _ _ (elsewhere capacity es g)
        (ap (elsewhere capacity es) popped)
        (without-serve write capacity id es (record h { subs = pop id h.subs }) g fs b popped)
  without-serve write capacity id (posted m ∷ es) h g (f, fs) b e =
      without-serve write capacity id es (notify capacity m h) (notify capacity m g) fs b
        (unsubscribe-notify id capacity m h ∙ ap (notify capacity m) e)
  without-serve write capacity id (joined ∷ es) h g (f, fs) b e =
      without-serve write capacity id es (subscribe h).0 (subscribe g).0 fs (omega arith)
        (unsubscribe-join id h b ∙ ap (λ k. (subscribe k).0) e)
  without-serve write capacity id (left j ∷ es) h g (f, fs) b e =
      without-serve write capacity id es (unsubscribe j h) (unsubscribe j g) fs b
        (unsubscribe-unsubscribe id j h f ∙ ap (unsubscribe j) e)

  -- Whatever the loop finds, in whatever order, with which errors, and whatever other goroutines post,
  -- subscribe and cancel meanwhile and later: once the handler has returned, the store's subscribers with
  -- their channels are what they would be if it had never subscribed. Until then, they are that beside its
  -- own one.
  pub serve-departs :
      (write : W → M → List (List ℕ) × Bool) (capacity : ℕ) (es : List (Event W M)) (h : Hub M)
      → IsFresh h
      → All (IsForeign h.next) es
      → without h.next (serve write capacity h.next es (subscribe h).0)
        ≡ elsewhere capacity es (record h { next = h.next + 1 })
  unfolding subscribe unsubscribe
  serve-departs write capacity es h fresh fs =
      without-serve write capacity h.next es (subscribe h).0 _ fs (below-subscribe h) (
        ap (λ (subs : List (Subscriber M)). record { next = h.next + 1; subs = subs })
          (remove-append h.next h.subs [] fresh))
