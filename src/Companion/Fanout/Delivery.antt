-- ===== src/Companion/Fanout/Delivery.antt =====
-- What a subscriber of a companion store finds in its channel, and who is in the list.
use rover_mems_ecu.Base.{
  ℕ, zero, suc, ◌+◌, ◌-◌, ◌<◌, ◌≡◌, refl, ap, ◌∙◌, sym, inl, inr, List, [], ◌∷◌, ◌++◌, length,
  length-append, take, append_assoc, append-nil, Bool-cases, ltb, arith,
}
use rover_mems_ecu.Companion.Fanout.{
  Subscriber, Hub, try_send, send_all, notify, subscribe, remove, unsubscribe,
}

module _ {ℓ} {M : Type ℓ} where
  take_nil : (n : ℕ) → take n (let e : List M = [] in e) ≡ []
  take_nil zero = refl
  take_nil (suc n) = refl

  abbrev pub AllIds : ℕ → List (Subscriber M) → Type 0
  AllIds n [] = Unit
  AllIds n (v ∷ vs) = (v.id < n) × AllIds n vs

  -- The messages `ms`, sent one after the other.
  abbrev pub notify_each : ℕ → List M → List (Subscriber M) → List (Subscriber M)
  notify_each capacity [] subs = subs
  notify_each capacity (m ∷ ms) subs = notify_each capacity ms (send_all capacity m subs)

  -- What the sends leave of one subscriber's channel: as many of the first messages as had room.
  abbrev pub received : ℕ → List M → Subscriber M → Subscriber M
  received capacity ms sub = record sub {
    buffer = sub.buffer ++ take (capacity - length sub.buffer) ms;
  }

  abbrev pub received_all : ℕ → List M → List (Subscriber M) → List (Subscriber M)
  received_all capacity ms [] = []
  received_all capacity ms (sub ∷ subs) = received capacity ms sub ∷ received_all capacity ms subs

  received-cons :
      (capacity : ℕ) (m : M) (ms : List M) (sub : Subscriber M)
      → received capacity ms (try_send capacity m sub) ≡ received capacity (m ∷ ms) sub
  unfolding try_send
  received-cons capacity m ms sub =
      let b = sub.buffer in
      elim (Bool-cases (ltb (length b) capacity)) [
        | inl e ↦
            let left : capacity - length b ≡ suc (capacity - suc (length b)) = ground arith in
            let after : capacity - length (b ++ (m ∷ [])) ≡ capacity - suc (length b) =
              omega (arith, length-append b (m ∷ [])) in
            rw e (
              ap (λ (q : List M). record sub { buffer = q })
                (append_assoc b (m ∷ []) _
                  ∙ ap (λ n. b ++ (m ∷ take n ms)) after
                  ∙ ap (λ n. b ++ take n (m ∷ ms)) (sym left)))
        | inr e ↦
            let none_left : capacity - length b ≡ 0 = ground arith in
            rw e (
              ap (λ (q : List M). record sub { buffer = q })
                (ap (λ n. b ++ take n ms) none_left
                  ∙ ap (λ n. b ++ take n (m ∷ ms)) (sym none_left)))
      ]

  received_all-send_all :
      (capacity : ℕ) (m : M) (ms : List M) (subs : List (Subscriber M))
      → received_all capacity ms (send_all capacity m subs) ≡ received_all capacity (m ∷ ms) subs
  unfolding send_all
  received_all-send_all capacity m ms [] = refl
  received_all-send_all capacity m ms (sub ∷ subs) =
      λ i. received-cons capacity m ms sub i ∷ received_all-send_all capacity m ms subs i

  received_all-nil :
      (capacity : ℕ) (subs : List (Subscriber M)) → received_all capacity [] subs ≡ subs
  received_all-nil capacity [] = refl
  received_all-nil capacity (sub ∷ subs) = λ i.
      record sub {
        buffer =
            (ap (λ xs. sub.buffer ++ xs) (take_nil (capacity - length sub.buffer))
                ∙ append-nil sub.buffer)
              i;
      }
      ∷ received_all-nil capacity subs i

  -- However many messages are sent and however slow a receiver is, no send blocks: each subscriber
  -- finds behind what was in its channel the first of the messages, in order, up to the capacity,
  -- and the rest are dropped for that subscriber alone.
  pub notify_each-received :
      (capacity : ℕ) (ms : List M) (subs : List (Subscriber M))
      → notify_each capacity ms subs ≡ received_all capacity ms subs
  notify_each-received capacity [] subs = sym (received_all-nil capacity subs)
  notify_each-received capacity (m ∷ ms) subs =
      notify_each-received capacity ms (send_all capacity m subs)
      ∙ received_all-send_all capacity m ms subs

  -- The numbers given out so far are below the next one.
  abbrev pub IsFresh : Hub M → Type 0
  IsFresh h = AllIds h.next h.subs

  pub remove-append :
      (id : ℕ) (subs : List (Subscriber M)) (b : List M)
      → AllIds id subs
      → remove id (subs ++ (record { id = id; buffer = b } ∷ [])) ≡ subs
  unfolding remove
  remove-append id [] b h = ground arith
  remove-append id (v ∷ vs) b h = ground (arith, remove-append id vs b h.1)

  fresh-later : (n : ℕ) (subs : List (Subscriber M)) → AllIds n subs → AllIds (n + 1) subs
  fresh-later n [] h = tt
  fresh-later n (v ∷ vs) h = (omega arith, fresh-later n vs h.1)

  fresh-append :
      (n : ℕ) (subs : List (Subscriber M))
      → AllIds n subs
      → AllIds (n + 1) (subs ++ (record { id = n; buffer = [] } ∷ []))
  fresh-append n [] h = (omega arith, tt)
  fresh-append n (v ∷ vs) h = (omega arith, fresh-append n vs h.1)

  fresh-send_all :
      (n capacity : ℕ) (m : M) (subs : List (Subscriber M))
      → AllIds n subs
      → AllIds n (send_all capacity m subs)
  unfolding send_all try_send
  fresh-send_all n capacity m [] h = tt
  fresh-send_all n capacity m (v ∷ vs) h = (ground arith, fresh-send_all n capacity m vs h.1)

  pub remove-send_all :
      (id capacity : ℕ) (m : M) (subs : List (Subscriber M))
      → remove id (send_all capacity m subs) ≡ send_all capacity m (remove id subs)
  unfolding send_all remove try_send
  remove-send_all id capacity m [] = refl
  remove-send_all id capacity m (v ∷ vs) = ground (arith, remove-send_all id capacity m vs)

  -- Whoever subscribes and leaves again, with any message sent in between, takes out its own channel
  -- and no other: the others have what they would have had without it, and pointers stay fresh.
  pub unsubscribe-subscribe :
      (capacity : ℕ) (m : M) (h : Hub M)
      → IsFresh h
      → let (h', id) = subscribe h in
        IsFresh (notify capacity m h')
        × ((unsubscribe id (notify capacity m h')).subs ≡ (notify capacity m h).subs)
  unfolding subscribe unsubscribe notify
  unsubscribe-subscribe capacity m h f = (
    fresh-send_all (h.next + 1) capacity m _ (fresh-append h.next h.subs f),
    remove-send_all h.next capacity m _
        ∙ ap (send_all capacity m) (remove-append h.next h.subs [] f),
  )
