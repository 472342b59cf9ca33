-- ===== src/Ble/Catalogs.antt =====
-- What a phone gets of the catalogs that `runCatalogNotifier` of internal/ble/server.go sends.
use rover_mems_ecu.Base.{
  ℕ, ◌+◌, ◌*◌, ◌≤◌, ◌≡◌, refl, ap, ◌∙◌, false, List, [], ◌∷◌, ◌++◌, map, length, ltb, All, some,
  if◌then◌else◌, arith,
}
use rover_mems_ecu.Companion.Fanout.{Hub, subscribe}
use rover_mems_ecu.Companion.Fanout.Delivery.{IsFresh}
use rover_mems_ecu.Companion.Headunit.Protocol.{max_fragment_payload}
use rover_mems_ecu.Companion.Headunit.Protocol.Frames.{reassemble, reassemble-build_frames}
use rover_mems_ecu.Web.Streams.{Event, stopped, peer_gone, ticked, received, posted, joined, left}
use rover_mems_ecu.Web.Visits.{subscribed}
use rover_mems_ecu.Web.Streams.Departure.{IsForeign}
use rover_mems_ecu.Web.Streams.Queue.{take_one, stream, serve-stream}
use rover_mems_ecu.Ble.{Outcome, send_frames, send_built, notify_catalog, run_catalog_notifier}

abbrev pub Occurrence : Type 0
Occurrence = Event (ℕ → Outcome) (List ℕ)

-- No notification fails, and the context is not done between the frames of a catalog. The notifier has
-- neither a ticker nor a reader.
abbrev pub IsGood : Occurrence → Type 0
IsGood (ticked w) = ⊥
IsGood peer_gone = ⊥
IsGood (received outcomes) =
    (i : ℕ) → ((outcomes i).failed ≡ false) × ((outcomes i).stopped ≡ false)
IsGood _ = Unit

-- The catalogs that leave a queue which takes a posted one when it has room.
unfoldable pub taken : ℕ → List (List ℕ) → List Occurrence → List (List ℕ)
taken capacity q [] = []
taken capacity q (stopped ∷ es) = []
taken capacity q (peer_gone ∷ es) = []
taken capacity q (ticked w ∷ es) = []
taken capacity [] (received o ∷ es) = taken capacity [] es
taken capacity (c ∷ q) (received o ∷ es) = c ∷ taken capacity q es
taken capacity q (posted c ∷ es) =
    taken capacity (if ltb (length q) capacity then q ++ (c ∷ []) else q) es
taken capacity q (joined ∷ es) = taken capacity q es
taken capacity q (left j ∷ es) = taken capacity q es

-- A catalog that has a count of frames.
abbrev pub IsSized : List ℕ → Type 0
IsSized c = length c ≤ 65535 * max_fragment_payload

abbrev pub concat : List (List (List ℕ)) → List (List ℕ)
concat [] = []
concat (g ∷ gs) = g ++ concat gs

-- Frames in groups of which each gives a catalog to the phone.
abbrev pub Reassembles : List (List ℕ) → List (List ℕ) → Type 0
Reassembles catalogs frames =
    (groups : List (List (List ℕ))) × ((frames ≡ concat groups)
      × (map (λ g. reassemble (length g) 0 g) groups ≡ map (λ c. some c) catalogs))

send_frames-good :
    (outcomes : ℕ → Outcome) (i : ℕ) (frames : List (List ℕ))
    → ((j : ℕ) → ((outcomes j).failed ≡ false) × ((outcomes j).stopped ≡ false))
    → send_frames outcomes i frames ≡ (frames, false)
unfolding send_frames
send_frames-good outcomes i [] good = refl
send_frames-good outcomes i (f ∷ fs) good =
    rw ((good i).0, (good i).1, send_frames-good outcomes (i + 1) fs good) refl

notify_catalog-good :
    (outcomes : ℕ → Outcome) (c : List ℕ)
    → ((j : ℕ) → ((outcomes j).failed ≡ false) × ((outcomes j).stopped ≡ false))
    → IsSized c
    → (frames : List (List ℕ)) × ((notify_catalog outcomes c ≡ (frames, false))
        × (reassemble (length frames) 0 frames ≡ some c))
unfolding notify_catalog send_built
notify_catalog-good outcomes c good sized =
    let (frames, built, back, _, _) =
      reassemble-build_frames c max_fragment_payload (omega arith) sized in
    (frames, (rw (notify_catalog, built) (send_frames-good outcomes 0 frames good), back))

Reassembles-cons :
    (c : List ℕ) (catalogs out later : List (List ℕ))
    → reassemble (length out) 0 out ≡ some c
    → Reassembles catalogs later
    → Reassembles (c ∷ catalogs) (out ++ later)
Reassembles-cons c catalogs out later back (groups, (whole, each)) =
    (out ∷ groups, (ap (λ (fs : List (List ℕ)). out ++ fs) whole, λ i. back i ∷ each i))

stream-Reassembles :
    (capacity : ℕ) (q : List (List ℕ)) (es : List Occurrence)
    → All IsGood es
    → All IsSized (taken capacity q es)
    → Reassembles (taken capacity q es) (stream notify_catalog capacity q es)
unfolding stream taken take_one
stream-Reassembles capacity q [] good sized = ([], (refl, refl))
stream-Reassembles capacity q (stopped ∷ es) good sized = ([], (refl, refl))
stream-Reassembles capacity q (peer_gone ∷ es) (b, bs) sized = absurd b
stream-Reassembles capacity q (ticked w ∷ es) (b, bs) sized = absurd b
stream-Reassembles capacity [] (received o ∷ es) (b, bs) sized =
    stream-Reassembles capacity [] es bs sized
stream-Reassembles capacity (c ∷ q) (received o ∷ es) (b, bs) (now, sized) =
    let (frames, (sent, back)) = notify_catalog-good o c b now in
    rw sent (Reassembles-cons c _ frames _ back (stream-Reassembles capacity q es bs sized))
stream-Reassembles capacity q (posted c ∷ es) (b, bs) sized =
    stream-Reassembles capacity _ es bs sized
stream-Reassembles capacity q (joined ∷ es) (b, bs) sized =
    stream-Reassembles capacity q es bs sized
stream-Reassembles capacity q (left j ∷ es) (b, bs) sized =
    stream-Reassembles capacity q es bs sized

-- As long as no notification fails and the context is not done between the frames of a catalog: whatever is
-- posted, and whenever the notifier comes to it, the frames that it sends fall into groups of which the
-- phone's reassembler makes exactly the catalogs that leave a queue of 4, in order and byte for byte, if
-- none of these has more than 65535 fragments.
pub run_catalog_notifier-Reassembles :
    (es : List Occurrence) (h : Hub (List ℕ))
    → IsFresh h
    → All (IsForeign h.next) es
    → All IsGood es
    → All IsSized (taken 4 [] es)
    → (groups : List (List (List ℕ))) × (((run_catalog_notifier es h).sent ≡ concat groups)
        × (map (λ g. reassemble (length g) 0 g) groups ≡ map (λ c. some c) (taken 4 [] es)))
unfolding run_catalog_notifier subscribed subscribe
run_catalog_notifier-Reassembles es h fresh fs good sized =
    let (groups, (whole, each)) = stream-Reassembles 4 [] es good sized in
    (groups, (serve-stream notify_catalog 4 es h fresh fs ∙ whole, each))
