-- ===== src/Mems2j/Loop/Packets.antt =====
-- Packets on the line of internal/ecu/mems2j/mems2j.go: what `sendCommand` frames, `loop` recognises
-- as its own echo, and what an ECU frames it takes apart.
use rover_mems_ecu.Base.{
  ℕ, suc, leb, ◌≤◌, some, slice_to, slice_from, slice_to-take, slice_from-drop, ◌+◌, ◌%◌, ◌≡◌, ◌<◌,
  refl, ap, ◌∙◌, sym, true, false, List, [], ◌∷◌, ◌++◌, Option, none, length, length-append, take,
  take_all, take_front, drop_front, ltb, ◌==◌, append_assoc, String, arith,
}
use rover_mems_ecu.Base.{bit_and-ones}
use rover_mems_ecu.Mems2j.Commands.{
  Mems2j, bytes_equal, init_command, guarded-take, sum, final_command,
}
use rover_mems_ecu.Mems2j.Parse.Safety.{parse_response-Gives}
use rover_mems_ecu.Mems2j.Loop.{
  Event, Session, running, clear_zeros, is_echo, is_init_echo, handle_packet, advance, behind_first,
  open_packet, take_packet, react, receive, step,
}
use rover_mems_ecu.Mems2j.Loop.SetUp.{exchange}

bytes_equal_self : (xs : List ℕ) → bytes_equal xs xs ≡ true
bytes_equal_self [] = refl
bytes_equal_self (x ∷ xs) = ground (arith, bytes_equal_self xs)

is_echo_self : (f : List ℕ) → 0 < length f → is_echo f f ≡ some true
is_echo_self f h =
    let some_sent : ltb 0 (length f) ≡ true = ground (arith, h) in
    let whole : leb (length f) (length f) ≡ true = ground arith in
    rw
      (
        some_sent,
        guarded-take (length f) (length f) f f (omega arith),
        whole,
        take_all (length f) f (omega arith),
        bytes_equal_self f,
      )
      refl

payload_slice :
    (size : ℕ) (buffer : List ℕ)
    → size + 1 ≤ length buffer
    → (payload : List ℕ) × (behind_first (slice_to (size + 1) buffer) ≡ some payload)
payload_slice size [] h = absurd (omega arith)
payload_slice size (a ∷ rest) h =
    let one : size + 1 ≡ suc size = omega arith in
    (take size rest, rw (one, slice_to-take size rest (omega (arith, h))) refl)

take_packet-echo :
    (w : Option String) (size : ℕ) (f more : List ℕ) (s : Session)
    → length f ≡ size + 2
    → s.m.last_sent_command ≡ f
    → take_packet w size (f ++ more) s ≡ running (record s { buffer = more })
unfolding take_packet open_packet advance
take_packet-echo w size f more s h last =
    let all : length (f ++ more) ≡ length f + length more = length-append f more in
    let whole : ltb (length (f ++ more)) (size + 2) ≡ false = ground (arith, all, h) in
    let front : take (size + 2) (f ++ more) ≡ f =
      ap (λ n. take n (f ++ more)) (sym h) ∙ take_front f more in
    let full : slice_to (size + 2) (f ++ more) ≡ some f =
      slice_to-take (size + 2) (f ++ more) (omega (arith, all, h)) ∙ ap some front in
    let (payload, opened) = payload_slice size (f ++ more) (omega (arith, all, h)) in
    let left : slice_from (length f) (f ++ more) ≡ some more =
      slice_from-drop (length f) (f ++ more) (omega (arith, all)) ∙ ap some (drop_front f more) in
    rw (whole, opened, full, last, is_echo_self f (omega (arith, h)), left) refl

-- A round that finds nothing buffered and reads these bytes in time.
abbrev pub reading : ℕ → ℕ → Option String → List ℕ → Event
reading now received_at w incoming = record {
  now = now;
  cancelled = false;
  new_data = incoming;
  received_at = received_at;
  write_error = w;
}

abbrev pub waiting : Mems2j → ℕ → Session
waiting m last = record { m = m; buffer = []; last_received_data = last }

step-begins :
    (now received_at last : ℕ) (w : Option String) (b : ℕ) (rest : List ℕ) (m : Mems2j)
    → 0 < b
    → b < 0x81
    → step (reading now received_at w (b ∷ rest)) (waiting m last)
      ≡ take_packet w b
          (b ∷ rest)
          (record { m = m; buffer = b ∷ rest; last_received_data = received_at })
unfolding step receive react clear_zeros
step-begins now received_at last w b rest m h k =
    let nonzero : (b == 0) ≡ false = ground arith in
    let other : (b == 0x81) ≡ false = ground arith in
    let some_data : ltb 0 (suc (length rest)) ≡ true = ground arith in
    let no_init : is_init_echo (b ∷ rest) ≡ some false =
      guarded-take 5 5 init_command (b ∷ rest) (omega arith) ∙ ap some (ground (arith, other)) in
    rw (nonzero, some_data, react, no_init)

-- The first byte of a packet is the length of the payload.
packet_length : (p : List ℕ) (c : ℕ) → length (length p ∷ (p ++ (c ∷ []))) ≡ length p + 2
packet_length p c = omega (arith, length-append p (c ∷ []))

-- What a packet holds between its length and its checksum is what the ECU adds up.
pub final_command_lem :
    (command : List ℕ)
    → length command < 256
    → final_command command
      ≡ length command ∷ (command ++ (((length command + sum command) % 256) ∷ []))
unfolding final_command
final_command_lem command short =
    let small : length command % 256 ≡ length command = omega arith in
    rw (small, bit_and-ones 8 (length command + sum command))

-- Every packet that `sendCommand` writes comes back on the line. The loop drops exactly its bytes,
-- whatever follows, and neither parses nor answers it.
pub step-echo :
    (command more : List ℕ) (now received_at last : ℕ) (w : Option String) (m : Mems2j)
    → 0 < length command
    → length command < 0x81
    → m.last_sent_command ≡ final_command command
    → step (reading now received_at w (final_command command ++ more)) (waiting m last)
      ≡ running (record { m = m; buffer = more; last_received_data = received_at })
step-echo command more now received_at last w m h k sent =
    let check : ℕ = (length command + sum command) % 256 in
    let tail : List ℕ = command ++ (check ∷ []) in
    let e = final_command_lem command (omega arith) in
    rw e (
      step-begins now received_at last w (length command) (tail ++ more) m h k
      ∙ take_packet-echo w (length command) (length command ∷ tail) more
          (record {
            m = m;
            buffer = length command ∷ (tail ++ more);
            last_received_data = received_at;
          })
          (packet_length command check) (sent ∙ e))

handle_packet-exchange :
    (p : List ℕ) (s : Session)
    → 0 < length p
    → handle_packet none p s ≡ running (record s { m = exchange p s.m; buffer = [] })
unfolding handle_packet exchange
handle_packet-exchange [] s h = absurd (omega arith)
handle_packet-exchange (b ∷ rest) s h =
    let (m, e) = parse_response-Gives b rest s.m in rw (e, handle_packet, exchange)

take_packet-payload :
    (p more : List ℕ) (c : ℕ) (s : Session)
    → is_echo s.m.last_sent_command (length p ∷ (p ++ (c ∷ []))) ≡ some false
    → take_packet none (length p) (length p ∷ (p ++ (c ∷ more))) s
      ≡ handle_packet none p (record s { buffer = length p ∷ (p ++ (c ∷ more)) })
unfolding take_packet open_packet
take_packet-payload p more c s fresh =
    let f : List ℕ = length p ∷ (p ++ (c ∷ [])) in
    let buffer : List ℕ = length p ∷ (p ++ (c ∷ more)) in
    let joined : f ++ more ≡ buffer = ap (λ xs. length p ∷ xs) (append_assoc p (c ∷ []) more) in
    let whole : ltb (length buffer) (length p + 2) ≡ false =
      ground (arith, length-append p (c ∷ more)) in
    let front : take (length p + 2) buffer ≡ f =
      ap (take (length p + 2)) (sym joined)
      ∙ ap (λ n. take n (f ++ more)) (sym (packet_length p c))
      ∙ take_front f more in
    let long : length p + 2 ≤ length buffer = ground (arith, whole) in
    let full : slice_to (length p + 2) buffer ≡ some f =
      slice_to-take (length p + 2) buffer long ∙ ap some front in
    let one : length p + 1 ≡ suc (length p) = omega arith in
    let opened : behind_first (slice_to (length p + 1) buffer) ≡ some p =
      rw
        (
          one,
          slice_to-take (length p) (p ++ (c ∷ more)) (omega (arith, length-append p (c ∷ more))),
          take_front p (c ∷ more),
        )
        refl in
    rw (whole, opened, full, fresh) refl

-- A complete packet of an ECU, with any checksum, that is not the echo waited for is parsed, and the
-- next request is sent in answer to its payload. Bytes behind it are dropped.
pub step-packet :
    (p more : List ℕ) (c now received_at last : ℕ) (m : Mems2j)
    → 0 < length p
    → length p < 0x81
    → is_echo m.last_sent_command (length p ∷ (p ++ (c ∷ []))) ≡ some false
    → step (reading now received_at none (length p ∷ (p ++ (c ∷ more)))) (waiting m last)
      ≡ running (record { m = exchange p m; buffer = []; last_received_data = received_at })
step-packet p more c now received_at last m h k fresh =
    step-begins now received_at last none (length p) (p ++ (c ∷ more)) m h k
    ∙ take_packet-payload p more c
        (record { m = m; buffer = length p ∷ (p ++ (c ∷ more)); last_received_data = received_at })
        fresh
    ∙ handle_packet-exchange p
        (record { m = m; buffer = length p ∷ (p ++ (c ∷ more)); last_received_data = received_at })
        h
