-- ===== src/Mems3/Loop/Packets.antt =====
-- Frames on the line of internal/ecu/mems3/mems3.go: `ReadData` drops the echo of what `sendCommand`
-- wrote, and answers a frame of the ECU.
use rover_mems_ecu.Base.{
  ℕ, ◌+◌, ◌%◌, ◌≡◌, ◌<◌, refl, ap, ◌∙◌, sym, true, false, List, [], ◌∷◌, ◌++◌, Option, some, length,
  length-append, drop, leb, ltb, take_front, drop_front, append_assoc, String, arith,
}
use rover_mems_ecu.Mems1x.Loop.{reads, no_error}
use rover_mems_ecu.Mems2j.Commands.{bytes_equal}
use rover_mems_ecu.Mems3.Commands.{
  Mems3, init_command, request_header, xor_all_bytes, frame, send_next_command,
}
use rover_mems_ecu.Mems3.Frames.{handle_frame}
use rover_mems_ecu.Mems3.Loop.{Session, running, take_frame, react, receive, step}

-- A frame with these three bytes of header.
abbrev pub packed : ℕ → ℕ → ℕ → List ℕ → List ℕ → List ℕ
packed a b c payload tail = a ∷ b ∷ c ∷ length payload ∷ (payload ++ tail)

abbrev pub waiting : ℕ → Mems3 → Session
waiting loops m = record { m = m; buffer = []; read_loops = loops }

abbrev pub buffered : List ℕ → Mems3 → Session
buffered bytes m = record { m = m; buffer = bytes; read_loops = 0 }

-- A whole frame behind which there is nothing or more.
step-whole :
    (a b c check loops : ℕ) (payload more : List ℕ) (w : Option String) (m : Mems3)
    → bytes_equal (a ∷ b ∷ []) init_command ≡ false
    → step (reads (packed a b c payload (check ∷ more)) no_error w) (waiting loops m)
      ≡ take_frame w payload
          (3 + 1 + length payload + 1)
          (buffered (packed a b c payload (check ∷ more)) m)
unfolding step receive react
step-whole a b c check loops payload more w m other =
    let buffer : List ℕ = packed a b c payload (check ∷ more) in
    let size = length-append payload (check ∷ more) in
    let two : leb 2 (length buffer) ≡ true = ground arith in
    let header : ltb (length buffer) 4 ≡ false = ground (arith, size) in
    let whole : ltb (length buffer) (3 + 1 + length payload + 1) ≡ false = ground (arith, size) in
    rw (receive, react, two, other, header, whole, take_front payload (check ∷ more))

drop_frame :
    (a b c check : ℕ) (payload more : List ℕ)
    → drop (3 + 1 + length payload + 1) (packed a b c payload (check ∷ more)) ≡ more
drop_frame a b c check payload more =
    let xs : List ℕ = a ∷ b ∷ c ∷ length payload ∷ (payload ++ (check ∷ [])) in
    let size : 3 + 1 + length payload + 1 ≡ length xs =
      omega (arith, length-append payload (check ∷ [])) in
    let joined : packed a b c payload (check ∷ more) ≡ xs ++ more =
      ap (λ ys. a ∷ b ∷ c ∷ length payload ∷ ys) (sym (append_assoc payload (check ∷ []) more)) in
    rw (size, joined, drop_front xs more)

-- What `sendCommand` writes for a payload of up to 255 bytes comes back on the line. The loop drops
-- exactly its bytes, whatever follows, and neither interprets nor answers it.
pub step-own_frame :
    (payload more : List ℕ) (loops : ℕ) (w : Option String) (m : Mems3)
    → length payload < 256
    → step (reads (frame payload ++ more) no_error w) (waiting loops m) ≡ running (buffered more m)
unfolding frame take_frame
step-own_frame payload more loops w m short =
    let check : ℕ = xor_all_bytes 0 (request_header ++ (length payload ∷ payload)) in
    let small : length payload % 256 ≡ length payload = omega arith in
    rw (small, append_assoc payload (check ∷ []) more)
      (step-whole 0xB8 0x13 0xF7 check loops payload more w m refl
        ∙ rw (drop_frame 0xB8 0x13 0xF7 check payload more))

-- A whole frame whose header is not that of the requests and does not start with the init command,
-- and whose payload is recognised, is
-- answered with the next request. Bytes behind it are dropped.
pub step-reply :
    (a b c check loops : ℕ) (payload more reply : List ℕ) (w : Option String) (m m' : Mems3)
    → bytes_equal (a ∷ b ∷ []) init_command ≡ false
    → bytes_equal (a ∷ b ∷ c ∷ []) request_header ≡ false
    → handle_frame payload m ≡ some (m', some reply)
    → step (reads (packed a b c payload (check ∷ more)) no_error w) (waiting loops m)
      ≡ running (buffered [] (send_next_command w reply m'))
unfolding take_frame
step-reply a b c check loops payload more reply w m m' other theirs handled =
    step-whole a b c check loops payload more w m other ∙ rw (theirs, handled)
