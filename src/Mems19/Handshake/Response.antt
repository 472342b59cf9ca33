-- ===== src/Mems19/Handshake/Response.antt =====
-- The keyword exchange of internal/ecu/mems19/mems19.go, however noisy the line is and however the
-- bytes are cut into reads.
use rover_mems_ecu.Base.{
  ℕ, ◌≡◌, ◌≢◌, refl, ap, ◌∙◌, sym, subst, ◌⊎◌, String, Bool, Bool-cases, Option-cases, true, inl,
  inr, List, [], ◌∷◌, ◌++◌, append-nil, append_assoc, map, Option, none, some, All, length, bit_xor,
  both, arith,
}
use rover_mems_ecu.Ecu.Log.{text, num, bytes}
use rover_mems_ecu.Mems19.Handshake.{
  Mems19, log_debug, Poll, received, broken, keyword_frame, ReadResult, matched, timed_out, failed,
  strip, read_until, has_keywords, contains, Outcome, completed, aborted, panicked, echo_seen,
  wait_for_challenge_echo, respond, challenge, handle_wake_up_handshake,
}
use rover_mems_ecu.Mems19.Handshake.Keywords.{
  keyword_frame-noise, keyword_frame_nil, keyword_frame-append, keyword_frame-strip,
}

abbrev pub joined : List (List ℕ) → List ℕ
joined [] = []
joined (c ∷ chunks) = c ++ joined chunks

-- The keywords are found, and nothing is written.
abbrev Found : ℕ × ℕ → Mems19 → Mems19 × ReadResult → Type 0
Found kw m (m', result) =
    (m'.written ≡ m.written)
    × (buf : List ℕ) × (result ≡ matched buf)
    × (keyword_frame buf ≡ some kw)

read_until-Found :
    (label : String) (chunks : List (List ℕ)) (buf : List ℕ) (m : Mems19) (kw : ℕ × ℕ)
    → keyword_frame buf ≡ none
    → keyword_frame (buf ++ joined chunks) ≡ some kw
    → Found kw m (read_until label has_keywords (map received chunks) buf m)
unfolding read_until
read_until-Found label [] buf m kw missing h =
    let e : some kw ≡ none = sym h ∙ ap keyword_frame (append-nil buf) ∙ missing in
    absurd (ground (arith, e))
read_until-Found label ([] ∷ chunks) buf m kw missing h =
    read_until-Found label chunks buf m kw missing h
read_until-Found label ((b ∷ bs) ∷ chunks) buf m kw missing h =
    let front : List ℕ = strip (buf ++ (b ∷ bs)) in
    let whole : keyword_frame (front ++ joined chunks) ≡ some kw =
      keyword_frame-strip (buf ++ (b ∷ bs)) (joined chunks)
      ∙ ap keyword_frame (append_assoc buf (b ∷ bs) (joined chunks))
      ∙ h in
    elim (Option-cases (keyword_frame front)) [
      | inl e ↦
          rw (e, has_keywords)
            (read_until-Found label chunks front
              (log_debug "1.9 %s read %d byte(s), buffer now %X"
                (text label ∷ num (length (b ∷ bs)) ∷ bytes front ∷ []) m)
              kw e whole)
      | inr (kw', e) ↦
          rw (e, has_keywords)
            (refl, front, refl, e ∙ sym (keyword_frame-append front (joined chunks) kw' e) ∙ whole)
    ]

-- What the handler has written when it returns.
abbrev pub Wrote : List (List ℕ) → Outcome → Type 0
Wrote frames (completed m) = m.written ≡ frames
Wrote frames (aborted m e) = m.written ≡ frames
Wrote frames panicked = ⊥

read_until-written :
    (label : String) (match : List ℕ → Bool) (polls : List Poll) (buf : List ℕ) (m : Mems19)
    → (read_until label match polls buf m).0.written ≡ m.written
unfolding read_until
read_until-written label match [] buf m = refl
read_until-written label match (broken incoming e ∷ polls) buf m = refl
read_until-written label match (received [] ∷ polls) buf m =
    read_until-written label match polls buf m
read_until-written label match (received (b ∷ bs) ∷ polls) buf m =
    let front : List ℕ = strip (buf ++ (b ∷ bs)) in
    let logged : Mems19 =
      log_debug "1.9 %s read %d byte(s), buffer now %X"
        (text label ∷ num (length (b ∷ bs)) ∷ bytes front ∷ []) m in
    both {A = Mems19 × ReadResult} (λ r. r.0.written ≡ m.written) (match front) refl
      (read_until-written label match polls front logged)

echo_seen-Wrote : (m : Mems19) (r : ReadResult) → Wrote m.written (echo_seen m r)
unfolding echo_seen
echo_seen-Wrote m (failed buf e) = refl
echo_seen-Wrote m (timed_out buf) = refl
echo_seen-Wrote m (matched buf) = refl

wait-Wrote : (polls : List Poll) (m : Mems19) → Wrote m.written (wait_for_challenge_echo polls m)
unfolding wait_for_challenge_echo
wait-Wrote polls m =
    let (m', result) = read_until "challenge-echo" (contains 0xE9) polls [] m in
    subst (λ frames. Wrote frames (echo_seen m' result))
      (read_until-written "challenge-echo" (contains 0xE9) polls [] m) (echo_seen-Wrote m' result)

respond-Wrote :
    (w : Option String) (echoes : List Poll) (response : ℕ) (m : Mems19)
    → Wrote (m.written ++ ((response ∷ []) ∷ [])) (respond w echoes response m)
unfolding respond
respond-Wrote (some e) echoes response m = refl
respond-Wrote none echoes response m = wait-Wrote echoes _

challenge_lem :
    (w : Option String) (echoes : List Poll) (kw : ℕ × ℕ) (m : Mems19) (buf : List ℕ)
    → keyword_frame buf ≡ some kw
    → challenge w echoes m (matched buf)
      ≡ respond w echoes
          (bit_xor kw.1 0xFF)
          (log_debug "1.9 ECU Woke Response received (55 %02X %02X)" (num kw.0 ∷ num kw.1 ∷ []) m)
unfolding challenge
challenge_lem w echoes kw m buf e = rw (e, challenge)

challenge-Wrote :
    (w : Option String) (echoes : List Poll) (kw : ℕ × ℕ) (m : Mems19) (buf : List ℕ)
    → keyword_frame buf ≡ some kw
    → Wrote (m.written ++ ((bit_xor kw.1 0xFF ∷ []) ∷ [])) (challenge w echoes m (matched buf))
challenge-Wrote w echoes kw m buf e =
    subst (Wrote (m.written ++ ((bit_xor kw.1 0xFF ∷ []) ∷ [])))
      (sym (challenge_lem w echoes kw m buf e)) (respond-Wrote w echoes (bit_xor kw.1 0xFF) _)

-- However noisy the line is, as long as the noise in front of the keyword frame has no sync byte, and
-- however the bytes are cut into reads that end in time and without an error:
-- the handshake writes one byte, the complement of the second keyword.
pub handshake-response :
    (w : Option String) (chunks : List (List ℕ)) (echoes : List Poll) (noise : List ℕ) (k1 k2 : ℕ)
    (more : List ℕ) (m : Mems19)
    → All (λ b. b ≢ 0x55) noise
    → joined chunks ≡ noise ++ (0x55 ∷ k1 ∷ k2 ∷ more)
    → Wrote
        (m.written ++ ((bit_xor k2 0xFF ∷ []) ∷ []))
        (handle_wake_up_handshake w (map received chunks) echoes m)
unfolding handle_wake_up_handshake
handshake-response w chunks echoes noise k1 k2 more m quiet cut =
    let kw : ℕ × ℕ = (k1, k2) in
    let (m', result) = read_until "handshake" has_keywords (map received chunks) [] m in
    let (kept, buf, e, holds) =
      read_until-Found "handshake" chunks [] m kw keyword_frame_nil
        (ap keyword_frame cut ∙ keyword_frame-noise noise k1 k2 more quiet) in
    subst (λ r. Wrote (m.written ++ ((bit_xor k2 0xFF ∷ []) ∷ [])) (challenge w echoes m' r))
      (sym e)
      (subst
        (λ frames.
          Wrote (frames ++ ((bit_xor k2 0xFF ∷ []) ∷ [])) (challenge w echoes m' (matched buf)))
        kept (challenge-Wrote w echoes kw m' buf holds))

-- What `match` said of the buffer given back.
abbrev Passed : (List ℕ → Bool) → ReadResult → Type 0
Passed match (matched buf) = match buf ≡ true
Passed match (timed_out buf) = Unit
Passed match (failed buf e) = Unit

read_until-Passed :
    (label : String) (match : List ℕ → Bool) (polls : List Poll) (buf : List ℕ) (m : Mems19)
    → Passed match (read_until label match polls buf m).1
unfolding read_until
read_until-Passed label match [] buf m = tt
read_until-Passed label match (broken incoming e ∷ polls) buf m = tt
read_until-Passed label match (received [] ∷ polls) buf m =
    read_until-Passed label match polls buf m
read_until-Passed label match (received (b ∷ bs) ∷ polls) buf m =
    let front : List ℕ = strip (buf ++ (b ∷ bs)) in
    let logged : Mems19 =
      log_debug "1.9 %s read %d byte(s), buffer now %X"
        (text label ∷ num (length (b ∷ bs)) ∷ bytes front ∷ []) m in
    let later = read_until-Passed label match polls front logged in
    elim (Bool-cases (match front)) [ inl t ↦ rw t t | inr f ↦ rw f later ]

-- Nothing or one byte, and no panic.
abbrev pub AtMostOne : List (List ℕ) → Outcome → Type 0
AtMostOne frames o = Wrote frames o ⊎ ((b : ℕ) × Wrote (frames ++ ((b ∷ []) ∷ [])) o)

challenge-AtMostOne :
    (w : Option String) (echoes : List Poll) (m : Mems19) (r : ReadResult)
    → Passed has_keywords r
    → AtMostOne m.written (challenge w echoes m r)
unfolding challenge
challenge-AtMostOne w echoes m (failed buf e) h = inl refl
challenge-AtMostOne w echoes m (timed_out buf) h = inr (0x7C, respond-Wrote w echoes 0x7C _)
challenge-AtMostOne w echoes m (matched buf) h = elim (Option-cases (keyword_frame buf)) [
  | inl e ↦ absurd (ground (arith, e, h))
  | inr (kw, e) ↦ inr (bit_xor kw.1 0xFF, challenge-Wrote w echoes kw m buf e)
]

-- Whatever is read, and whether reads and writes fail or not: the handshake does not panic, and
-- writes one byte or nothing.
pub handshake-AtMostOne :
    (w : Option String) (polls echoes : List Poll) (m : Mems19)
    → AtMostOne m.written (handle_wake_up_handshake w polls echoes m)
unfolding handle_wake_up_handshake
handshake-AtMostOne w polls echoes m =
    let (m', result) = read_until "handshake" has_keywords polls [] m in
    subst (λ frames. AtMostOne frames (challenge w echoes m' result))
      (read_until-written "handshake" has_keywords polls [] m)
      (challenge-AtMostOne w echoes m' result
        (read_until-Passed "handshake" has_keywords polls [] m))
