-- ===== src/Rc5/Connect/Hearing.antt =====
-- That `Connect` of internal/ecu/rc5/rc5.go hears the reply to its wake pattern, behind zeros and
-- however it is cut into reads.
use rover_mems_ecu.Base.{
  ℕ, suc, zero, ◌≤◌, ◌<◌, ◌∙◌, ◌⊎◌, ap, sym, Bool-cases, inl, inr, true, false, List, [], ◌∷◌, ◌++◌,
  append_assoc, append-nil, map, replicate, none, some, length, ◌==◌, ◌≡◌, refl, arith,
}
use rover_mems_ecu.Mems1x.Loop.{ReadError, no_error}
use rover_mems_ecu.Mems19.Handshake.Response.{joined}
use rover_mems_ecu.Rc5.Commands.{Rc5, log_debug}
use rover_mems_ecu.Rc5.Connect.{
  PortAnswers, init_loops_limit, wake, skip_zeros, judge, init_loop, set_up, connect,
}

skip_zeros-append : (xs ys : List ℕ) → skip_zeros (skip_zeros xs ++ ys) ≡ skip_zeros (xs ++ ys)
unfolding skip_zeros
skip_zeros-append [] ys = refl
skip_zeros-append (x ∷ xs) ys = elim (Bool-cases (x == 0x00)) [
  | inl t ↦ rw t (skip_zeros-append xs ys)
  | inr f ↦ rw (f, skip_zeros, f)
]

skip_zeros_self : (xs : List ℕ) → skip_zeros (skip_zeros xs) ≡ skip_zeros xs
skip_zeros_self xs =
    ap skip_zeros (sym (append-nil (skip_zeros xs)))
    ∙ skip_zeros-append xs []
    ∙ ap skip_zeros (append-nil xs)

skip_zeros-replicate :
    (n b : ℕ) (rest : List ℕ)
    → (b == 0x00) ≡ false
    → skip_zeros (replicate n 0x00 ++ (b ∷ rest)) ≡ b ∷ rest
unfolding skip_zeros
skip_zeros-replicate zero b rest h = rw h
skip_zeros-replicate (suc n) b rest h = skip_zeros-replicate n b rest h

length-skip_zeros : (xs : List ℕ) → length (skip_zeros xs) ≤ length xs
unfolding skip_zeros
length-skip_zeros [] = omega arith
length-skip_zeros (x ∷ xs) = ground (arith, length-skip_zeros xs)

-- What a stripped buffer begins with stays in front.
skip_zeros-front :
    (a : ℕ) (xs ys : List ℕ)
    → skip_zeros (a ∷ xs) ≡ a ∷ xs
    → skip_zeros ((a ∷ xs) ++ ys) ≡ (a ∷ xs) ++ ys
unfolding skip_zeros
skip_zeros-front a xs ys e = elim (Bool-cases (a == 0x00)) [
  | inl t ↦
      let shorter : skip_zeros xs ≡ a ∷ xs = rw t at e in
      absurd (omega (arith, length-skip_zeros xs, ap (λ (bs : List ℕ). length bs) shorter))
  | inr f ↦ rw f
]

abbrev Waits : List ℕ → Rc5 → Type 0
Waits buffer r = (length buffer < 3) × (judge buffer r ≡ none)

abbrev woken : Rc5 → Rc5
woken r =
    let logged = log_debug "RC5 woke up" r in
    record logged { state = record logged.state { connected = true } }

abbrev Hears : List ℕ → Rc5 → Type 0
Hears buffer r = judge buffer r ≡ some (woken r, none)

judge_lem :
    (buffer rest more : List ℕ) (r : Rc5)
    → skip_zeros buffer ≡ buffer
    → skip_zeros (buffer ++ rest) ≡ 0x55 ∷ 0x06 ∷ 0x3B ∷ more
    → Waits buffer r ⊎ Hears buffer r
unfolding judge
judge_lem [] rest more r e h = inl (omega arith, refl)
judge_lem (a ∷ []) rest more r e h = inl (omega arith, refl)
judge_lem (a ∷ b ∷ []) rest more r e h = inl (omega arith, refl)
judge_lem (a ∷ b ∷ c ∷ xs) rest more r e h =
    let same : a ∷ b ∷ c ∷ (xs ++ rest) ≡ 0x55 ∷ 0x06 ∷ 0x3B ∷ more =
      sym (skip_zeros-front a (b ∷ c ∷ xs) rest e) ∙ h in
    let first : (a == 0x55) ≡ true = ground (arith, same) in
    let second : (b == 0x06) ≡ true = ground (arith, same) in
    let third : (c == 0x3B) ≡ true = ground (arith, same) in inr (rw (first, second, third))

abbrev answers : List (List ℕ) → List (List ℕ × ReadError)
answers = map (λ read. (read, no_error))

init_loop-hears :
    (chunks : List (List ℕ)) (rounds : ℕ) (buffer more : List ℕ) (r : Rc5)
    → length chunks ≤ rounds
    → length buffer < 3
    → skip_zeros buffer ≡ buffer
    → skip_zeros (buffer ++ joined chunks) ≡ 0x55 ∷ 0x06 ∷ 0x3B ∷ more
    → init_loop rounds (answers chunks) buffer r ≡ (woken r, none)
unfolding init_loop
init_loop-hears [] rounds buffer more r few short e h =
    let whole : buffer ≡ 0x55 ∷ 0x06 ∷ 0x3B ∷ more =
      sym e ∙ ap skip_zeros (sym (append-nil buffer)) ∙ h in
    absurd (omega (arith, ap (λ (bs : List ℕ). length bs) whole, short))
init_loop-hears (chunk ∷ chunks) zero buffer more r few short e h = absurd (omega arith)
init_loop-hears ([] ∷ chunks) (suc rounds) buffer more r few short e h =
    init_loop-hears chunks rounds buffer more r (omega arith) short e h
init_loop-hears ((b ∷ bs) ∷ chunks) (suc rounds) buffer more r few short e h =
    let buffer' = skip_zeros (buffer ++ (b ∷ bs)) in
    let whole : skip_zeros (buffer' ++ joined chunks) ≡ 0x55 ∷ 0x06 ∷ 0x3B ∷ more =
      skip_zeros-append (buffer ++ (b ∷ bs)) (joined chunks)
      ∙ ap skip_zeros (append_assoc buffer (b ∷ bs) (joined chunks))
      ∙ h in
    elim (judge_lem buffer' (joined chunks) more r (skip_zeros_self (buffer ++ (b ∷ bs))) whole) [
      | inl (short', none_yet) ↦
          rw (init_loop, none_yet)
            (init_loop-hears chunks rounds buffer' more r (omega arith) short'
              (skip_zeros_self (buffer ++ (b ∷ bs))) whole)
      | inr heard ↦ rw (init_loop, heard) refl
    ]

-- What a port answers that opens, takes the break pulses and reads these bytes.
abbrev pub working : List (List ℕ) → PortAnswers
working chunks = record {
  open_error = none;
  timeout_error = none;
  break_error = λ d. none;
  incoming = answers chunks;
}

-- On a port that works, an RC5 whose reply comes within 100 reads is connected: behind any number of
-- zeros, with anything behind it, and however it is cut into reads.
pub connect-hears :
    (chunks : List (List ℕ)) (n : ℕ) (more : List ℕ) (r : Rc5)
    → length chunks ≤ init_loops_limit
    → joined chunks ≡ replicate n 0x00 ++ (0x55 ∷ 0x06 ∷ 0x3B ∷ more)
    → ((connect (working chunks) r).1 ≡ none)
      × ((connect (working chunks) r).0.state.connected ≡ true)
unfolding connect set_up wake skip_zeros
connect-hears chunks n more r few reply =
    let heard =
      init_loop-hears chunks init_loops_limit [] more _ few (omega arith) refl
        (ap skip_zeros reply ∙ skip_zeros-replicate n 0x55 (0x06 ∷ 0x3B ∷ more) refl) in
    (ap (λ res. res.1) heard, ap (λ res. res.0.state.connected) heard)
