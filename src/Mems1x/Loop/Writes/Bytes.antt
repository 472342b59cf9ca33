-- ===== src/Mems1x/Loop/Writes/Bytes.antt =====
-- The bytes that a whole run of `loop` of internal/ecu/mems1x/loop.go puts on the line.
use rover_mems_ecu.Base.{
  both, ℕ, ◌+◌, ◌≤◌, String, Bool, Option-cases, true, false, ◌||◌, List, [], ◌∷◌, ◌++◌, Option,
  none, some, find, lookup, length, ltb, ◌==◌, str_eq, ◌≡◌, refl, ap, ◌∙◌, sym, subst, inl, inr,
  All, All-append, arith, length-append, Bool-cases,
}
use rover_mems_ecu.Mems1x.Commands.{Mems1x, command_names, user_commands, after_response, send}
use rover_mems_ecu.Mems1x.Loop.{Session, Event, run, loop, time_out, read_loops_limit}
use rover_mems_ecu.Mems1x.Loop.Writes.{wanted, Quiet, Sent, After}
use rover_mems_ecu.Mems1x.Loop.Writes.Exchange.{After-map, proceed-After, Exchange, step-Exchange}

-- A byte of the hand-shake or of the poll, or of a user command.
pub is_known : ℕ → Bool
is_known c =
    (c == 0xCA)
    || (c == 0x75)
    || (c == 0xF4)
    || (c == 0xD0)
    || (c == 0x80)
    || (c == 0x7D)
    || elim (lookup c command_names) [ none ↦ false | some name ↦ true ]

abbrev Known : ℕ → Type 0
Known c = is_known c ≡ true

find-All {ℓ} :
    {V : Type ℓ} (P : V → Type 0) (k : String) (m : List (String × V)) (v : V)
    → All (λ e. P e.1) m
    → find k m ≡ some v
    → P v
unfolding find
find-All P k [] v all e = absurd (ground (arith, e))
find-All P k ((j, u) ∷ m) v (p, ps) e = elim (Bool-cases (str_eq j k)) [
  | inl t ↦ let same : u ≡ v = ground (arith, e, t) in subst P same p
  | inr t ↦ find-All P k m v ps (ground (arith, e, t))
]

user_commands-Known : All (λ e. Known e.1) user_commands
unfolding is_known lookup
user_commands-Known = ground arith

after_response-Known : (b : ℕ) → Known (after_response b)
unfolding is_known after_response lookup
after_response-Known b = both Known (b == 0xCC) refl (
    both Known (b == 0xCA) refl (
      both Known (b == 0x75) refl (
        both Known (b == 0xF4) refl (
          both Known (b == 0xD0) refl
            (both Known (b == 0x80) refl (both Known (b == 0x7D) refl refl))))))

wanted-Known : (cmd : String) (b : ℕ) → Known (wanted cmd b)
unfolding wanted
wanted-Known cmd b = elim (Option-cases (find cmd user_commands)) [
  | inl e ↦ rw (e, wanted) (after_response-Known b)
  | inr (c, e) ↦ rw (e, wanted) (find-All Known cmd user_commands c user_commands-Known e)
]

-- The bytes written, after at most `n` of them: each is known, and the last is the one noted for the
-- echo.
pub Tracked : ℕ → Session → Type 0
Tracked n s =
    All Known s.m.written
    × (length s.m.written ≤ n)
    × ((front : List ℕ) × (s.m.written ≡ front ++ (s.m.last_kline_byte ∷ [])))

Exchange-Tracked :
    (kline : Bool) (e : Event) (n : ℕ) (s s' : Session)
    → Tracked n s
    → Exchange kline e s s'
    → Tracked (n + 1) s'
unfolding Tracked Exchange Quiet Sent
Exchange-Tracked kline e n s s' (known, few, (front, ends)) x = elim x [
  | inl (p, q, r) ↦ (
    subst (All Known) (sym p) known,
    rw p (omega arith),
    (front, p ∙ ends ∙ ap (λ c. front ++ (c ∷ [])) (sym q)),
  )
  | inr (b, rest, split, fresh, (p, q, r, t, u)) ↦ (
    subst (All Known) (sym p) (
        All-append Known s.m.written (wanted s.m.state.user_command b ∷ []) known
          (wanted-Known s.m.state.user_command b, tt)),
    rw (p, length-append s.m.written (wanted s.m.state.user_command b ∷ [])) (omega arith),
    (s.m.written, p ∙ ap (λ c. s.m.written ++ (c ∷ [])) (sym q)),
  )
]

Tracked-more : (n k : ℕ) (s : Session) → n ≤ k → Tracked n s → Tracked k s
unfolding Tracked
Tracked-more n k s h (known, few, ends) = (known, omega arith, ends)

run-Tracked :
    (kline : Bool) (events : List Event) (n : ℕ) (s : Session)
    → Tracked n s
    → After (Tracked (n + length events)) (run kline events s)
unfolding run After time_out Tracked
run-Tracked kline [] n s t =
    both (After (Tracked (n + 0))) (ltb s.read_loops read_loops_limit)
      (Tracked-more n (n + 0) s (omega arith) t) (Tracked-more n (n + 0) s (omega arith) t)
run-Tracked kline (e ∷ events) n s t = elim (Bool-cases (ltb s.read_loops read_loops_limit)) [
  | inl more ↦
      rw (more, run)
        (proceed-After {P = Tracked (n + 1)} _ _
          (After-map (λ s' x. Exchange-Tracked kline e n s s' t x) _ (step-Exchange kline e s))
          (λ s' t'.
            subst (λ k. After (Tracked k) (run kline events s')) (ground arith)
              (run-Tracked kline events (n + 1) s' t'))
          (λ s' t'. Tracked-more _ _ s' (ground arith) t'))
  | inr done ↦ rw (done, run) (Tracked-more n _ s (ground arith) t)
]

-- Whatever the ECU answers and whenever it falls silent, each byte that a run writes is one of the
-- hand-shake, of the poll or of a user command; there is at most one for each round beside the
-- first; and the last byte written is the one whose echo the loop waits for.
pub loop-Tracked :
    (kline : Bool) (w : Option String) (events : List Event) (m : Mems1x)
    → m.written ≡ []
    → After (Tracked (1 + length events)) (loop kline w events m)
unfolding loop Tracked send is_known
loop-Tracked kline w events m empty =
    run-Tracked kline events 1 _ (rw empty (refl, tt), rw empty (omega arith), ([], rw empty))
