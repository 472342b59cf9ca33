-- ===== src/Mems1x/Loop/Writes/Exchange.antt =====
-- One round of `loop` of internal/ecu/mems1x/loop.go as an exchange, and what a whole run writes.
use rover_mems_ecu.Base.{
  ℕ, String, Bool, Bool-cases, false, not, ◌&&◌, List, [], ◌∷◌, ◌++◌, Option, ◌==◌, ◌≡◌, refl, ◌⊎◌,
  inl, inr, arith, append-nil,
}
use rover_mems_ecu.Mems1x.Loop.{
  Session, Outcome, running, returned, panicked, Event, cancelled, reads, no_error, timeout, failed,
  react, receive, step, proceed,
}
use rover_mems_ecu.Mems1x.Loop.Writes.{Quiet, Sent, Round, After, process-Round}

abbrev pub incoming : Event → List ℕ
incoming cancelled = []
incoming (reads read error write_error) = read

-- The session that a round begins with and the one after: nothing was written, or one byte was, in
-- answer to the first of the bytes at hand, which is not the echo that is waited for.
unfoldable pub Exchange : Bool → Event → Session → Session → Type 0
Exchange kline e s s' =
    Quiet s s'
    ⊎ ((b : ℕ) × (rest : List ℕ) × (s.buffer ++ incoming e ≡ b ∷ rest)
        × ((kline && not s.m.got_kline_echo && (b == s.m.last_kline_byte)) ≡ false)
        × Sent b s s')

pub After-map :
    {P Q : Session → Type 0} → ((s : Session) → P s → Q s) → (o : Outcome) → After P o → After Q o
unfolding After
After-map f (running s) p = f s p
After-map f (returned s failure) p = f s p
After-map f panicked p = tt

pub proceed-After :
    {P Q : Session → Type 0} (f : Session → Outcome) (o : Outcome)
    → After P o
    → ((s : Session) → P s → After Q (f s))
    → ((s : Session) → P s → Q s)
    → After Q (proceed f o)
unfolding proceed After
proceed-After f (running s) p go stop = go s p
proceed-After f (returned s failure) p go stop = stop s p
proceed-After f panicked p go stop = tt

sent :
    (kline : Bool) (e : Event) (b : ℕ) (rest : List ℕ) (n : ℕ) (s : Session)
    → s.buffer ++ incoming e ≡ b ∷ rest
    → (kline && not s.m.got_kline_echo && (b == s.m.last_kline_byte)) ≡ false
    → (s' : Session) → Round b (record { m = s.m; buffer = b ∷ rest; read_loops = n }) s'
    → Exchange kline e s s'
unfolding Exchange Round
sent kline e b rest n s p q s' r = elim r.1 [
  | inl quiet ↦ inl quiet
  | inr out ↦ inr (b, rest, p, q, out)
]

react-Exchange :
    (kline : Bool) (w : Option String) (buffer : List ℕ) (n : ℕ) (s : Session) (e : Event)
    → s.buffer ++ incoming e ≡ buffer
    → After
        (Exchange kline e s)
        (react kline w buffer (record { m = s.m; buffer = buffer; read_loops = n }))
unfolding react After Exchange Round
react-Exchange kline w [] n s e p = inl (refl, refl, refl)
react-Exchange kline w (b ∷ rest) n s e p = elim (Bool-cases (kline && not s.m.got_kline_echo)) [
  | inl waits ↦ elim (Bool-cases (b == s.m.last_kline_byte)) [
    | inl echo ↦ rw (waits, echo) (inl (refl, refl, refl))
    | inr other ↦
        rw (waits, other)
          (After-map (sent kline e b rest n s p (ground arith)) _ (process-Round w b rest _))
  ]
  | inr heard ↦
      rw heard (After-map (sent kline e b rest n s p (ground arith)) _ (process-Round w b rest _))
]

-- A round writes at most one byte. It is the one due after the first byte at hand, or that of the
-- pending user command, which is then taken out; the echo of the last byte is never answered.
pub step-Exchange :
    (kline : Bool) (e : Event) (s : Session) → After (Exchange kline e s) (step kline e s)
unfolding step receive After Exchange Quiet
step-Exchange kline cancelled s = inl (refl, refl, refl)
step-Exchange kline (reads read (failed msg) w) s = inl (refl, refl, refl)
step-Exchange kline (reads [] no_error w) s =
    react-Exchange kline w s.buffer _ s (reads [] no_error w) (append-nil s.buffer)
step-Exchange kline (reads [] timeout w) s =
    react-Exchange kline w s.buffer _ s (reads [] timeout w) (append-nil s.buffer)
step-Exchange kline (reads (b ∷ rest) no_error w) s =
    react-Exchange kline w _ _ s (reads (b ∷ rest) no_error w) refl
step-Exchange kline (reads (b ∷ rest) timeout w) s =
    react-Exchange kline w _ _ s (reads (b ∷ rest) timeout w) refl
