-- ===== src/Mems19/Handshake/Keywords.antt =====
-- `keywordFrame` of internal/ecu/mems19/mems19.go: what it finds behind noise, and as bytes come in.
use rover_mems_ecu.Base.{
  ℕ, ◌≡◌, ◌≢◌, refl, ◌∙◌, sym, Bool-cases, true, false, inl, inr, List, [], ◌∷◌, ◌++◌, none, some,
  All, length, leb, ◌==◌, arith,
}
use rover_mems_ecu.Mems19.Handshake.{keyword_frame, strip}

-- A frame of keywords is found behind any noise without a sync byte.
pub keyword_frame-noise :
    (noise : List ℕ) (k1 k2 : ℕ) (more : List ℕ)
    → All (λ b. b ≢ 0x55) noise
    → keyword_frame (noise ++ (0x55 ∷ k1 ∷ k2 ∷ more)) ≡ some (k1, k2)
unfolding keyword_frame
keyword_frame-noise [] k1 k2 more h = ground arith
keyword_frame-noise (b ∷ noise) k1 k2 more (h, hs) =
    let other : (b == 0x55) ≡ false = ground (arith, h) in
    rw (keyword_frame, other, keyword_frame-noise noise k1 k2 more hs)

pub keyword_frame_nil : keyword_frame [] ≡ none
unfolding keyword_frame
keyword_frame_nil = refl

keyword_frame-sync :
    (v a c : ℕ) (b : List ℕ) → (v == 0x55) ≡ true → keyword_frame (v ∷ a ∷ c ∷ b) ≡ some (a, c)
unfolding keyword_frame
keyword_frame-sync v a c b sync =
    let enough : leb 2 (length (a ∷ c ∷ b)) ≡ true = ground arith in rw (sync, enough)

keyword_frame-other :
    (v : ℕ) (b : List ℕ) → (v == 0x55) ≡ false → keyword_frame (v ∷ b) ≡ keyword_frame b
unfolding keyword_frame
keyword_frame-other v b other = rw other

-- What is found stays found when more bytes come.
pub keyword_frame-append :
    (b more : List ℕ) (kw : ℕ × ℕ) → keyword_frame b ≡ some kw → keyword_frame (b ++ more) ≡ some kw
unfolding keyword_frame
keyword_frame-append [] more kw h = absurd (ground (arith, h))
keyword_frame-append (v ∷ []) more kw h = absurd (ground (arith, h))
keyword_frame-append (v ∷ a ∷ []) more kw h = absurd (ground (arith, h))
keyword_frame-append (v ∷ a ∷ c ∷ b) more kw h = elim (Bool-cases (v == 0x55)) [
  | inl sync ↦ keyword_frame-sync v a c (b ++ more) sync ∙ sym (keyword_frame-sync v a c b sync) ∙ h
  | inr other ↦
      keyword_frame-other v (a ∷ c ∷ (b ++ more)) other
      ∙ keyword_frame-append (a ∷ c ∷ b) more kw (sym (keyword_frame-other v (a ∷ c ∷ b) other) ∙ h)
]

-- Bytes that are 0 in front change nothing.
pub keyword_frame-strip :
    (b more : List ℕ) → keyword_frame (strip b ++ more) ≡ keyword_frame (b ++ more)
unfolding keyword_frame
keyword_frame-strip [] more = refl
keyword_frame-strip (v ∷ b) more = elim (Bool-cases (v == 0x00)) [
  | inl t ↦
      let other : (v == 0x55) ≡ false = ground (arith, t) in
      rw (t, keyword_frame, other) (keyword_frame-strip b more)
  | inr f ↦ rw f
]
