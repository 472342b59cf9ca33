-- ===== src/Serial/Reader/Accounts.antt =====
-- The bytes of a read goroutine of internal/serial/readwrite.go.
use rover_mems_ecu.Base.{
  ℕ, ◌≡◌, ◌≢◌, ◌∙◌, sym, ap, subst, false, List, [], ◌∷◌, ◌++◌, append_assoc, append-nil,
}
use rover_mems_ecu.Serial.Reader.{
  Phase, at_head, in_read, exited, sending, Worker, WorkerStep, leave, enter, read, fail, send,
  give_up, again,
}

-- The bytes that a goroutine still has to send, and those that the caller has taken out.
abbrev pub hand : Phase → List ℕ
hand at_head = []
hand in_read = []
hand exited = []
hand (sending bytes) = bytes

-- Bytes are lost only to a goroutine that has given up.
abbrev pub LostBy : Phase → List ℕ → Type 0
LostBy at_head lost = lost ≡ []
LostBy in_read lost = lost ≡ []
LostBy exited lost = Unit
LostBy (sending bytes) lost = lost ≡ []

-- All that the port has given is, in order, what was taken out before, the channel, what the goroutine
-- has in hand, and what is lost; nothing is, unless the goroutine was stopped.
abbrev pub Accounts : List ℕ → List ℕ → Worker → List ℕ → Type 0
Accounts taken ch w lost =
    (taken ++ (ch ++ (hand w.phase ++ lost)) ≡ w.given)
    × (w.stopped ≡ false → lost ≡ [])
    × LostBy w.phase lost

same_hand :
    (taken ch : List ℕ) {p q : Phase}
    → p ≡ q
    → (lost : List ℕ) → taken ++ (ch ++ (hand q ++ lost)) ≡ taken ++ (ch ++ (hand p ++ lost))
same_hand taken ch e lost = ap (λ p. taken ++ (ch ++ (hand p ++ lost))) (sym e)

pub WorkerStep-Accounts :
    (taken : List ℕ) {ch ch' : List ℕ} {w w' : Worker}
    → WorkerStep ch w ch' w'
    → (lost : List ℕ) → Accounts taken ch w lost
    → (lost' : List ℕ) × Accounts taken ch' w' lost'
WorkerStep-Accounts taken {ch} (leave e t) lost (all, kept, by) =
    (lost, (same_hand taken ch e lost ∙ all, kept, tt))
WorkerStep-Accounts taken {ch} (enter e t) lost (all, kept, by) =
    (lost, (same_hand taken ch e lost ∙ all, kept, subst (λ p. LostBy p lost) e by))
WorkerStep-Accounts taken {ch} {w = w} (read bytes e) lost (all, kept, by) =
    let none_lost : lost ≡ [] = subst (λ p. LostBy p lost) e by in
    let before : taken ++ ch ≡ w.given =
      ap (λ xs. taken ++ xs) (sym (append-nil ch) ∙ ap (λ xs. ch ++ xs) (sym none_lost))
      ∙ same_hand taken ch e lost
      ∙ all in
    (
      lost,
      (
        ap (λ xs. taken ++ (ch ++ xs)) (ap (λ xs. bytes ++ xs) none_lost ∙ append-nil bytes)
            ∙ sym (append_assoc taken ch bytes)
            ∙ ap (λ xs. xs ++ bytes) before,
        kept,
        none_lost,
      ),
    )
WorkerStep-Accounts taken {ch} (fail e) lost (all, kept, by) =
    (lost, (same_hand taken ch e lost ∙ all, kept, tt))
WorkerStep-Accounts taken {ch} (send b bs e room) lost (all, kept, by) = (
  lost,
  (
    ap (λ xs. taken ++ xs) (append_assoc ch (b ∷ []) (bs ++ lost))
        ∙ same_hand taken ch e lost
        ∙ all,
    kept,
    subst (λ p. LostBy p lost) e by,
  ),
)
WorkerStep-Accounts taken {ch} (give_up b bs e t) lost (all, kept, by) =
    ((b ∷ bs) ++ lost, (same_hand taken ch e lost ∙ all, λ f. cc, tt))
WorkerStep-Accounts taken {ch} (again e) lost (all, kept, by) =
    (lost, (same_hand taken ch e lost ∙ all, kept, subst (λ p. LostBy p lost) e by))

-- A goroutine that has returned does nothing more.
pub WorkerStep-exited :
    {ch ch' : List ℕ} {w w' : Worker} → WorkerStep ch w ch' w' → w.phase ≢ exited
WorkerStep-exited (leave e t) = λ x. cc
WorkerStep-exited (enter e t) = λ x. cc
WorkerStep-exited (read bytes e) = λ x. cc
WorkerStep-exited (fail e) = λ x. cc
WorkerStep-exited (send b bs e room) = λ x. cc
WorkerStep-exited (give_up b bs e t) = λ x. cc
WorkerStep-exited (again e) = λ x. cc
