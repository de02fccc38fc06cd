-- ===== src/Prelude/Rings.antt =====
-- Arrays used as rings: the slots of a stretch that may run over the end.
use Prim.Native.Nat.{zero, suc, ℕ, ◌+◌, ◌-◌, ◌<◌, ◌≤◌}
use mathlib.Core.Path.{◌≡◌, ap, refl, sym, ◌∙◌}
use mathlib.Core.Logic.{◌≢◌}
use mathlib.Core.List.{List, [], ◌∷◌, ◌++◌, append-nil, append_assoc}
use flex_toe.Prelude.Lists.{length}
use native.Mathlib.Omega.{arith}
use flex_toe.Prelude.Tests.{leb, if◌then◌else◌}
use flex_toe.Prelude.Families.{update, update_ne}

-- An index that has run over the end of the ring once at most.
abbrev pub wrap : ℕ → ℕ → ℕ
wrap len i = if leb len i then i - len else i

-- `n` slots of the ring from `pos` on, the first first.
abbrev pub slots_from {ℓ} : {A : Type ℓ} → (ℕ → A) → ℕ → ℕ → ℕ → List A
slots_from slots len pos zero = []
slots_from slots len pos (suc n) = slots pos ∷ slots_from slots len (wrap len (pos + 1)) n

-- The positions themselves, in the ring and in a straight stretch.
abbrev pub ring_positions : ℕ → ℕ → ℕ → List ℕ
ring_positions len pos n = slots_from (λ i. i) len pos n

abbrev pub stretch : ℕ → ℕ → List ℕ
stretch pos zero = []
stretch pos (suc n) = pos ∷ stretch (pos + 1) n

-- Writes from `pos` on.
abbrev pub write_all {ℓ} : {A : Type ℓ} → (ℕ → A) → ℕ → ℕ → List A → ℕ → A
write_all slots len pos [] = slots
write_all slots len pos (x ∷ xs) = write_all (update slots pos x) len (wrap len (pos + 1)) xs

module _ {ℓ} {A : Type ℓ} where
  -- A write behind the stretch.
  pub slots_from-update :
      (slots : ℕ → A) (len pos n i : ℕ) (x : A)
      → pos < len
      → n < len
      → i ≡ wrap len (pos + n)
      → slots_from (update slots i x) len pos (suc n) ≡ slots_from slots len pos n ++ x ∷ []
  slots_from-update slots len pos zero i x h k e =
      let same : i ≡ pos = ground arith in ground (arith, same)
  slots_from-update slots len pos (suc n) i x h k e =
      let later =
        slots_from-update slots len (wrap len (pos + 1)) n i x (ground arith) (omega arith)
          (ground arith) in
      let other : i ≢ pos = ground arith in
      let first = update_ne slots i pos x other in
      ap (λ y. y ∷ slots_from (update slots i x) len (wrap len (pos + 1)) (suc n)) first
      ∙ ap (λ l. slots pos ∷ l) later

  -- What is written behind a stretch, and what is written at all.
  slots_from-write_all_behind :
      (slots : ℕ → A) (len start n pos : ℕ) (old xs : List A)
      → start < len
      → n + length xs ≤ len
      → pos ≡ wrap len (start + n)
      → slots_from slots len start n ≡ old
      → slots_from (write_all slots len pos xs) len start (n + length xs) ≡ old ++ xs
  slots_from-write_all_behind slots len start n pos old [] h k e q =
      let same : n + 0 ≡ n = omega arith in
      ap (slots_from slots len start) same ∙ (q ∙ sym (append-nil old))
  slots_from-write_all_behind slots len start n pos old (x ∷ xs) h k e q =
      let one = slots_from-update slots len start n pos x h (omega arith) e in
      let rest =
        slots_from-write_all_behind (update slots pos x) len start (suc n) (wrap len (pos + 1))
          (old ++ x ∷ []) xs h (omega arith) (ground (arith, e)) (one ∙ ap (λ l. l ++ x ∷ []) q) in
      let count : n + suc (length xs) ≡ suc n + length xs = omega arith in
      ap (slots_from (write_all slots len pos (x ∷ xs)) len start) count
      ∙ (rest ∙ append_assoc old (x ∷ []) xs)

  pub slots_from-write_all :
      (slots : ℕ → A) (len pos : ℕ) (xs : List A)
      → pos < len
      → length xs ≤ len
      → slots_from (write_all slots len pos xs) len pos (length xs) ≡ xs
  slots_from-write_all slots len pos xs h k =
      let none_before : 0 + length xs ≡ length xs = omega arith in
      sym (ap (slots_from (write_all slots len pos xs) len pos) none_before)
      ∙ slots_from-write_all_behind slots len pos 0 pos [] xs h (omega (arith, k)) (ground arith)
          refl

-- A stretch that ends at the end of the ring or before, and one that goes on from the start.
pub ring_positions-stretch :
    (len pos n : ℕ) → pos + n ≤ len → ring_positions len pos n ≡ stretch pos n
ring_positions-stretch len pos zero h = refl
ring_positions-stretch len pos (suc zero) h = refl
ring_positions-stretch len pos (suc (suc n)) h =
    let on : wrap len (pos + 1) ≡ pos + 1 = ground arith in
    let rest = ring_positions-stretch len (pos + 1) (suc n) (omega arith) in
    ap (λ l. pos ∷ l) (ap (λ p. ring_positions len p (suc n)) on ∙ rest)

pub ring_positions-over :
    (len pos k n : ℕ)
    → pos + suc k ≡ len
    → ring_positions len pos (suc k + n) ≡ stretch pos (suc k) ++ ring_positions len 0 n
ring_positions-over len pos zero n h =
    let start : wrap len (pos + 1) ≡ 0 = ground arith in
    let one : 1 + n ≡ suc n = omega arith in
    ap (ring_positions len pos) one ∙ ap (λ l. pos ∷ l) (ap (λ p. ring_positions len p n) start)
ring_positions-over len pos (suc k) n h =
    let on : wrap len (pos + 1) ≡ pos + 1 = ground arith in
    let count : suc (suc k) + n ≡ suc (suc k + n) = omega arith in
    let rest = ring_positions-over len (pos + 1) k n (omega arith) in
    ap (ring_positions len pos) count
    ∙ ap (λ l. pos ∷ l) (ap (λ p. ring_positions len p (suc k + n)) on ∙ rest)

-- In both cases at once, as a program splits a stretch.
pub ring_positions-split :
    (len pos n : ℕ)
    → pos < len
    → n ≤ len
    → len < pos + n
    → ring_positions len pos n ≡ stretch pos (len - pos) ++ stretch 0 (n - (len - pos))
ring_positions-split len pos n h k over =
    let first : suc (len - pos - 1) ≡ len - pos = omega arith in
    let all : suc (len - pos - 1) + (n - (len - pos)) ≡ n = omega arith in
    let fill : pos + suc (len - pos - 1) ≡ len = omega arith in
    let two = ring_positions-over len pos (len - pos - 1) (n - (len - pos)) fill in
    let rest = ring_positions-stretch len 0 (n - (len - pos)) (omega arith) in
    sym (ap (ring_positions len pos) all)
    ∙ (two
        ∙ (ap (λ l. stretch pos (suc (len - pos - 1)) ++ l) rest
            ∙ ap (λ i. stretch pos i ++ stretch 0 (n - (len - pos))) first))
