-- ===== src/App/Probe.antt =====
-- `txq_probe` in lib/tas/init.c: entries of the queue to the NIC that are free again.
-- An entry is free when its type is the invalid one; `i` rounds at most.
use flex_toe.Prelude.{
  if◌then◌else◌, ℕ, ◌*◌, ◌+◌, ◌/◌, ◌<◌, ◌≡◌, ◌≤◌, Bool-cases, Option, Option-cases, ap, arith,
  false, inl, inr, ltb, none, some, subst, suc, zero,
}
use flex_toe.Prelude.Rings.{wrap}
use flex_toe.App.State.{AppContext, AtxUpdate}

unfoldable pub probe_loop : (ℕ → Option AtxUpdate) → ℕ → ℕ → ℕ → ℕ → ℕ
probe_loop txq len zero pos avail = avail
probe_loop txq len (suc i) pos avail =
    let rest = probe_loop txq len i (wrap len (pos + 1)) (avail + 1) in
    if ltb avail len then elim (txq pos) [ some u ↦ avail | none ↦ rest ] else avail

unfoldable pub txq_probe : ℕ → AppContext → AppContext
txq_probe n ctx = if ltb (ctx.txq_len / 2) ctx.txq_avail then ctx else record ctx {
  txq_avail =
      probe_loop ctx.txq ctx.txq_len (2 * n) (wrap ctx.txq_len (ctx.txq_tail + ctx.txq_avail + 1))
        ctx.txq_avail;
}

-- A stretch of the ring whose entries are free.
abbrev pub AllFree : (ℕ → Option AtxUpdate) → ℕ → ℕ → ℕ → Type 0
AllFree txq len pos zero = Unit {0}
AllFree txq len pos (suc n) = (txq pos ≡ none) × AllFree txq len (wrap len (pos + 1)) n

-- The loop counts the free entries at the start of the stretch, up to an entry in use, the bound on
-- the rounds or the size of the queue.
probe_loop-AllFree :
    (txq : ℕ → Option AtxUpdate) (len i pos avail : ℕ)
    → avail ≤ len
    → (k : ℕ) × (probe_loop txq len i pos avail ≡ avail + k)
      × AllFree txq len pos k
      × (k ≤ i)
      × (avail + k ≤ len)
unfolding probe_loop
probe_loop-AllFree txq len zero pos avail h = (0, omega arith, tt, omega arith, omega arith)
probe_loop-AllFree txq len (suc i) pos avail h = elim (Bool-cases (ltb avail len)) [
  | inr full ↦ (0, ground (arith, full), tt, omega arith, omega arith)
  | inl more ↦ elim (Option-cases (txq pos)) [
    | inr (u, e) ↦ (0, ground (arith, more, e), tt, omega arith, omega arith)
    | inl e ↦
        let (k, run, free, rounds, fits) =
          probe_loop-AllFree txq len i (wrap len (pos + 1)) (avail + 1) (ground (arith, more)) in
        (suc k, ground (arith, more, e, run), (e, free), omega arith, omega arith)
  ]
]

-- With entries that are all free, the loop goes up to the size of the queue.
pub probe_loop-all :
    (txq : ℕ → Option AtxUpdate) (len i pos avail : ℕ)
    → ((j : ℕ) → txq j ≡ none)
    → avail ≤ len
    → len ≤ avail + i
    → probe_loop txq len i pos avail ≡ len
unfolding probe_loop
probe_loop-all txq len zero pos avail free h k = omega arith
probe_loop-all txq len (suc i) pos avail free h k = elim (Bool-cases (ltb avail len)) [
  | inr full ↦ ground (arith, full)
  | inl more ↦
      let rest =
        probe_loop-all txq len i (wrap len (pos + 1)) (avail + 1) free (ground (arith, more))
          (omega arith) in
      ground (arith, more, free pos, rest)
]

wrap-next :
    (len tail avail : ℕ)
    → tail < len
    → ltb (len / 2) avail ≡ false
    → wrap len (tail + avail + 1) ≡ wrap len (wrap len (tail + avail) + 1)
wrap-next len tail avail h few = ground (arith, few)

AllFree-first :
    (txq : ℕ → Option AtxUpdate) (len pos k : ℕ)
    → txq pos ≡ none
    → AllFree txq len (wrap len (pos + 1)) k
    → AllFree txq len pos (k + 1)
AllFree-first txq len pos k e f =
    let next : suc k ≡ k + 1 = omega arith in subst (AllFree txq len pos) next (e, f)

-- One entry stays unwritten between the newest written entry and the oldest unread one. If that entry is
-- free at the start, then all entries that the probe makes writable are free, and so is the one that
-- is kept between afterwards. At most twice as many as the events asked for are added, and nothing
-- else changes. The queue never has more entries to write than it has entries.
pub txq_probe-AllFree :
    (n : ℕ) (ctx : AppContext)
    → ctx.txq_tail < ctx.txq_len
    → ctx.txq_avail ≤ ctx.txq_len
    → ctx.txq (wrap ctx.txq_len (ctx.txq_tail + ctx.txq_avail)) ≡ none
    → (k : ℕ) × (txq_probe n ctx ≡ record ctx { txq_avail = ctx.txq_avail + k })
      × AllFree ctx.txq ctx.txq_len (wrap ctx.txq_len (ctx.txq_tail + ctx.txq_avail)) (k + 1)
      × (k ≤ 2 * n)
      × (ctx.txq_avail + k ≤ ctx.txq_len)
unfolding txq_probe
txq_probe-AllFree n ctx t h kept =
    let len = ctx.txq_len in
    let first = wrap len (ctx.txq_tail + ctx.txq_avail + 1) in
    let (k, run, free, rounds, fits) =
      probe_loop-AllFree ctx.txq len (2 * n) first ctx.txq_avail h in
    let pos = wrap len (ctx.txq_tail + ctx.txq_avail) in
    elim (Bool-cases (ltb (len / 2) ctx.txq_avail)) [
      | inl many ↦ (
        0,
        rw many (ap (λ a. record ctx { txq_avail = a }) (omega arith)),
        AllFree-first ctx.txq len pos 0 kept tt,
        omega arith,
        omega arith,
      )
      | inr few ↦ (
        k,
        rw few (ap (λ a. record ctx { txq_avail = a }) run),
        AllFree-first ctx.txq len pos k kept (
            subst (λ q. AllFree ctx.txq len q k) (wrap-next len ctx.txq_tail ctx.txq_avail t few)
              free),
        rounds,
        fits,
      )
    ]
