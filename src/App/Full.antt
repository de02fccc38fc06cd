-- ===== src/App/Full.antt =====
-- `txq_probe` and `conns_bump` in lib/tas/init.c with a queue to the NIC that is empty.
use mathlib.Core.List.{append-nil}
use flex_toe.Prelude.{
  ℕ, ◌%◌, ◌*◌, ◌++◌, ◌+◌, ◌/◌, ◌<◌, ◌^◌, ◌∙◌, ◌∷◌, ◌≡◌, ◌≤◌, List, [], ap, arith, false, inl, inr,
  length, length-append, ltb, map, none, refl, some, subst, sym, true,
}
use flex_toe.Prelude.Rings.{slots_from, wrap}
use flex_toe.App.Bumps.{conns_bump, update_of}
use flex_toe.App.Pending.{BumpOk, member}
use flex_toe.App.Probe.{probe_loop-all, txq_probe}
use flex_toe.App.Refill.{conns_bump-told, is_empty}
use flex_toe.App.State.{AppContext, AppStatus}

length-zero : (l : List ℕ) → length l ≡ 0 → l ≡ []
length-zero [] e = refl
length-zero (x ∷ l) e = absurd (ground arith)

is_empty-false : (l : List ℕ) → 0 < length l → is_empty l ≡ false
is_empty-false [] h = absurd (ground arith)
is_empty-false (x ∷ l) h = refl

probed :
    (n : ℕ) (ctx : AppContext)
    → ((j : ℕ) → ctx.txq j ≡ none)
    → ctx.txq_avail ≤ ctx.txq_len / 2
    → ctx.txq_len ≤ ctx.txq_avail + 2 * n
    → txq_probe n ctx ≡ record ctx { txq_avail = ctx.txq_len }
unfolding txq_probe
probed n ctx free h k =
    let few : ltb (ctx.txq_len / 2) ctx.txq_avail ≡ false = ground arith in
    let first = wrap ctx.txq_len (ctx.txq_tail + ctx.txq_avail + 1) in
    let all = probe_loop-all ctx.txq ctx.txq_len (2 * n) first ctx.txq_avail free (omega arith) k in
    rw few (ap (λ a. record ctx { txq_avail = a }) all)

-- When the NIC has taken all entries of the queue, a poll for enough events makes every entry of the
-- queue available, the one that is to stay between included. With news about as many connections as the queue
-- has entries, all of them are then written, no entry is left, and the register says the position that
-- it said before the poll.
pub txq_probe-full :
    (n : ℕ) (ctx : AppContext) (ids : List ℕ)
    → BumpOk ctx ids
    → ((i : ℕ) → member i ids ≡ true → (ctx.conns i).status ≡ AppStatus.opened)
    → ((j : ℕ) → ctx.txq j ≡ none)
    → ctx.txq_tail < ctx.txq_len
    → ctx.txq_avail ≤ ctx.txq_len / 2
    → ctx.txq_len ≤ ctx.txq_avail + 2 * n
    → length ids ≡ ctx.txq_len
    → ctx.p_idx ≡ ctx.txq_tail % 2 ^ 16
    → (after : AppContext) × (conns_bump (txq_probe n ctx) ≡ some after)
      × (slots_from after.txq ctx.txq_len ctx.txq_tail ctx.txq_len
          ≡ map (λ i. some (update_of (ctx.conns i))) ids)
      × (after.txq_avail ≡ 0)
      × (after.p_idx ≡ ctx.p_idx)
txq_probe-full n ctx ids b o free h few k all reg =
    let full = record ctx { txq_avail = ctx.txq_len } in
    let b' : BumpOk full ids = record {
      chain = b.chain;
      last = b.last;
      distinct = b.distinct;
      marked = b.marked;
    } in
    let (after, now, later, run, parts, avail, ends, written, conns, ok, p_idx) =
      conns_bump-told full ids b' o h (omega arith) in
    let count = length-append now later in
    let none_left : length later ≡ 0 = elim ends [
      | inl e ↦ ap length e
      | inr e ↦ omega (arith, e, avail, count, ap length parts, all)
    ] in
    let whole : length now ≡ ctx.txq_len = omega (arith, none_left, count, ap length parts, all) in
    let same : ids ≡ now =
      parts ∙ (ap (λ l. now ++ l) (length-zero later none_left) ∙ append-nil now) in
    let some_now = is_empty-false now (omega (arith, whole, h)) in
    let around : wrap ctx.txq_len (ctx.txq_tail + length now) ≡ ctx.txq_tail =
      ground (arith, whole, h) in
    (
      after,
      ap conns_bump (probed n ctx free few k) ∙ run,
      subst
          (λ l.
            slots_from after.txq ctx.txq_len ctx.txq_tail ctx.txq_len
            ≡ map (λ i. some (update_of (ctx.conns i))) l)
          (sym same)
          (subst
            (λ m.
              slots_from after.txq ctx.txq_len ctx.txq_tail m
              ≡ map (λ i. some (update_of (ctx.conns i))) now)
            whole written),
      omega (arith, avail, whole),
      p_idx ∙ (rw some_now (ap (λ p. p % 2 ^ 16) around ∙ sym reg)),
    )
