-- ===== src/App/Refill.antt =====
-- All of `conns_bump` in lib/tas/init.c.
use flex_toe.Prelude.{
  if◌then◌else◌, ℕ, ◌%◌, ◌++◌, ◌+◌, ◌<◌, ◌==◌, ◌^◌, ◌∙◌, ◌∷◌, ◌≡◌, ◌≤◌, ◌⊎◌, Bool, List, Option, [],
  ap, arith, false, length, length-map, map, none, refl, some, sym, true,
}
use flex_toe.Prelude.Rings.{slots_from, slots_from-write_all, wrap, write_all}
use flex_toe.App.Bumps.{bump_loop, conns_bump, told, tx_done, update_of}
use flex_toe.App.News.{Told, bump_loop-Told}
use flex_toe.App.Pending.{BumpOk, member}
use flex_toe.App.State.{AppContext, AppStatus}

abbrev pub is_empty : List ℕ → Bool
is_empty [] = true
is_empty (x ∷ xs) = false

-- The register is written exactly if the loop had a round.
tx_done-BumpOk : (ctx : AppContext) (ids : List ℕ) → BumpOk ctx ids → BumpOk (tx_done ctx) ids
tx_done-BumpOk ctx ids b = record {
  chain = b.chain;
  last = b.last;
  distinct = b.distinct;
  marked = b.marked;
}

abbrev pub finish_with : AppContext → Option AppContext → Option AppContext
finish_with ctx none = none
finish_with ctx (some after) =
    some (if after.txq_avail == ctx.txq_avail then after else tx_done after)

with_register :
    (ctx after : AppContext) (now later : List ℕ)
    → bump_loop ctx.txq_avail ctx ≡ some after
    → Told ctx after now later
    → conns_bump ctx ≡ some (if is_empty now then after else tx_done after)
unfolding conns_bump
with_register ctx after [] later run t =
    let finish = finish_with ctx in
    let all : (after.txq_avail == ctx.txq_avail) ≡ true = ground (arith, t.avail) in
    ap finish run ∙ rw all refl
with_register ctx after (i ∷ is) later run t =
    let finish = finish_with ctx in
    let fewer : (after.txq_avail == ctx.txq_avail) ≡ false = ground (arith, t.avail) in
    ap finish run ∙ rw fewer refl

-- What an application can see of the result does not depend on the register.
module _ (ctx after : AppContext) (later : List ℕ) (b : BumpOk after later) where
  finished :
      (now : List ℕ)
      → Told ctx after now later
      → BumpOk (if is_empty now then after else tx_done after) later
        × ((if is_empty now then after else tx_done after).p_idx
            ≡ (if is_empty now then ctx.p_idx else after.txq_tail % 2 ^ 16))
        × ((if is_empty now then after else tx_done after).conns ≡ after.conns)
        × ((if is_empty now then after else tx_done after).txq ≡ after.txq)
        × ((if is_empty now then after else tx_done after).txq_avail ≡ after.txq_avail)
  finished [] t = (b, t.reg, refl, refl, refl)
  finished (i ∷ is) t = (tx_done-BumpOk after later b, refl, refl, refl, refl)

-- With all connections of the list open, `conns_bump` has a result. It tells the NIC about the connections at
-- the front of the list, one entry of the queue each, in the order of the list, with what they have to
-- bump, and these connections have nothing to bump and no mark after it; the others stay, on a list that is in order, and only if the queue
-- is full.
pub conns_bump-told :
    (ctx : AppContext) (ids : List ℕ)
    → BumpOk ctx ids
    → ((i : ℕ) → member i ids ≡ true → (ctx.conns i).status ≡ AppStatus.opened)
    → ctx.txq_tail < ctx.txq_len
    → ctx.txq_avail ≤ ctx.txq_len
    → (after : AppContext) × (now : List ℕ) × (later : List ℕ) × (conns_bump ctx ≡ some after)
      × (ids ≡ now ++ later)
      × (after.txq_avail + length now ≡ ctx.txq_avail)
      × ((later ≡ []) ⊎ (after.txq_avail ≡ 0))
      × (slots_from after.txq ctx.txq_len ctx.txq_tail (length now)
          ≡ map (λ i. some (update_of (ctx.conns i))) now)
      × ((i : ℕ) → after.conns i ≡ (if member i now then told (ctx.conns i) else ctx.conns i))
      × BumpOk after later
      × (after.p_idx ≡ (
          if is_empty now
          then ctx.p_idx
          else wrap ctx.txq_len (ctx.txq_tail + length now) % 2 ^ 16))
unfolding conns_bump
conns_bump-told ctx ids b o h k =
    let (after, now, later, run, parts, t, ends) =
      bump_loop-Told ctx.txq_avail ctx ids b o h k refl in
    let news = map (λ i. some (update_of (ctx.conns i))) now in
    let count = length-map (λ i. some (update_of (ctx.conns i))) now in
    let written =
      slots_from-write_all ctx.txq ctx.txq_len ctx.txq_tail news h
        (omega (arith, count, t.avail, k)) in
    let (ok, reg, conns, txq, avail) = finished ctx after later t.left now t in
    (
      (if is_empty now then after else tx_done after),
      now,
      later,
      with_register ctx after now later run t,
      parts,
      rw avail t.avail,
      rw avail ends,
      ap (λ q. slots_from q ctx.txq_len ctx.txq_tail (length now)) (txq ∙ t.entries)
          ∙ (ap
                (slots_from (write_all ctx.txq ctx.txq_len ctx.txq_tail news) ctx.txq_len
                  ctx.txq_tail)
                (sym count)
              ∙ written),
      (λ i. ap (λ f. f i) conns ∙ t.conns_told i),
      ok,
      rw (sym t.tail) reg,
    )
