-- ===== src/App/News.antt =====
-- The rounds of `conns_bump` in lib/tas/init.c: what it tells the NIC, and in which order.
-- The round trips of the loop on the connections `now` of the list, with `later` left on it.
use native.Mathlib.Decide.{ℕ_discrete}
use flex_toe.Prelude.{
  if◌then◌else◌, ℕ, ◌++◌, ◌+◌, ◌<◌, ◌∙◌, ◌∷◌, ◌≡◌, ◌≢◌, ◌≤◌, ◌⊎◌, List, [], ap, arith, false, inl,
  inr, length, map, refl, some, subst, suc, sym, true, update, update_ne, zero,
}
use flex_toe.Prelude.Rings.{wrap, write_all}
use flex_toe.App.Bumps.{bump_first, bump_loop, told, update_of}
use flex_toe.App.Flush.{bump_first-BumpOk}
use flex_toe.App.Pending.{BumpOk, member}
use flex_toe.App.State.{AppConn, AppContext, AppStatus}

pub record Told (before after : AppContext) (now later : List ℕ) : Type 0 where
  pub conns_told :
      (i : ℕ) → after.conns i ≡ (if member i now then told (before.conns i) else before.conns i)
  pub left : BumpOk after later
  pub entries :
      after.txq
      ≡ write_all before.txq before.txq_len before.txq_tail
          (map (λ i. some (update_of (before.conns i))) now)
  pub avail : after.txq_avail + length now ≡ before.txq_avail
  pub same_len : after.txq_len ≡ before.txq_len
  pub tail : after.txq_tail ≡ wrap before.txq_len (before.txq_tail + length now)
  pub reg : after.p_idx ≡ before.p_idx

-- An update for every connection of a list does not depend on the others.
map-others :
    (conns : ℕ → AppConn) (id : ℕ) (c : AppConn) (ids : List ℕ)
    → member id ids ≡ false
    → map (λ i. some (update_of (update conns id c i))) ids
      ≡ map (λ i. some (update_of (conns i))) ids
map-others conns id c [] m = refl
map-others conns id c (i ∷ is) m =
    let other : id ≢ i = ground (arith, m) in
    let here = update_ne conns id i c other in
    let rest = map-others conns id c is (ground (arith, m)) in cc

-- No round.
no_round :
    (ctx : AppContext) (ids : List ℕ)
    → BumpOk ctx ids
    → ctx.txq_tail < ctx.txq_len
    → Told ctx ctx [] ids
no_round ctx ids b h = record {
  conns_told = λ i. refl;
  left = b;
  entries = refl;
  avail = omega arith;
  same_len = refl;
  tail = ground (arith, h);
  reg = refl;
}

told_one :
    (conns : ℕ → AppConn) (id i : ℕ) (now : List ℕ) {c : AppConn}
    → member id now ≡ false
    → c ≡ (
        if member i now
        then told (update conns id (told (conns id)) i)
        else update conns id (told (conns id)) i)
    → c ≡ (if member i (id ∷ now) then told (conns i) else conns i)
told_one conns id i now new e = elim (ℕ_discrete id i) [
  | yes q ↦
      let out : member i now ≡ false = subst (λ j. member j now ≡ false) q new in
      ground (arith, e, q, out, ap conns q)
  | no n ↦ ground (arith, e, n)
]

wrap-wrap :
    (len pos n : ℕ)
    → pos < len
    → suc n ≤ len
    → wrap len (wrap len (pos + 1) + n) ≡ wrap len (pos + suc n)
wrap-wrap len pos n h k = ground arith

-- One more round before the others.
one_more_round :
    (ctx after : AppContext) (id : ℕ) (now later : List ℕ)
    → member id now ≡ false
    → ctx.txq_tail < ctx.txq_len
    → suc (length now) ≤ ctx.txq_len
    → 0 < ctx.txq_avail
    → Told (bump_first id ctx) after now later
    → Told ctx after (id ∷ now) later
one_more_round ctx after id now later new h k room t = record {
  conns_told = λ i. told_one ctx.conns id i now new (t.conns_told i);
  left = t.left;
  entries =
      t.entries
      ∙ ap
          (write_all (update ctx.txq ctx.txq_tail (some (update_of (ctx.conns id)))) ctx.txq_len
            (wrap ctx.txq_len (ctx.txq_tail + 1)))
          (map-others ctx.conns id (told (ctx.conns id)) now new);
  avail = omega (arith, t.avail, room);
  same_len = t.same_len;
  tail = t.tail ∙ wrap-wrap ctx.txq_len ctx.txq_tail (length now) h k;
  reg = t.reg;
}

still_opened :
    (ctx : AppContext) (id i : ℕ)
    → (ctx.conns id).status ≡ AppStatus.opened
    → (ctx.conns i).status ≡ AppStatus.opened
    → ((bump_first id ctx).conns i).status ≡ AppStatus.opened
still_opened ctx id i o p = ground (arith, o, p)

not_before : (xs ys : List ℕ) (i : ℕ) → member i (xs ++ ys) ≡ false → member i xs ≡ false
not_before [] ys i m = refl
not_before (x ∷ xs) ys i m = ground (arith, m, not_before xs ys i (ground (arith, m)))

one_round :
    (n : ℕ) (ctx : AppContext) (id : ℕ)
    → ctx.bump_pending_first ≡ some id
    → (ctx.conns id).status ≡ AppStatus.opened
    → bump_loop (suc n) ctx ≡ bump_loop n (bump_first id ctx)
unfolding bump_loop
one_round n ctx id e o = ground (arith, e, o)

-- The rounds end with the list or with the room in the queue.
pub bump_loop-Told :
    (n : ℕ) (ctx : AppContext) (ids : List ℕ)
    → BumpOk ctx ids
    → ((i : ℕ) → member i ids ≡ true → (ctx.conns i).status ≡ AppStatus.opened)
    → ctx.txq_tail < ctx.txq_len
    → ctx.txq_avail ≤ ctx.txq_len
    → n ≡ ctx.txq_avail
    → (after : AppContext) × (now : List ℕ) × (later : List ℕ) × (bump_loop n ctx ≡ some after)
      × (ids ≡ now ++ later)
      × Told ctx after now later
      × ((later ≡ []) ⊎ (after.txq_avail ≡ 0))
unfolding bump_loop
bump_loop-Told zero ctx [] b o h k e =
    (ctx, [], [], rw b.chain refl, refl, no_round ctx [] b h, inl refl)
bump_loop-Told zero ctx (id ∷ ids) b o h k e =
    let ok = o id (ground arith) in
    (ctx, [], id ∷ ids, rw (b.chain.0, ok) refl, refl, no_round ctx (id ∷ ids) b h, inr (sym e))
bump_loop-Told (suc n) ctx [] b o h k e =
    (ctx, [], [], rw b.chain refl, refl, no_round ctx [] b h, inl refl)
bump_loop-Told (suc n) ctx (id ∷ ids) b o h k e =
    let ok = o id (ground arith) in
    let (after, now, later, run, parts, t, ends) =
      bump_loop-Told n (bump_first id ctx) ids (bump_first-BumpOk ctx id ids b)
        (λ i m. still_opened ctx id i ok (o i (ground (arith, m)))) (ground arith)
        (omega (arith, k)) (omega (arith, e)) in
    let new = not_before now later id (subst (λ l. member id l ≡ false) parts b.distinct.0) in
    (
      after,
      id ∷ now,
      later,
      one_round n ctx id b.chain.0 ok ∙ run,
      ap (λ l. id ∷ l) parts,
      one_more_round ctx after id now later new h (omega (arith, e, k, t.avail)) (omega (arith, e))
          t,
      ends,
    )
