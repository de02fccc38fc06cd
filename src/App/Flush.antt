-- ===== src/App/Flush.antt =====
-- `conns_bump` in lib/tas/init.c: the news for the NIC in the order of the list.
-- The new end of the list.
use flex_toe.Prelude.{ℕ, ◌∷◌, ◌≡◌, List, Option, [], arith, none, refl, some}
use flex_toe.App.Bumps.{bump_first}
use flex_toe.App.Pending.{BumpOk, Chain, Chain-same, final_of}
use flex_toe.App.State.{AppConn, AppContext}

final_after :
    (conns : ℕ → AppConn) (first last : Option ℕ) (id : ℕ) (ids : List ℕ)
    → Chain conns first ids
    → last ≡ final_of (id ∷ ids)
    → elim first as (λ x. Option ℕ) [ none ↦ none | some next ↦ last ] ≡ final_of ids
final_after conns first last id [] c e = rw c refl
final_after conns first last id (i ∷ is) c e = rw c.0 e

-- A connection leaves the front of the list.

pub bump_first-BumpOk :
    (ctx : AppContext) (id : ℕ) (ids : List ℕ)
    → BumpOk ctx (id ∷ ids)
    → BumpOk (bump_first id ctx) ids
bump_first-BumpOk ctx id ids b =
    let (first, behind) = b.chain in
    let (new, distinct) = b.distinct in
    record {
      chain =
          Chain-same ctx.conns (bump_first id ctx).conns (ctx.conns id).bump_next ids
            (λ j m. ground arith) behind;
      last =
          final_after ctx.conns (ctx.conns id).bump_next ctx.bump_pending_last id ids behind b.last;
      distinct = distinct;
      marked = λ i. ground (arith, b.marked i, new);
    }
