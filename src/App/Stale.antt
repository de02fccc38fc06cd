-- ===== src/App/Stale.antt =====
-- The end of the list of connections with news after `connection_close` in lib/tas/conn.c.
use native.Mathlib.Decide.{ℕ_discrete}
use flex_toe.Prelude.{
  ℕ, ◌==◌, ◌||◌, ◌∙◌, ◌∷◌, ◌≡◌, Bool, Bool-cases, List, Option, [], ap, arith, inl, inr, none, refl,
  some, subst, suc, sym, true, zero,
}
use flex_toe.App.Bumps.{bump_loop, conn_mark_bump, conns_bump, mark, put_conn, set_next}
use flex_toe.App.Pending.{BumpOk, member}
use flex_toe.App.Refill.{finish_with}
use flex_toe.App.Requests.{
  clear_mark, connection_close, pushed_or, put_request, request_close, unlink_bump,
}
use mathlib.Core.Option
use flex_toe.App.State.{AppContext, AppStatus, SpRequest}

abbrev pub mark_all : List ℕ → AppContext → AppContext
mark_all [] ctx = ctx
mark_all (j ∷ js) ctx = mark_all js (conn_mark_bump j ctx)

-- A list without a first connection, whose last one is left behind; the marks are on `ids`.
record StuckList (ctx : AppContext) (ids : List ℕ) : Type 0 where
  no_first : ctx.bump_pending_first ≡ none
  some_last : (p : ℕ) × (ctx.bump_pending_last ≡ some p)
  marks : (i : ℕ) → (ctx.conns i).bump_pending ≡ member i ids

already_marked :
    (ctx : AppContext) (ids : List ℕ) (j i : ℕ)
    → (ctx.conns j).bump_pending ≡ true
    → (ctx.conns i).bump_pending ≡ member i ids
    → (ctx.conns i).bump_pending ≡ member i (j ∷ ids)
already_marked ctx ids j i m e = elim (ℕ_discrete j i) [
  | yes q ↦ ap (λ x. (ctx.conns x).bump_pending) (sym q) ∙ (m ∙ ground (arith, q))
  | no n ↦ ground (arith, n, e)
]

newly_marked :
    (ctx : AppContext) (ids : List ℕ) (p j i : ℕ)
    → (ctx.conns i).bump_pending ≡ member i ids
    → ((set_next p (some j) (mark j ctx)).conns i).bump_pending ≡ member i (j ∷ ids)
newly_marked ctx ids p j i e = elim (ℕ_discrete p i) [
  | yes q ↦ ground (arith, q, e, ap (λ x. ((mark j ctx).conns x).bump_pending) q)
  | no n ↦ ground (arith, n, e)
]

conn_mark_bump-StuckList :
    (j : ℕ) (ctx : AppContext) (ids : List ℕ)
    → StuckList ctx ids
    → StuckList (conn_mark_bump j ctx) (j ∷ ids)
unfolding conn_mark_bump
conn_mark_bump-StuckList j ctx ids s =
    let (p, last) = s.some_last in
    elim (Bool-cases (ctx.conns j).bump_pending) [
      | inl m ↦
          let same : conn_mark_bump j ctx ≡ ctx = rw m refl in
          subst (λ x. StuckList x (j ∷ ids)) (sym same)
            record {
              no_first = s.no_first;
              some_last = s.some_last;
              marks = λ i. already_marked ctx ids j i m (s.marks i);
            }
      | inr m ↦
          let new : conn_mark_bump j ctx ≡ set_next p (some j) (mark j ctx) = rw (m, last) refl in
          subst (λ x. StuckList x (j ∷ ids)) (sym new)
            record {
              no_first = s.no_first;
              some_last = (j, refl);
              marks = λ i. newly_marked ctx ids p j i (s.marks i);
            }
    ]

mark_all-StuckList :
    (js : List ℕ) (ctx : AppContext) (ids : List ℕ)
    → StuckList ctx ids
    → (ids' : List ℕ) × StuckList (mark_all js ctx) ids'
      × ((i : ℕ) → member i ids' ≡ (member i ids || member i js))
mark_all-StuckList [] ctx ids s = (ids, s, λ i. ground arith)
mark_all-StuckList (j ∷ js) ctx ids s =
    let (ids', s', m) =
      mark_all-StuckList js (conn_mark_bump j ctx) (j ∷ ids)
        (conn_mark_bump-StuckList j ctx ids s) in
    (ids', s', λ i. ground (arith, m i))

bump_loop-stuck :
    (n : ℕ) (ctx : AppContext) → ctx.bump_pending_first ≡ none → bump_loop n ctx ≡ some ctx
unfolding bump_loop
bump_loop-stuck zero ctx e = rw e refl
bump_loop-stuck (suc n) ctx e = rw e refl

conns_bump-stuck : (ctx : AppContext) → ctx.bump_pending_first ≡ none → conns_bump ctx ≡ some ctx
unfolding conns_bump
conns_bump-stuck ctx e =
    let same : (ctx.txq_avail == ctx.txq_avail) ≡ true = ground arith in
    ap (finish_with ctx) (bump_loop-stuck ctx.txq_avail ctx e) ∙ rw same refl

-- The only connection on the list leaves it.
unlink_bump-StuckList :
    (fuel id : ℕ) (ctx : AppContext)
    → BumpOk ctx (id ∷ [])
    → (ctx' : AppContext) × (unlink_bump fuel id ctx ≡ some ctx') × StuckList ctx' []
unfolding unlink_bump
unlink_bump-StuckList fuel id ctx b =
    let next = record ctx { bump_pending_first = (ctx.conns id).bump_next } in
    (
      clear_mark id next,
      ground (arith, b.marked id, b.chain.0),
      record {
        no_first = b.chain.1;
        some_last = (id, b.last);
        marks = λ i. ground (arith, b.marked i);
      },
    )

-- The request to the slow path, sent or not, does not touch the list.
pushed_or-StuckList :
    (old : Option SpRequest) (r : SpRequest) (ctx closing : AppContext)
    → StuckList ctx []
    → StuckList closing []
    → StuckList (pushed_or (put_request old r closing) ctx).0 []
pushed_or-StuckList (some old) r ctx closing s s' = s
pushed_or-StuckList none r ctx closing s s' = record {
  no_first = s'.no_first;
  some_last = s'.some_last;
  marks = s'.marks;
}

request_close-StuckList :
    (id : ℕ) (ctx : AppContext) → StuckList ctx [] → StuckList (request_close id ctx).0 []
request_close-StuckList id ctx s =
    let c = ctx.conns id in
    let r = SpRequest.conn_close id c.remote_ip c.remote_port c.local_ip c.local_port in
    let closing = put_conn id (record c { status = AppStatus.close_requested }) ctx in
    pushed_or-StuckList (ctx.spin ctx.spin_head) r ctx closing s record {
      no_first = s.no_first;
      some_last = s.some_last;
      marks = λ i. ground (arith, s.marks i);
    }

-- When the only connection with news for the NIC closes, the end of the list still leads to it. The connections that are marked
-- after that, whichever they are, have their marks, and `conns_bump` tells the NIC about none of
-- them: it returns without a change.
pub connection_close-stale :
    (fuel id : ℕ) (ctx : AppContext) (js : List ℕ)
    → BumpOk ctx (id ∷ [])
    → (ctx' : AppContext) × (ok : Bool) × (connection_close fuel id ctx ≡ some (ctx', ok))
      × ((i : ℕ) → ((mark_all js ctx').conns i).bump_pending ≡ member i js)
      × (conns_bump (mark_all js ctx') ≡ some (mark_all js ctx'))
unfolding connection_close
connection_close-stale fuel id ctx js b =
    let (ctx', run, s) = unlink_bump-StuckList fuel id ctx b in
    let result = request_close id ctx' in
    let (ids, s', m) = mark_all-StuckList js result.0 [] (request_close-StuckList id ctx' s) in
    (
      result.0,
      result.1,
      ap (Option.map (request_close id)) run,
      (λ i. s'.marks i ∙ m i),
      conns_bump-stuck (mark_all js result.0) s'.no_first,
    )
