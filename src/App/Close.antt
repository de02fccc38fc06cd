-- ===== src/App/Close.antt =====
-- `connection_close` in lib/tas/conn.c: the connection leaves the list of connections with news.
use native.Mathlib.Decide.{ℕ_discrete}
use flex_toe.Prelude.{
  ℕ, ◌==◌, ◌∙◌, ◌∷◌, ◌≡◌, ◌≢◌, ◌≤◌, Bool-cases, List, [], ap, arith, false, inl, inr, length, refl,
  some, subst, sym, true,
}
use flex_toe.App.Pending.{BumpOk, Chain, Chain-same, Distinct, final_of, member}
use flex_toe.App.Requests.{clear_mark, end_at, unlink_behind, unlink_bump}
use flex_toe.App.State.{AppContext}
use flex_toe.App.Unlink.{find_prev-FoundPrev, member-remove, relinked, remove}

remove-absent : (id : ℕ) (ids : List ℕ) → member id ids ≡ false → remove id ids ≡ ids
remove-absent id [] m = refl
remove-absent id (i ∷ is) m =
    let rest = remove-absent id is (ground (arith, m)) in ground (arith, m, rest)

remove-Distinct : (id : ℕ) (ids : List ℕ) → Distinct ids → Distinct (remove id ids)
remove-Distinct id [] d = tt
remove-Distinct id (i ∷ is) (n, d) =
    let rest = remove-Distinct id is d in
    let out : member i (remove id is) ≡ false = ground (arith, n, member-remove id i is d) in
    elim (Bool-cases (i == id)) [ inl q ↦ rw q d | inr q ↦ rw q (out, rest) ]

-- The mark goes once the pointers lead past the connection.
clear_mark-BumpOk :
    (ctx : AppContext) (id : ℕ) (ids : List ℕ)
    → Distinct ids
    → ((i : ℕ) → (ctx.conns i).bump_pending ≡ member i ids)
    → Chain ctx.conns ctx.bump_pending_first (remove id ids)
    → ctx.bump_pending_last ≡ final_of (remove id ids)
    → BumpOk (clear_mark id ctx) (remove id ids)
clear_mark-BumpOk ctx id ids d marks chain last = record {
  chain =
      Chain-same ctx.conns (clear_mark id ctx).conns ctx.bump_pending_first (remove id ids)
        (λ i m. ground arith) chain;
  last = last;
  distinct = remove-Distinct id ids d;
  marked = λ i. ground (arith, marks i, member-remove id i ids d);
}

abbrev pub Unlinked : ℕ → ℕ → AppContext → List ℕ → Type 0
Unlinked fuel id ctx ids =
    (ctx' : AppContext) × (unlink_bump fuel id ctx ≡ some ctx') × BumpOk ctx' (remove id ids)

relinked-marked :
    (ctx : AppContext) (prev id j : ℕ)
    → (relinked ctx.conns prev id j).bump_pending ≡ (ctx.conns j).bump_pending
relinked-marked ctx prev id j = ground arith

module _ (fuel id : ℕ) (ctx : AppContext) where
  unlink_absent : (ids : List ℕ) → BumpOk ctx ids → member id ids ≡ false → Unlinked fuel id ctx ids
  unfolding unlink_bump
  unlink_absent ids b m =
      (ctx, rw (b.marked id, m) refl, subst (BumpOk ctx) (sym (remove-absent id ids m)) b)

  unlink_first :
      (j : ℕ) (js : List ℕ) → BumpOk ctx (id ∷ j ∷ js) → Unlinked fuel id ctx (id ∷ j ∷ js)
  unfolding unlink_bump
  unlink_first j js b =
      let removed : remove id (id ∷ j ∷ js) ≡ j ∷ js = ground arith in
      let next = record ctx { bump_pending_first = (ctx.conns id).bump_next } in
      (
        clear_mark id next,
        ground (arith, b.marked id, b.chain.0),
        clear_mark-BumpOk next id (id ∷ j ∷ js) b.distinct b.marked
            (subst (Chain ctx.conns (ctx.conns id).bump_next) (sym removed) b.chain.1)
            (b.last ∙ ap final_of (sym removed)),
      )

  unlink_head :
      (i : ℕ) (is : List ℕ)
      → i ≡ id
      → BumpOk ctx (i ∷ is)
      → i ∷ is ≢ id ∷ []
      → Unlinked fuel id ctx (i ∷ is)
  unlink_head i [] q b o = absurd (o (ap (λ x. x ∷ []) q))
  unlink_head i (j ∷ js) q b o =
      subst (λ x. Unlinked fuel id ctx (x ∷ j ∷ js)) (sym q)
        (unlink_first j js (subst (λ x. BumpOk ctx (x ∷ j ∷ js)) q b))

  unlink_later :
      (i : ℕ) (is : List ℕ)
      → BumpOk ctx (i ∷ is)
      → i ≢ id
      → member id is ≡ true
      → length (i ∷ is) ≤ fuel
      → Unlinked fuel id ctx (i ∷ is)
  unfolding unlink_bump
  unlink_later i is b o m k =
      let (prev, run, chain, here, last) =
        find_prev-FoundPrev fuel ctx.conns i id is (refl, b.chain.1) b.distinct o m k in
      let removed : remove id (i ∷ is) ≡ i ∷ remove id is = ground (arith, o) in
      let ctx' = unlink_behind prev id ctx in
      let from_first = subst (λ f. Chain ctx'.conns f (i ∷ remove id is)) (sym b.chain.0) chain in
      (
        clear_mark id ctx',
        ground (arith, b.marked id, m, b.chain.0, o, run),
        clear_mark-BumpOk ctx' id (i ∷ is) b.distinct
            (λ j. relinked-marked ctx prev id j ∙ b.marked j)
            (subst (Chain ctx'.conns ctx.bump_pending_first) (sym removed) from_first)
            (ap (end_at prev (ctx.conns id).bump_next) b.last ∙ (last ∙ ap final_of (sym removed))),
      )

-- A connection that closes leaves the list, wherever it stands on it, and the list stays in order, if the
-- connection is not the only one on it. The search through the list ends, and the call does not abort.
pub unlink_bump-BumpOk :
    (fuel id : ℕ) (ctx : AppContext) (ids : List ℕ)
    → BumpOk ctx ids
    → ids ≢ id ∷ []
    → length ids ≤ fuel
    → (ctx' : AppContext) × (unlink_bump fuel id ctx ≡ some ctx') × BumpOk ctx' (remove id ids)
unlink_bump-BumpOk fuel id ctx [] b o k = unlink_absent fuel id ctx [] b refl
unlink_bump-BumpOk fuel id ctx (i ∷ is) b o k = elim (Bool-cases (member id (i ∷ is))) [
  | inr m ↦ unlink_absent fuel id ctx (i ∷ is) b m
  | inl m ↦ elim (ℕ_discrete i id) [
    | no l ↦ unlink_later fuel id ctx i is b l (ground (arith, l, m)) k
    | yes q ↦ unlink_head fuel id ctx i is q b o
  ]
]
