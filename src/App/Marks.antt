-- ===== src/App/Marks.antt =====
-- `conn_mark_bump` on the list of connections with news for the NIC.
use flex_toe.Prelude.{
  if◌then◌else◌, ℕ, ◌++◌, ◌∷◌, ◌≡◌, Bool-cases, List, [], arith, false, inl, inr, refl, some, subst,
  sym,
}
use flex_toe.App.Bumps.{conn_mark_bump, mark, set_next}
use flex_toe.App.Pending.{
  BumpOk, Chain-behind, Distinct-append, final_of, final_of-append, final_of-member, member,
  member-append, not_first,
}
use flex_toe.App.State.{AppContext}

module _ (ctx : AppContext) (id : ℕ) where
  -- The list is empty.
  mark_first : BumpOk ctx [] → BumpOk (conn_mark_bump id ctx) (id ∷ [])
  unfolding conn_mark_bump
  mark_first b =
      let q : conn_mark_bump id ctx ≡ record (mark id ctx) { bump_pending_first = some id } =
        rw (b.marked id, b.last) refl in
      subst (λ x. BumpOk x (id ∷ [])) (sym q)
        record {
          chain = (refl, ground arith);
          last = refl;
          distinct = (refl, tt);
          marked = λ i. ground (arith, b.marked i);
        }

  mark_behind :
      (ids : List ℕ) (prev : ℕ)
      → BumpOk ctx ids
      → final_of ids ≡ some prev
      → member id ids ≡ false
      → BumpOk (conn_mark_bump id ctx) (ids ++ id ∷ [])
  unfolding conn_mark_bump
  mark_behind ids prev b e m =
      let q : conn_mark_bump id ctx ≡ set_next prev (some id) (mark id ctx) =
        rw (b.marked id, m, b.last, e) refl in
      let in_list = final_of-member ids prev e in
      let other = not_first id prev ids m in_list in
      subst (λ x. BumpOk x (ids ++ id ∷ [])) (sym q)
        record {
          chain =
              Chain-behind ctx.conns (set_next prev (some id) (mark id ctx)).conns
                ctx.bump_pending_first ids prev id b.distinct e (λ i n o. ground (arith, n, o))
                (ground arith) (ground (arith, other)) m b.chain;
          last = sym (final_of-append ids id);
          distinct = Distinct-append ids id b.distinct m;
          marked = λ i.
              ground (arith, b.marked i, b.marked prev, in_list, other, member-append ids id i);
        }

-- A list that is not empty has a last member.
final_of-some : (i : ℕ) (is : List ℕ) → (p : ℕ) × (final_of (i ∷ is) ≡ some p)
final_of-some i [] = (i, refl)
final_of-some i (j ∷ js) = final_of-some j js

-- A mark keeps the list in order: a connection that is on it stays where it is, and one that is not
-- becomes the last.
pub conn_mark_bump-BumpOk :
    (id : ℕ) (ctx : AppContext) (ids : List ℕ)
    → BumpOk ctx ids
    → BumpOk (conn_mark_bump id ctx) (if member id ids then ids else ids ++ id ∷ [])
unfolding conn_mark_bump
conn_mark_bump-BumpOk id ctx [] b = mark_first ctx id b
conn_mark_bump-BumpOk id ctx (i ∷ is) b = elim (Bool-cases (member id (i ∷ is))) [
  | inl h ↦
      let same : conn_mark_bump id ctx ≡ ctx = rw (b.marked id, h) refl in
      rw h (subst (λ x. BumpOk x (i ∷ is)) (sym same) b)
  | inr h ↦ let (p, e) = final_of-some i is in rw h (mark_behind ctx id (i ∷ is) p b e h)
]
