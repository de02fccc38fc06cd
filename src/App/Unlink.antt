-- ===== src/App/Unlink.antt =====
-- The first part of `connection_close` in lib/tas/conn.c on the list of connections with news.
use native.Mathlib.Decide.{ℕ_discrete}
use flex_toe.Prelude.{
  if◌then◌else◌, ℕ, ◌&&◌, ◌==◌, ◌∙◌, ◌∷◌, ◌≡◌, ◌≢◌, ◌≤◌, List, [], ap, arith, false, length, not,
  refl, some, subst, suc, sym, true, update, zero,
}
use flex_toe.App.Pending.{Chain, Chain-same, Distinct, final_of, member, not_first}
use flex_toe.App.Requests.{Walk, end_at, find_prev}
use flex_toe.App.State.{AppConn}

abbrev pub remove : ℕ → List ℕ → List ℕ
remove id [] = []
remove id (i ∷ is) = if i == id then is else i ∷ remove id is

abbrev pub relinked : (ℕ → AppConn) → ℕ → ℕ → ℕ → AppConn
relinked conns prev id =
    update conns prev (record (conns prev) { bump_next = (conns id).bump_next })

pub member-remove :
    (id i : ℕ) (ids : List ℕ)
    → Distinct ids
    → member i (remove id ids) ≡ (member i ids && not (i == id))
member-remove id i [] d = refl
member-remove id i (j ∷ js) (n, d) = elim (ℕ_discrete j id) [
  | yes q ↦
      let out : member id js ≡ false = subst (λ x. member x js ≡ false) q n in
      elim (ℕ_discrete i id) [
        | yes r ↦ ground (arith, q, r, out, ap (λ x. member x js) r)
        | no l ↦ ground (arith, q, l)
      ]
  | no m ↦ ground (arith, m, member-remove id i js d)
]

end_at-final :
    (conns : ℕ → AppConn) (i j : ℕ) (js : List ℕ)
    → Chain conns (conns j).bump_next js
    → end_at i (conns j).bump_next (final_of (i ∷ j ∷ js)) ≡ final_of (i ∷ js)
end_at-final conns i j [] c = rw c refl
end_at-final conns i j (k ∷ ks) c = rw c.0 refl

abbrev pub FoundPrev : ℕ → (ℕ → AppConn) → ℕ → ℕ → List ℕ → Type 0
FoundPrev n conns i id ids =
    (prev : ℕ) × (find_prev n conns (some i) id ≡ Walk.at prev)
    × Chain (relinked conns prev id) (some i) (i ∷ remove id ids)
    × (member prev (i ∷ remove id ids) ≡ true)
    × (end_at prev (conns id).bump_next (final_of (i ∷ ids)) ≡ final_of (i ∷ remove id ids))

module _ (n : ℕ) (conns : ℕ → AppConn) (i j id : ℕ) (js : List ℕ) (e : (conns i).bump_next ≡ some j)
    (d : Distinct (i ∷ j ∷ js)) where
  relinked-other : (l : ℕ) → i ≢ l → (relinked conns i id l).bump_next ≡ (conns l).bump_next
  relinked-other l o = ground (arith, o)

  found_here : Chain conns (conns j).bump_next js → j ≡ id → FoundPrev (suc n) conns i id (j ∷ js)
  unfolding find_prev
  found_here c q =
      let removed : remove id (j ∷ js) ≡ js = ground (arith, q) in
      let same =
        Chain-same conns (relinked conns i id) (conns j).bump_next js
          (λ l m. relinked-other l (not_first i l (j ∷ js) d.0 (ground (arith, m)))) c in
      let next : (conns id).bump_next ≡ (conns j).bump_next =
        ap (λ x. (conns x).bump_next) (sym q) in
      let head : (relinked conns i id i).bump_next ≡ (conns j).bump_next = ground (arith, next) in
      let behind = subst (λ f. Chain (relinked conns i id) f js) (sym head) same in
      let chain =
        subst (λ l. Chain (relinked conns i id) (relinked conns i id i).bump_next l) (sym removed)
          behind in
      let last =
        subst (λ l. end_at i (conns j).bump_next (final_of (j ∷ js)) ≡ final_of (i ∷ l))
          (sym removed) (end_at-final conns i j js c) in
      (
        i,
        ground (arith, e, q),
        (refl, chain),
        ground arith,
        ap (λ f. end_at i f (final_of (j ∷ js))) next ∙ last,
      )

  found_later : j ≢ id → FoundPrev n conns j id js → FoundPrev (suc n) conns i id (j ∷ js)
  unfolding find_prev
  found_later q (prev, run, chain, here, last) =
      let removed : remove id (j ∷ js) ≡ j ∷ remove id js = ground (arith, q) in
      let out : member i (j ∷ remove id js) ≡ false =
        ground (arith, d.0, member-remove id i js d.1.1) in
      let other = not_first i prev (j ∷ remove id js) out here in
      let head : (relinked conns prev id i).bump_next ≡ some j = ground (arith, e, other) in
      let behind =
        subst (λ f. Chain (relinked conns prev id) f (j ∷ remove id js)) (sym head) chain in
      (
        prev,
        ground (arith, e, q, run),
        (
          refl,
          subst (λ l. Chain (relinked conns prev id) (relinked conns prev id i).bump_next l)
              (sym removed) behind,
        ),
        subst (λ l. member prev (i ∷ l) ≡ true) (sym removed) (ground (arith, here)),
        subst (λ l. end_at prev (conns id).bump_next (final_of (j ∷ js)) ≡ final_of (i ∷ l))
            (sym removed) last,
      )

-- The search finds the connection before the one that leaves.
pub find_prev-FoundPrev :
    (n : ℕ) (conns : ℕ → AppConn) (i id : ℕ) (ids : List ℕ)
    → Chain conns (some i) (i ∷ ids)
    → Distinct (i ∷ ids)
    → i ≢ id
    → member id ids ≡ true
    → length (i ∷ ids) ≤ n
    → FoundPrev n conns i id ids
find_prev-FoundPrev n conns i id [] c d o m k = ground (arith, m)
find_prev-FoundPrev zero conns i id (j ∷ js) c d o m k = ground (arith, k)
find_prev-FoundPrev (suc n) conns i id (j ∷ js) (e, (f, c)) (out, d) o m k =
    elim (ℕ_discrete j id) [
      | yes q ↦ found_here n conns i j id js f (out, d) c q
      | no l ↦
          found_later n conns i j id js f (out, d) l
            (find_prev-FoundPrev n conns j id js (refl, c) d l (ground (arith, m, l))
              (omega (arith, k)))
    ]
