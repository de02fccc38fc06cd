-- ===== src/App/Pending.antt =====
-- The list of connections with news for the NIC, as a list of connections.
use flex_toe.Prelude.{
  ℕ, ◌++◌, ◌==◌, ◌||◌, ◌∙◌, ◌∷◌, ◌≡◌, ◌≢◌, Bool, List, Option, [], ap, arith, false, none, refl,
  some, subst, sym, true,
}
use flex_toe.App.State.{AppConn, AppContext}

abbrev pub member : ℕ → List ℕ → Bool
member i [] = false
member i (j ∷ js) = (j == i) || member i js

abbrev pub Distinct : List ℕ → Type 0
Distinct [] = Unit {0}
Distinct (i ∷ is) = (member i is ≡ false) × Distinct is

abbrev pub final_of : List ℕ → Option ℕ
final_of [] = none
final_of (i ∷ []) = some i
final_of (i ∷ j ∷ js) = final_of (j ∷ js)

-- The pointers lead from the first along the list to the end.
abbrev pub Chain : (ℕ → AppConn) → Option ℕ → List ℕ → Type 0
Chain conns first [] = first ≡ none
Chain conns first (i ∷ is) = (first ≡ some i) × Chain conns (conns i).bump_next is

-- The context's list has exactly the connections that are marked, each once.
pub record BumpOk (ctx : AppContext) (ids : List ℕ) : Type 0 where
  pub chain : Chain ctx.conns ctx.bump_pending_first ids
  pub last : ctx.bump_pending_last ≡ final_of ids
  pub distinct : Distinct ids
  pub marked : (i : ℕ) → (ctx.conns i).bump_pending ≡ member i ids

-- Only the links of the connections on the list matter.
pub Chain-same :
    (conns conns' : ℕ → AppConn) (first : Option ℕ) (ids : List ℕ)
    → ((i : ℕ) → member i ids ≡ true → (conns' i).bump_next ≡ (conns i).bump_next)
    → Chain conns first ids
    → Chain conns' first ids
Chain-same conns conns' first [] same c = c
Chain-same conns conns' first (i ∷ is) same (e, c) =
    let here : (conns' i).bump_next ≡ (conns i).bump_next = same i (ground arith) in
    let rest =
      Chain-same conns conns' (conns i).bump_next is (λ j m. same j (ground (arith, m))) c in
    (e, subst (λ f. Chain conns' f is) (sym here) rest)

pub final_of-member : (ids : List ℕ) (i : ℕ) → final_of ids ≡ some i → member i ids ≡ true
final_of-member [] i e = ground (arith, e)
final_of-member (j ∷ []) i e = ground (arith, e)
final_of-member (j ∷ k ∷ ks) i e = ground (arith, final_of-member (k ∷ ks) i e)

-- What is not in the list is none of its members.
pub not_first : (i p : ℕ) (ids : List ℕ) → member i ids ≡ false → member p ids ≡ true → i ≢ p
not_first i p ids n m q = ground (arith, n, m, ap (λ x. member x ids) q)

-- A connection behind the last one of a list that is not empty.
pub Chain-behind :
    (conns conns' : ℕ → AppConn) (first : Option ℕ) (ids : List ℕ) (p id : ℕ)
    → Distinct ids
    → final_of ids ≡ some p
    → ((i : ℕ) → i ≢ p → i ≢ id → (conns' i).bump_next ≡ (conns i).bump_next)
    → (conns' p).bump_next ≡ some id
    → (conns' id).bump_next ≡ none
    → member id ids ≡ false
    → Chain conns first ids
    → Chain conns' first (ids ++ id ∷ [])
Chain-behind conns conns' first [] p id d l same at_p at_id m c = cc
Chain-behind conns conns' first (i ∷ []) p id d l same at_p at_id m (e, c) =
    let q : i ≡ p = ground (arith, l) in (e, (ap (λ x. (conns' x).bump_next) q ∙ at_p, at_id))
Chain-behind conns conns' first (i ∷ j ∷ js) p id (n, d) l same at_p at_id m (e, c) =
    let in_rest = final_of-member (j ∷ js) p l in
    let other : i ≢ p = not_first i p (j ∷ js) n in_rest in
    let new : i ≢ id = ground (arith, m) in
    let kept = same i other new in
    let rest =
      Chain-behind conns conns' (conns i).bump_next (j ∷ js) p id d l same at_p at_id
        (ground (arith, m)) c in
    (e, subst (λ f. Chain conns' f (j ∷ js ++ id ∷ [])) (sym kept) rest)

pub member-append : (ids : List ℕ) (i j : ℕ) → member j (ids ++ i ∷ []) ≡ (member j ids || (i == j))
member-append [] i j = ground arith
member-append (k ∷ ks) i j = ground (arith, member-append ks i j)

pub Distinct-append :
    (ids : List ℕ) (i : ℕ) → Distinct ids → member i ids ≡ false → Distinct (ids ++ i ∷ [])
Distinct-append [] i d m = (refl, tt)
Distinct-append (k ∷ ks) i (n, d) m =
    (ground (arith, member-append ks i k, n, m), Distinct-append ks i d (ground (arith, m)))

pub final_of-append : (ids : List ℕ) (i : ℕ) → final_of (ids ++ i ∷ []) ≡ some i
final_of-append [] i = refl
final_of-append (j ∷ []) i = refl
final_of-append (j ∷ k ∷ ks) i = final_of-append (k ∷ ks) i
