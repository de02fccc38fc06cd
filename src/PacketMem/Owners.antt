-- ===== src/PacketMem/Owners.antt =====
-- The owners of each byte of a zone of user/packetmem.c, before and after a call.
use flex_toe.Prelude.{
  if◌then◌else◌, ℕ, ◌&&◌, ◌+◌, ◌==◌, ◌∷◌, ◌≡◌, ◌≤◌, Bool, Bool-cases, List, Option-cases, [], arith,
  false, inl, inr, leb, ltb, some,
}
use flex_toe.Prelude.Words.{add64}
use flex_toe.PacketMem.{
  Region, free_after, huge_page_size, merge_items, merge_successor, packetmem_zone_alloc, zone_free,
}

-- How often a byte is owned: by a region, by a list of regions.
abbrev pub owns : ℕ → Region → ℕ
owns a r = if leb r.base a && ltb a (r.base + r.len) then 1 else 0

abbrev pub owners : ℕ → List Region → ℕ
owners a [] = 0
owners a (r ∷ l) = owns a r + owners a l

-- The regions lie in their page.
abbrev pub InPage : List Region → Type 0
InPage [] = Unit {0}
InPage (r ∷ l) = (r.base + r.len ≤ huge_page_size) × InPage l

-- What a successful allocation in a zone gives: the length asked for, out of the free bytes.
pub record Taken (size : ℕ) (l : List Region) (r : Region) (l' : List Region) : Type 0 where
  pub exact : r.len ≡ size
  pub in_page : InPage (r ∷ l')
  pub from_free : (a : ℕ) → owns a r + owners a l' ≡ owners a l

zone_alloc-split :
    (malloc_ok : Bool) (size : ℕ) (ph : Region) (rest : List Region) (r : Region) (l' : List Region)
    → InPage (ph ∷ rest)
    → ltb ph.len size ≡ false
    → packetmem_zone_alloc malloc_ok size (ph ∷ rest) ≡ some (r, l')
    → Taken size (ph ∷ rest) r l'
unfolding packetmem_zone_alloc
zone_alloc-split malloc_ok size ph rest r l' p b e = record {
  exact = ground arith;
  in_page = ground arith;
  from_free = λ a. ground arith;
}

pub zone_alloc-Taken :
    (malloc_ok : Bool) (size : ℕ) (l : List Region) (r : Region) (l' : List Region)
    → InPage l
    → packetmem_zone_alloc malloc_ok size l ≡ some (r, l')
    → Taken size l r l'
unfolding packetmem_zone_alloc
zone_alloc-Taken malloc_ok size [] r l' p e = cc
zone_alloc-Taken malloc_ok size (ph ∷ rest) r l' p e = elim (Bool-cases (ltb ph.len size)) [
  | inr b ↦ zone_alloc-split malloc_ok size ph rest r l' p b e
  | inl b ↦ elim (Option-cases (packetmem_zone_alloc malloc_ok size rest)) [
    | inl n ↦ absurd (ground arith)
    | inr ((r₀, l₀), k) ↦
        let t = zone_alloc-Taken malloc_ok size rest r₀ l₀ p.1 k in
        let q : r ≡ r₀ = ground arith in
        let q' : l' ≡ ph ∷ l₀ = ground arith in
        rw (q, q')
          (record {
            exact = t.exact;
            in_page = (t.in_page.0, (p.0, t.in_page.1));
            from_free = λ a. omega (arith, t.from_free a);
          })
  ]
]

merge_successor-owners :
    (a : ℕ) (ph : Region) (rest : List Region)
    → InPage (ph ∷ rest)
    → owners a (merge_successor ph rest) ≡ owns a ph + owners a rest
unfolding merge_successor
merge_successor-owners a ph [] p = ground arith
merge_successor-owners a ph (next ∷ rest) p = ground arith

merge_successor-InPage :
    (ph : Region) (rest : List Region) → InPage (ph ∷ rest) → InPage (merge_successor ph rest)
unfolding merge_successor
merge_successor-InPage ph [] p = ground arith
merge_successor-InPage ph (next ∷ rest) p = elim (Bool-cases (add64 ph.base ph.len == next.base)) [
  | inl y ↦ rw (y, merge_successor) (ground arith)
  | inr y ↦ rw (y, merge_successor) p
]

merge_items-owners :
    (a : ℕ) (prev ph : Region) (rest : List Region)
    → InPage (prev ∷ ph ∷ rest)
    → owners a (merge_items prev ph rest) ≡ owners a (prev ∷ ph ∷ rest)
unfolding merge_items
merge_items-owners a prev ph rest p = ground (
  arith,
  merge_successor-owners a (record { base = prev.base; len = add64 prev.len ph.len }) rest,
  merge_successor-owners a ph rest,
)

merge_items-InPage :
    (prev ph : Region) (rest : List Region)
    → InPage (prev ∷ ph ∷ rest)
    → InPage (merge_items prev ph rest)
unfolding merge_items
merge_items-InPage prev ph rest p = elim (Bool-cases (add64 prev.base prev.len == ph.base)) [
  | inl y ↦
      rw (y, merge_items)
        (merge_successor-InPage (record { base = prev.base; len = add64 prev.len ph.len }) rest
          (ground arith, p.1.1))
  | inr y ↦ rw (y, merge_items) (p.0, merge_successor-InPage ph rest p.1)
]

free_after-owners :
    (a : ℕ) (h prev : Region) (l : List Region)
    → InPage (h ∷ prev ∷ l)
    → owners a (free_after h prev l) ≡ owners a (h ∷ prev ∷ l)
unfolding free_after
free_after-owners a h prev [] p = ground (arith, merge_items-owners a prev h [])
free_after-owners a h prev (ph ∷ []) p = ground (arith, merge_items-owners a prev h (ph ∷ []))
free_after-owners a h prev (ph ∷ next ∷ rest) p =
    ground (
      arith,
      merge_items-owners a prev h (ph ∷ next ∷ rest),
      free_after-owners a h ph (next ∷ rest),
    )

free_after-InPage :
    (h prev : Region) (l : List Region) → InPage (h ∷ prev ∷ l) → InPage (free_after h prev l)
unfolding free_after
free_after-InPage h prev [] p = merge_items-InPage prev h [] (omega arith)
free_after-InPage h prev (ph ∷ []) p = merge_items-InPage prev h (ph ∷ []) (omega arith)
free_after-InPage h prev (ph ∷ next ∷ rest) p = elim (Bool-cases (ltb next.base h.base)) [
  | inl y ↦ rw (y, free_after) (p.1.0, free_after-InPage h ph (next ∷ rest) (p.0, p.1.1))
  | inr y ↦ rw (y, free_after) (merge_items-InPage prev h (ph ∷ next ∷ rest) (p.1.0, (p.0, p.1.1)))
]

-- A region that is given back is free afterwards, and no other byte changes: every byte is free as
-- often as it was free or lay in the region. The regions lie in their page, and still do.
pub zone_free-owners :
    (a : ℕ) (h : Region) (l : List Region)
    → InPage (h ∷ l)
    → (owners a (zone_free h l) ≡ owns a h + owners a l) × InPage (zone_free h l)
unfolding zone_free
zone_free-owners a h [] p = (merge_successor-owners a h [] p, merge_successor-InPage h [] p)
zone_free-owners a h (ph ∷ []) p =
    (merge_successor-owners a h (ph ∷ []) p, merge_successor-InPage h (ph ∷ []) p)
zone_free-owners a h (ph ∷ next ∷ rest) p = elim (Bool-cases (ltb next.base h.base)) [
  | inl y ↦
      rw (y, zone_free)
        (free_after-owners a h ph (next ∷ rest) p, free_after-InPage h ph (next ∷ rest) p)
  | inr y ↦
      rw (y, zone_free)
        (
          merge_successor-owners a h (ph ∷ next ∷ rest) p,
          merge_successor-InPage h (ph ∷ next ∷ rest) p,
        )
]
