-- ===== src/Arp/Answers.antt =====
-- The completions of user/arp.c.
use flex_toe.Prelude.{
  if◌then◌else◌, ℕ, ◌+◌, ◌==◌, ◌∷◌, ◌≡◌, Bool, Bool-cases, List, Option, Option-cases, [], ap,
  arith, false, inl, inr, none, some,
}
use flex_toe.Prelude.Words.{mul32}
use flex_toe.Arp.{
  Arp, ArpEntry, ArpPacket, Found, Host, ae_lookup, arm, arp_packet, arp_reply, arp_request,
  arp_timeout, notify, remove_entry, write_entry,
}

-- How often a completion occurs in a list, waits in the table, and was answered.
abbrev pub count : ℕ → List ℕ → ℕ
count c [] = 0
count c (d ∷ ds) = (if d == c then 1 else 0) + count c ds

abbrev pub waits : ℕ → List ArpEntry → ℕ
waits c [] = 0
waits c (e ∷ es) = count c e.compl + waits c es

abbrev pub answered : ℕ → List (ℕ × Option ℕ) → ℕ
answered c [] = 0
answered c (a ∷ xs) = (if a.0 == c then 1 else 0) + answered c xs

-- All places of a completion.
abbrev pub places : ℕ → Arp → ℕ
places c s = waits c s.table + answered c s.answers

notify-answered :
    (c : ℕ) (r : Option ℕ) (cs : List ℕ) (xs : List (ℕ × Option ℕ))
    → answered c (notify r cs xs) ≡ answered c xs + count c cs
unfolding notify
notify-answered c r [] xs = omega arith
notify-answered c r (d ∷ cs) xs =
    let more = notify-answered c r cs ((d, r) ∷ xs) in omega (arith, more)

write_entry-waits :
    (c ip : ℕ) (e e' : ArpEntry) (es : List ArpEntry)
    → ae_lookup ip es ≡ some e
    → waits c (write_entry ip e' es) + count c e.compl ≡ waits c es + count c e'.compl
unfolding ae_lookup write_entry
write_entry-waits c ip e e' [] k = ground (arith, k)
write_entry-waits c ip e e' (d ∷ es) k = elim (Bool-cases (d.ip == ip)) [
  | inl x ↦
      let same : d ≡ e = ground (arith, k, x) in ground (arith, x, ap (λ y. count c y.compl) same)
  | inr x ↦
      let more = write_entry-waits c ip e e' es (ground (arith, k, x)) in ground (arith, x, more)
]

remove_entry-waits :
    (c ip : ℕ) (e : ArpEntry) (es : List ArpEntry)
    → ae_lookup ip es ≡ some e
    → waits c (remove_entry ip es) + count c e.compl ≡ waits c es
unfolding ae_lookup remove_entry
remove_entry-waits c ip e [] k = ground (arith, k)
remove_entry-waits c ip e (d ∷ es) k = elim (Bool-cases (d.ip == ip)) [
  | inl x ↦
      let same : d ≡ e = ground (arith, k, x) in ground (arith, x, ap (λ y. count c y.compl) same)
  | inr x ↦
      let more = remove_entry-waits c ip e es (ground (arith, k, x)) in ground (arith, x, more)
]

-- The completions of requests that were taken, with one more.
abbrev pub taken : Found → ℕ → List ℕ → List ℕ
taken Found.later comp comps = comp ∷ comps
taken Found.no_memory comp comps = comps
taken (Found.at_once mac) comp comps = comps

module _ (h : Host) where
  arp_request-places :
      (c : ℕ) (memory tx : Bool) (comp ip : ℕ) (s s' : Arp) (r : Found)
      → arp_request h memory tx comp ip s ≡ some (s', r)
      → places c s' ≡ places c s + count c (taken r comp [])
  unfolding arp_request arm
  arp_request-places c memory tx comp ip s s' r k = elim (Option-cases (ae_lookup ip s.table)) [
    | inl n ↦ ground (arith, n, k)
    | inr (ae, e) ↦
        let kept = write_entry-waits c ip ae (record ae { compl = comp ∷ ae.compl }) s.table e in
        ground (arith, e, k, kept)
  ]

  arp_packet-places :
      (c : ℕ) (tx : Bool) (p : ArpPacket) (s : Arp) → places c (arp_packet h tx p s) ≡ places c s
  unfolding arp_packet arp_reply
  arp_packet-places c tx p s = elim (Option-cases (ae_lookup p.spa s.table)) [
    | inl n ↦ ground (arith, n)
    | inr (ae, e) ↦
        let kept =
          write_entry-waits c p.spa ae (record ae { waiting = false; mac = p.sha; compl = [] })
            s.table e in
        let told = notify-answered c (some p.sha) ae.compl s.answers in
        ground (arith, e, kept, told)
  ]

  arp_timeout-places :
      (c : ℕ) (tx : Bool) (ip : ℕ) (s s' : Arp)
      → arp_timeout h tx ip s ≡ some s'
      → places c s' ≡ places c s
  unfolding arp_timeout arm
  arp_timeout-places c tx ip s s' k = elim (Option-cases (ae_lookup ip s.table)) [
    | inl n ↦ ground (arith, n, k)
    | inr (ae, e) ↦
        let kept =
          write_entry-waits c ip ae (record ae { timeout = mul32 ae.timeout 2 }) s.table e in
        let gone = remove_entry-waits c ip ae s.table e in
        let told = notify-answered c none ae.compl s.answers in
        ground (arith, e, k, kept, gone, told)
  ]

  -- A run of the table: the events, with the completions of the requests that were taken, the latest
  -- first.
  pub data Runs (s : Arp) : List ℕ → Arp → Type 0 where
    start : Runs s [] s
    requested :
        (memory tx : Bool) (comp ip : ℕ) (s' s'' : Arp) (r : Found) (comps : List ℕ)
        → Runs s comps s'
        → arp_request h memory tx comp ip s' ≡ some (s'', r)
        → Runs s (taken r comp comps) s''
    received :
        (tx : Bool) (p : ArpPacket) (s' : Arp) (comps : List ℕ)
        → Runs s comps s'
        → Runs s comps (arp_packet h tx p s')
    timed_out :
        (tx : Bool) (ip : ℕ) (s' s'' : Arp) (comps : List ℕ)
        → Runs s comps s'
        → arp_timeout h tx ip s' ≡ some s''
        → Runs s comps s''

  taken-count :
      (c comp : ℕ) (r : Found) (comps : List ℕ)
      → count c (taken r comp comps) ≡ count c comps + count c (taken r comp [])
  taken-count c comp Found.later comps = omega arith
  taken-count c comp Found.no_memory comps = omega arith
  taken-count c comp (Found.at_once mac) comps = omega arith

  -- After any requests, packets and timeouts, a completion stands in the table or among the answers as
  -- often as requests with it were taken, and as it stood there before: none is lost, and none is
  -- answered twice or still waiting when it was answered.
  pub Runs-places :
      (c : ℕ) (s s' : Arp) (comps : List ℕ)
      → Runs s comps s'
      → places c s' ≡ places c s + count c comps
  Runs-places c s _ _ start = omega arith
  Runs-places c s _ _ (requested memory tx comp ip s' s'' r comps run k) =
      let before = Runs-places c s s' comps run in
      let more = arp_request-places c memory tx comp ip s' s'' r k in
      omega (arith, before, more, taken-count c comp r comps)
  Runs-places c s _ _ (received tx p s' comps run) =
      let before = Runs-places c s s' comps run in
      omega (arith, before, arp_packet-places c tx p s')
  Runs-places c s _ _ (timed_out tx ip s' s'' comps run k) =
      let before = Runs-places c s s' comps run in
      omega (arith, before, arp_timeout-places c tx ip s' s'' k)
