-- ===== src/Arp/Exchange.antt =====
-- Requests of user/arp.c that are answered by the host asked, or by nobody.
use flex_toe.Prelude.{
  ℕ, ◌*◌, ◌<◌, ◌==◌, ◌^◌, ◌∙◌, ◌∷◌, ◌≡◌, ◌≤◌, Bool, Bool-cases, List, Option, [], ap, arith, false,
  inl, inr, leb, none, refl, some, subst, suc, true, zero,
}
use flex_toe.Prelude.Words.{doubled, mul32}
use flex_toe.Arp.{
  Arp, ArpCall, ArpEntry, ArpPacket, Found, Host, ae_lookup, arm, arp_packet, arp_reply,
  arp_request, arp_timeout, notify, remove_entry, request_packet, response_packet, transmit,
  write_entry,
}
use flex_toe.Timeout.{middle}

ae_lookup-ip :
    (ip : ℕ) (ae : ArpEntry) (es : List ArpEntry) → ae_lookup ip es ≡ some ae → ae.ip ≡ ip
unfolding ae_lookup
ae_lookup-ip ip ae [] k = ground (arith, k)
ae_lookup-ip ip ae (d ∷ es) k = elim (Bool-cases (d.ip == ip)) [
  | inl x ↦ let same : d ≡ ae = ground (arith, k, x) in ground (arith, x, ap (λ y. y.ip) same)
  | inr x ↦ ae_lookup-ip ip ae es (ground (arith, k, x))
]

lookup-write_entry :
    (ip : ℕ) (ae ae' : ArpEntry) (es : List ArpEntry)
    → ae_lookup ip es ≡ some ae
    → ae'.ip ≡ ip
    → ae_lookup ip (write_entry ip ae' es) ≡ some ae'
unfolding ae_lookup write_entry
lookup-write_entry ip ae ae' [] k e = ground (arith, k)
lookup-write_entry ip ae ae' (d ∷ es) k e = elim (Bool-cases (d.ip == ip)) [
  | inl x ↦ ground (arith, x, e)
  | inr x ↦
      let more = lookup-write_entry ip ae ae' es (ground (arith, k, x)) e in ground (arith, x, more)
]

remove-write_entry :
    (ip : ℕ) (ae' : ArpEntry) (es : List ArpEntry)
    → ae'.ip ≡ ip
    → remove_entry ip (write_entry ip ae' es) ≡ remove_entry ip es
unfolding remove_entry write_entry
remove-write_entry ip ae' [] e = refl
remove-write_entry ip ae' (d ∷ es) e = elim (Bool-cases (d.ip == ip)) [
  | inl x ↦ ground (arith, x, e)
  | inr x ↦ let more = remove-write_entry ip ae' es e in ground (arith, x, more)
]

-- Host `asks` has an entry for the address of host `h`. Its request reaches `h`, which has room to
-- answer; then the answer makes the next request of `asks` succeed at once with the address of `h`,
-- and answers all completions of the entry with it.
pub arp_packet-exchange :
    (asks h : Host) (a b : Arp) (ae : ArpEntry) (tx memory : Bool) (comp : ℕ)
    → ae_lookup h.ip a.table ≡ some ae
    → (reply : ArpPacket) × (a' : Arp) × (arp_packet h true (request_packet asks h.ip) b
        ≡ record b { sent = reply ∷ b.sent })
      × (arp_packet asks tx reply a ≡ a')
      × (a'.answers ≡ notify (some h.eth_addr) ae.compl a.answers)
      × (arp_request asks memory tx comp h.ip a' ≡ some (a', Found.at_once h.eth_addr))
unfolding arp_packet arp_reply arp_request
arp_packet-exchange asks h a b ae tx memory comp k =
    let found = record ae { waiting = false; mac = h.eth_addr; compl = [] } in
    let i = ae_lookup-ip h.ip ae a.table k in
    let there = lookup-write_entry h.ip ae found a.table k i in
    (
      response_packet h asks.eth_addr asks.ip,
      _,
      ground arith,
      refl,
      ground (arith, k),
      ground (arith, k, there),
    )

module _ (h : Host) (tx : Bool) (ip : ℕ) where
  -- The timeouts of an entry while nobody answers, as many as are needed to end it, at most the given
  -- number.
  unfoldable pub unanswered : ℕ → Arp → Option Arp
  unanswered zero s = some s
  unanswered (suc n) s = elim (arp_timeout h tx ip s) [
    | none ↦ none
    | some s' ↦ elim (ae_lookup ip s'.table) [ none ↦ some s' | some ae ↦ unanswered n s' ]
  ]

  transmit-answers : (p : ArpPacket) (s : Arp) → (transmit tx p s).answers ≡ s.answers
  transmit-answers p s = ground arith

  -- The state after another request.
  abbrev asked_again : ArpEntry → Arp → Arp
  asked_again ae s =
      let s' = transmit tx (request_packet h ae.ip) s in
      record s' {
        table = write_entry ip (record ae { timeout = mul32 ae.timeout 2 }) s.table;
        calls = ArpCall.arm_request ip (mul32 ae.timeout 2) ∷ s'.calls;
      }

  arp_timeout-again :
      (ae : ArpEntry) (s : Arp)
      → ae_lookup ip s.table ≡ some ae
      → ae.waiting ≡ true
      → h.arp_to_max ≤ 2 ^ 27
      → leb h.arp_to_max (mul32 ae.timeout 2) ≡ false
      → arp_timeout h tx ip s ≡ some (asked_again ae s)
  unfolding arp_timeout arm
  arp_timeout-again ae s k w m x =
      let small : leb middle (mul32 ae.timeout 2) ≡ false = ground arith in
      ground (arith, k, w, x, small)

  unanswered-again :
      (n : ℕ) (s s' : Arp) (ae : ArpEntry)
      → arp_timeout h tx ip s ≡ some s'
      → ae_lookup ip s'.table ≡ some ae
      → unanswered (suc n) s ≡ unanswered n s'
  unfolding unanswered
  unanswered-again n s s' ae k l = ground (arith, k, l)

  unanswered-ends :
      (n : ℕ) (ae : ArpEntry) (s : Arp)
      → ae_lookup ip s.table ≡ some ae
      → ae_lookup ip (remove_entry ip s.table) ≡ none
      → ae.waiting ≡ true
      → leb h.arp_to_max (mul32 ae.timeout 2) ≡ true
      → (s' : Arp) × (unanswered (suc n) s ≡ some s')
        × (ae_lookup ip s'.table ≡ none)
        × (s'.answers ≡ notify none ae.compl s.answers)
  unfolding unanswered arp_timeout
  unanswered-ends n ae s k u w x = (
    record s { table = remove_entry ip s.table; answers = notify none ae.compl s.answers },
    ground (arith, k, u, w, x),
    u,
    refl,
  )

  unanswered-doubled :
      (n : ℕ) (ae : ArpEntry) (s : Arp)
      → ae_lookup ip s.table ≡ some ae
      → ae_lookup ip (remove_entry ip s.table) ≡ none
      → ae.waiting ≡ true
      → ae.timeout < 2 ^ 27
      → h.arp_to_max ≤ 2 ^ 27
      → h.arp_to_max ≤ doubled n ae.timeout
      → (s' : Arp) × (unanswered (suc n) s ≡ some s')
        × (ae_lookup ip s'.table ≡ none)
        × (s'.answers ≡ notify none ae.compl s.answers)
  unanswered-doubled zero ae s k u w t m d = unanswered-ends zero ae s k u w (ground arith)
  unanswered-doubled (suc n) ae s k u w t m d =
      elim (Bool-cases (leb h.arp_to_max (mul32 ae.timeout 2))) [
        | inl x ↦ unanswered-ends (suc n) ae s k u w x
        | inr x ↦
            let i = ae_lookup-ip ip ae s.table k in
            let longer = record ae { timeout = mul32 ae.timeout 2 } in
            let again = arp_timeout-again ae s k w m x in
            let there = lookup-write_entry ip ae longer s.table k i in
            let gone = ap (ae_lookup ip) (remove-write_entry ip longer s.table i) ∙ u in
            let twice : 2 * ae.timeout ≡ mul32 ae.timeout 2 = omega arith in
            let (s', e, l, a) =
              unanswered-doubled n longer (asked_again ae s) there gone w (ground arith) m
                (subst (λ y. h.arp_to_max ≤ doubled n y) twice d) in
            (
              s',
              unanswered-again (suc n) s (asked_again ae s) longer again there ∙ e,
              l,
              a ∙ ap (notify none ae.compl) (transmit-answers (request_packet h ae.ip) s),
            )
      ]

  -- When nobody answers, an entry that is the only one with its address ends after at most 28
  -- timeouts, whatever the table: no assertion fails, the entry is gone, and its completions have all
  -- been answered with a failure. The timeout is above 0 and below 2 ^ 27, and the longest one at
  -- most 2 ^ 27.
  pub unanswered-total :
      (ae : ArpEntry) (s : Arp)
      → ae_lookup ip s.table ≡ some ae
      → ae_lookup ip (remove_entry ip s.table) ≡ none
      → ae.waiting ≡ true
      → 0 < ae.timeout
      → ae.timeout < 2 ^ 27
      → h.arp_to_max ≤ 2 ^ 27
      → (s' : Arp) × (unanswered 28 s ≡ some s')
        × (ae_lookup ip s'.table ≡ none)
        × (s'.answers ≡ notify none ae.compl s.answers)
  unanswered-total ae s k u w p t m = unanswered-doubled 27 ae s k u w t m (omega (arith, p, m))
