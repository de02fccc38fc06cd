-- ===== src/Arp.antt =====
-- The ARP table of user/arp.c. A pointer to an entry is the entry's address, and a completion is its
-- id; the queues of completions (util/nbqueue.h) are one list of answers, the latest first.
use flex_toe.Prelude.{
  if◌then◌else◌, ℕ, ◌&&◌, ◌*◌, ◌-◌, ◌==◌, ◌^◌, ◌∷◌, Bool, List, Option, [], false, leb, none, not,
  some, true,
}
use flex_toe.Prelude.Words.{mul32}
use flex_toe.Timeout.{middle}
pub mod Answers
pub mod Exchange
mod Tests

-- `struct arp_entry`; `waiting`: the status is 1.
pub record ArpEntry : Type 0 where
  pub waiting : Bool
  pub ip : ℕ
  pub mac : ℕ
  pub compl : List ℕ
  pub timeout : ℕ

-- `struct pkt_arp` without the type of its Ethernet header.
pub record ArpPacket : Type 0 where
  pub eth_src : ℕ
  pub eth_dest : ℕ
  pub htype : ℕ
  pub ptype : ℕ
  pub hlen : ℕ
  pub plen : ℕ
  pub oper : ℕ
  pub sha : ℕ
  pub spa : ℕ
  pub tha : ℕ
  pub tpa : ℕ

-- A call of the timeouts, TO_ARP_REQ for an entry or TO_ARP_GRAT.
pub data ArpCall : Type 0 where
  arm_request : ℕ → ℕ → ArpCall
  disarm_request : ℕ → ArpCall
  arm_gratuitous : ℕ → ArpCall

-- `arp_table`, the completions answered (an address, or `none` for the status -1), the packets sent,
-- and the calls of util/timeout.c.
pub record Arp : Type 0 where
  pub table : List ArpEntry
  pub answers : List (ℕ × Option ℕ)
  pub sent : List ArpPacket
  pub calls : List ArpCall

-- `eth_addr` and the fields of `config`.
pub record Host : Type 0 where
  pub eth_addr : ℕ
  pub ip : ℕ
  pub arp_to : ℕ
  pub arp_to_max : ℕ

-- The result of `arp_request`: -1, 0 with an address, or 1.
pub data Found : Type 0 where
  no_memory later : Found
  at_once : ℕ → Found

unfoldable pub ae_lookup : ℕ → List ArpEntry → Option ArpEntry
ae_lookup ip [] = none
ae_lookup ip (ae ∷ aes) = if ae.ip == ip then some ae else ae_lookup ip aes

-- The list with other contents in an entry, and without it.
unfoldable pub write_entry : ℕ → ArpEntry → List ArpEntry → List ArpEntry
write_entry ip ae' [] = []
write_entry ip ae' (ae ∷ aes) = if ae.ip == ip then ae' ∷ aes else ae ∷ write_entry ip ae' aes

unfoldable pub remove_entry : ℕ → List ArpEntry → List ArpEntry
remove_entry ip [] = []
remove_entry ip (ae ∷ aes) = if ae.ip == ip then aes else ae ∷ remove_entry ip aes

-- The loops over `compl`.
unfoldable pub notify : Option ℕ → List ℕ → List (ℕ × Option ℕ) → List (ℕ × Option ℕ)
notify result [] answers = answers
notify result (comp ∷ comps) answers = notify result comps ((comp, result) ∷ answers)

abbrev pub gratuitous_arp_timeout_us : ℕ
gratuitous_arp_timeout_us = 1000 * 1000 * 5

abbrev pub arp_oper_request : ℕ
arp_oper_request = 1

abbrev pub arp_oper_reply : ℕ
arp_oper_reply = 2

-- The packets of `response_tx` and `request_tx`.
abbrev pub response_packet : Host → ℕ → ℕ → ArpPacket
response_packet h dst_mac dst_ip = record {
  eth_src = h.eth_addr;
  eth_dest = dst_mac;
  htype = 1;
  ptype = 2048;
  hlen = 6;
  plen = 4;
  oper = arp_oper_reply;
  sha = h.eth_addr;
  spa = h.ip;
  tha = dst_mac;
  tpa = dst_ip;
}

abbrev pub request_packet : Host → ℕ → ArpPacket
request_packet h dst_ip = record (response_packet h (2 ^ 48 - 1) dst_ip) { oper = arp_oper_request }

-- `response_tx` and `request_tx`; `tx`: there is room for a packet.
abbrev pub transmit : Bool → ArpPacket → Arp → Arp
transmit tx p s = if tx then record s { sent = p ∷ s.sent } else s

module _ (h : Host) where
  -- `arp_init`, and the timeout that `gratuitous_arp_timeout` handles.
  unfoldable pub arp_init : Arp → Arp
  arp_init s =
      let lb : ArpEntry = record {
        waiting = false;
        ip = h.ip;
        mac = h.eth_addr;
        compl = [];
        timeout = 0;
      } in
      record s {
        table = lb ∷ [];
        calls = ArpCall.arm_gratuitous gratuitous_arp_timeout_us ∷ s.calls;
      }

  unfoldable pub gratuitous_arp_timeout : Bool → Arp → Arp
  gratuitous_arp_timeout tx s =
      let s' = transmit tx (request_packet h h.ip) s in
      record s' { calls = ArpCall.arm_gratuitous gratuitous_arp_timeout_us ∷ s'.calls }

  -- `util_timeout_arm`, which aborts (`none`) from 2 ^ 27 microseconds on.
  unfoldable pub arm : ℕ → ℕ → Arp → Option Arp
  arm ip us s =
      if leb middle us
      then none
      else some (record s { calls = ArpCall.arm_request ip us ∷ s.calls })

  -- `memory`: `malloc` succeeds.
  unfoldable pub arp_request : Bool → Bool → ℕ → ℕ → Arp → Option (Arp × Found)
  arp_request memory tx comp ip s =
      let fresh : ArpEntry = record {
        waiting = true;
        ip = ip;
        mac = 0;
        compl = comp ∷ [];
        timeout = h.arp_to;
      } in
      elim (ae_lookup ip s.table) [
        | some ae ↦
            if ae.waiting
            then some (
              record s { table = write_entry ip (record ae { compl = comp ∷ ae.compl }) s.table },
              Found.later,
            )
            else some (s, Found.at_once ae.mac)
        | none ↦
            if not memory
            then some (s, Found.no_memory)
            else elim (arm ip h.arp_to (transmit tx (request_packet h ip) s)) [
              | none ↦ none
              | some s' ↦ some (record s' { table = fresh ∷ s'.table }, Found.later)
            ]
      ]

  -- The branch of `arp_packet` for a reply.
  unfoldable pub arp_reply : ArpPacket → Arp → Arp
  arp_reply p s = elim (ae_lookup p.spa s.table) [
    | none ↦ s
    | some ae ↦ record s {
      table = write_entry p.spa (record ae { waiting = false; mac = p.sha; compl = [] }) s.table;
      answers = notify (some p.sha) ae.compl s.answers;
      calls = if ae.waiting then ArpCall.disarm_request p.spa ∷ s.calls else s.calls;
    }
  ]

  unfoldable pub arp_packet : Bool → ArpPacket → Arp → Arp
  arp_packet tx p s =
      if not ((p.htype == 1) && ((p.ptype == 2048) && ((p.hlen == 6) && (p.plen == 4))))
      then s
      else if p.oper == arp_oper_request
      then if p.tpa == h.ip then transmit tx (response_packet h p.sha p.spa) s else s
      else if p.oper == arp_oper_reply
      then arp_reply p s
      else s

  -- `arp_timeout` of an entry; `none`: the program aborts, or has no such entry.
  unfoldable pub arp_timeout : Bool → ℕ → Arp → Option Arp
  arp_timeout tx ip s = elim (ae_lookup ip s.table) [
    | none ↦ none
    | some ae ↦
        if not ae.waiting
        then none
        else if leb h.arp_to_max (mul32 ae.timeout 2)
        then some
            (record s { table = remove_entry ip s.table; answers = notify none ae.compl s.answers })
        else arm ip (mul32 ae.timeout 2) (record (transmit tx (request_packet h ae.ip) s) {
          table = write_entry ip (record ae { timeout = mul32 ae.timeout 2 }) s.table;
        })
  ]
