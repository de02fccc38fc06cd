-- ===== src/Arp/Tests.antt =====
-- Two hosts that look for each other's addresses.
use flex_toe.Prelude.{◌∷◌, ◌≡◌, [], false, refl, some, true}
use flex_toe.Arp.{
  Arp, ArpEntry, ArpPacket, Found, Host, ae_lookup, arp_init, arp_packet, arp_request, notify,
  request_packet, response_packet, write_entry,
}
use flex_toe.Arp.Answers.{Runs, Runs-places, places}
use flex_toe.Arp.Exchange.{arp_packet-exchange}

abbrev left_host : Host
left_host = record { eth_addr = 1000; ip = 10; arp_to = 500; arp_to_max = 10000 }

abbrev right_host : Host
right_host = record { eth_addr = 2000; ip = 20; arp_to = 500; arp_to_max = 10000 }

abbrev before_init : Arp
before_init = record { table = []; answers = []; sent = []; calls = [] }

abbrev own_entry : ArpEntry
own_entry = record { waiting = false; ip = 10; mac = 1000; compl = []; timeout = 0 }

abbrev right_entry : ArpEntry
right_entry = record { waiting = true; ip = 20; mac = 0; compl = 8 ∷ 7 ∷ []; timeout = 500 }

-- Completions 7 and 8 wait for the other host.
abbrev two_wait : Arp
two_wait = record before_init { table = right_entry ∷ own_entry ∷ [] }

init_run : (arp_init left_host before_init).table ≡ own_entry ∷ []
unfolding arp_init
init_run = refl

arp_packet-exchange_example :
    (reply : ArpPacket) × (a' : Arp) × (arp_packet right_host true
        (request_packet left_host 20)
        before_init
      ≡ record before_init { sent = reply ∷ [] })
    × (arp_packet left_host true reply two_wait ≡ a')
    × (a'.answers ≡ notify (some 2000) (8 ∷ 7 ∷ []) [])
    × (arp_request left_host true true 9 20 a' ≡ some (a', Found.at_once 2000))
unfolding ae_lookup
arp_packet-exchange_example =
    arp_packet-exchange left_host right_host two_wait before_init right_entry true true 9 refl

abbrev asked : Arp
asked = record before_init { table = record right_entry { compl = 7 ∷ [] } ∷ own_entry ∷ [] }

-- A second request for an entry that waits.
ask_run : arp_request left_host true true 8 20 asked ≡ some (two_wait, Found.later)
unfolding arp_request ae_lookup write_entry
ask_run = refl

abbrev reply : ArpPacket
reply = response_packet right_host 1000 10

Runs-places_example : places 8 (arp_packet left_host true reply two_wait) ≡ 1
Runs-places_example =
    Runs-places left_host 8 asked (arp_packet left_host true reply two_wait) (8 ∷ []) (
      Runs.received true reply two_wait (8 ∷ [])
        (Runs.requested true true 8 20 asked two_wait Found.later [] Runs.start ask_run))
