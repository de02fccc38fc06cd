-- ===== src/Tcp/Tests/Listeners.antt =====
-- A listener of a small host.
use flex_toe.Prelude.{◌∷◌, ◌≡◌, [], arith, false, none, refl, some}
use flex_toe.Tcp.Backlog.{Accepting, Listener, Slot, known, listener_packet}
use flex_toe.Tcp.Conn.{Connection, Status, Timer}
use flex_toe.Tcp.Queue.{RingOk, listener_packet-queue, queue}
use flex_toe.Tcp.State.{Packet}
use flex_toe.Tcp.Tests.Data.{connection, from_peer, nobody, small_config, sum, syn_flags}

abbrev syn : Packet
syn = from_peer syn_flags

abbrev second_syn : Packet
second_syn = record syn { src_port = 81 }

abbrev slot : Slot
slot = record { buf = syn; len = 66; fg = 3 }

-- A ring of two whose only packet is in the second place.
abbrev listener : Listener
listener = record {
  port = 9000;
  ecn = false;
  backlog_len = 2;
  backlog_pos = 1;
  backlog_used = 1;
  backlog = λ i. slot;
  wait_conns = [];
}

abbrev accepting : Listener → Accepting
accepting l = record {
  listener = l;
  table = nobody;
  async_q = [];
  newconns = [];
  resets = [];
  calls = [];
}

abbrev waiting : Connection
waiting = connection Status.syn_wait false Timer.handshake

listener_packet-queue_example :
    (s' : Accepting) × (listener_packet sum small_config second_syn 2 none (accepting listener)
      ≡ some s')
    × (queue s'.listener ≡ slot ∷ record { buf = second_syn; len = 66; fg = 2 } ∷ [])
    × (s'.newconns ≡ second_syn ∷ [])
    × RingOk s'.listener
unfolding known
listener_packet-queue_example =
    listener_packet-queue sum small_config second_syn 2 none (accepting listener)
      (record { inside = omega arith; not_over = omega arith }) refl (omega arith) refl refl
