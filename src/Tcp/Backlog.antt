-- ===== src/Tcp/Backlog.antt =====
-- Listeners of user/tcp.c: the backlog of SYNs, a ring of buffers, and the connections that wait in
-- `tcp_accept`.
use flex_toe.Prelude.{
  if◌then◌else◌, ℕ, ◌%◌, ◌&&◌, ◌+◌, ◌-◌, ◌==◌, ◌^◌, ◌||◌, ◌∷◌, Bool, List, Option, [], false, ltb,
  none, not, some, suc, update, zero,
}
use flex_toe.Prelude.Rings.{wrap}
use flex_toe.Prelude.Words.{add32}
use flex_toe.Tcp.Conn.{Connection, Effect, Status, TcpConfig}
use flex_toe.Tcp.Options.{Parsed, parse_options}
use flex_toe.Tcp.State.{Flags, Packet, ts_val}
use flex_toe.Tcp.Table.{Table, conn_register}

-- A `struct backlog_slot` with its entry of `backlog_fgs`.
pub record Slot : Type 0 where
  pub buf : Packet
  pub len : ℕ
  pub fg : ℕ

-- `struct listener`; `wait_conns` is the chain along `ht_next`.
pub record Listener : Type 0 where
  pub port : ℕ
  pub ecn : Bool
  pub backlog_len : ℕ
  pub backlog_pos : ℕ
  pub backlog_used : ℕ
  pub backlog : ℕ → Slot
  pub wait_conns : List Connection

-- A listener, the table, the connections put into `conn_async_q`, the latest first, and the calls of
-- other files; `newconns` are the SYNs that the application was told of.
pub record Accepting : Type 0 where
  pub listener : Listener
  pub table : Table
  pub async_q : List Connection
  pub newconns : List Packet
  pub resets : List Packet
  pub calls : List Effect

-- `sizeof(bls->buf)` and the length of a stored packet.
abbrev pub slot_size : ℕ
slot_size = 126

abbrev pub stored_len : Packet → ℕ
stored_len p = (14 + p.ip_len) % 2 ^ 16

abbrev pub same_tuple : Packet → Packet → Bool
same_tuple p q =
    (p.src_ip == q.src_ip)
    && ((p.dest_ip == q.dest_ip) && ((p.src_port == q.src_port) && (p.dest_port == q.dest_port)))

-- The search for the packet's addresses, with `n` entries left from `bp` on.
unfoldable pub known : Packet → (ℕ → Slot) → ℕ → ℕ → ℕ → Bool
known p slots len bp zero = false
known p slots len bp (suc n) = same_tuple p (slots bp).buf || known p slots len ((bp + 1) % len) n

-- A SYN, possibly with an offer of ECN.
abbrev pub is_syn : Flags → Bool
is_syn f = f.syn && not (f.fin || (f.rst || (f.psh || (f.ack || (f.urg || f.ns)))))

module _ (hash : ℕ → ℕ → ℕ → ℕ → ℕ) (config : TcpConfig) where
  -- The connection that takes the packet of a slot, before the NIC knows it.
  unfoldable pub accepted : Listener → Slot → ℕ → Connection → Connection
  accepted l bls ts c =
      let p = bls.buf in
      record c {
        flow_group = bls.fg;
        remote_mac = p.eth_src;
        entry = record c.entry {
          remote_ip = p.src_ip;
          local_ip = config.ip;
          remote_port = p.src_port;
          local_port = l.port;
        };
        remote_seq = add32 p.seqno 1;
        local_seq = 1;
        syn_ts = ts_val p ts;
        ecn = c.ecn || (p.flags.ece && p.flags.cwr);
        status = Status.reg_synack;
      }

  -- `out:`: the slot is given up.
  unfoldable pub drop_slot : Accepting → Accepting
  drop_slot s = record s {
    listener = record s.listener {
      backlog_used = s.listener.backlog_used - 1;
      backlog_pos = wrap s.listener.backlog_len (s.listener.backlog_pos + 1);
    };
  }

  -- `listener_accept` with good options; `flow` is the answer of `nicif_connection_add`.
  unfoldable pub start_conn : Option ℕ → ℕ → Connection → List Connection → Accepting → Accepting
  start_conn flow ts c waiting s =
      let l = s.listener in
      let c' = accepted l (l.backlog l.backlog_pos) ts c in
      let told = record s {
        calls = Effect.nicif_connection_add ∷ (Effect.control_add ∷ s.calls);
      } in
      elim flow [
        | none ↦ record told { listener = record l { wait_conns = c' ∷ waiting } }
        | some id ↦
            let c'' = record c' { flow_id = id } in
            record told {
              listener = record l { wait_conns = waiting };
              table = conn_register hash c''.entry s.table;
              async_q = c'' ∷ s.async_q;
            }
      ]

  -- `listener_accept`; `none`: an assertion fails.
  unfoldable pub listener_accept : Option ℕ → Accepting → Option Accepting
  listener_accept flow s =
      let l = s.listener in
      let bls = l.backlog l.backlog_pos in
      if l.backlog_used == 0 then none else elim l.wait_conns [
        | [] ↦ none
        | c ∷ waiting ↦ elim (parse_options bls.buf bls.len) [
          | Parsed.parsed opts ↦ elim opts.ts [
            | none ↦ some (drop_slot s)
            | some ts ↦ some (drop_slot (start_conn flow ts c waiting s))
          ]
          | _ ↦ some (drop_slot s)
        ]
      ]

  -- The packet behind the last one of the ring.
  unfoldable pub store : Packet → ℕ → Accepting → Accepting
  store p flow_group s =
      let l = s.listener in
      let bp = wrap l.backlog_len (l.backlog_pos + l.backlog_used) in
      let slot : Slot = record { buf = p; len = stored_len p; fg = flow_group } in
      record s {
        listener = record l {
          backlog = update l.backlog bp slot;
          backlog_used = l.backlog_used + 1;
        };
        newconns = p ∷ s.newconns;
      }

  -- `listener_packet`.
  unfoldable pub listener_packet : Packet → ℕ → Option ℕ → Accepting → Option Accepting
  listener_packet p flow_group flow s =
      let l = s.listener in
      let stored = store p flow_group s in
      if not (is_syn p.flags)
      then some (record s { resets = p ∷ s.resets })
      else if ltb slot_size (stored_len p)
      then some s
      else if known p l.backlog l.backlog_len l.backlog_pos l.backlog_used
      then some s
      else if l.backlog_len == l.backlog_used
      then some s
      else elim l.wait_conns [ [] ↦ some stored | c ∷ waiting ↦ listener_accept flow stored ]

  -- `tcp_accept`, with the connection that `conn_alloc` gives.
  unfoldable pub tcp_accept : Connection → Option ℕ → Accepting → Option Accepting
  tcp_accept c flow s =
      let l = s.listener in
      let c' = record c {
        status = Status.syn_wait;
        entry = record c.entry { local_port = l.port };
        ecn = l.ecn;
      } in
      let waits = record s { listener = record l { wait_conns = c' ∷ l.wait_conns } } in
      if ltb 0 l.backlog_used then listener_accept flow waits else some waits
