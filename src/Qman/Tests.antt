-- ===== src/Qman/Tests.antt =====
-- Runs of firmware/qman.c.
use flex_toe.Prelude.{◌*◌, ◌+◌, ◌∷◌, ◌≡◌, [], arith, refl, some, update}
use flex_toe.Prelude.Words.{sub32}
use flex_toe.Flow.Send.{tcp_mss}
use flex_toe.Qman.{LocalFlow, Qman, flow_add_to_queue, queue_localfifo_poll, schedule}
use flex_toe.Qman.Local.{FifoOk, queue_localfifo_poll-FifoOk}

-- Flow 5 of group 2, with 4000 bytes, in the last place of the local queue.
abbrev first_flow : LocalFlow
first_flow = record { flow_id = 2 * 65536 + 5; avail = 4000 }

abbrev one_flow : Qman
one_flow = record {
  queue_status = λ i. 0;
  queue_local_fifo = λ i. first_flow;
  queue_status_fifo = 0;
  credits = 700;
  current_slot = 511;
  skip_slot = 0;
  q_head = 255;
  q_tail = 0;
  tx_avail = λ i. 4000;
  tx_rate = λ i. 0;
  added = [];
}

one_flow-FifoOk : FifoOk one_flow
one_flow-FifoOk = record {
  head_in = omega arith;
  tail_in = omega arith;
  whole = λ k l. (omega arith, omega arith);
}

poll_run :
    queue_localfifo_poll 128 one_flow
    ≡ some (record one_flow {
      queue_local_fifo = update (λ i. first_flow) 0 (record { flow_id = 5; avail = 2552 });
      credits = 699;
      q_head = 0;
      q_tail = 1;
      tx_avail = update (λ i. 4000) 5 2552;
      added = (256 + 2, 5) ∷ [];
    })
unfolding queue_localfifo_poll flow_add_to_queue schedule
poll_run = refl

queue_localfifo_poll-FifoOk_example :
    (s' : Qman) × (queue_localfifo_poll 128 one_flow ≡ some s')
    × (sub32 4000 tcp_mss ≡ 2552)
    × (s'.added ≡ (258, 5) ∷ [])
    × (s'.tx_avail ≡ update one_flow.tx_avail 5 2552)
    × FifoOk s'
queue_localfifo_poll-FifoOk_example =
    queue_localfifo_poll-FifoOk 128 one_flow one_flow-FifoOk (omega arith) (omega arith)
