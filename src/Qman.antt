-- ===== src/Qman.antt =====
-- The queue manager of the firmware, firmware/qman.c: the bodies of its loops, one round at a time.
-- The rings of the memory engine are the words put into them and taken from them.
pub mod Local
pub mod Slots
mod Tests
use flex_toe.Prelude.{
  if◌then◌else◌, ℕ, ◌%◌, ◌+◌, ◌-◌, ◌/◌, ◌==◌, ◌^◌, ◌||◌, ◌∷◌, List, Option, [], leb, ltb, min, none,
  some, update,
}
use flex_toe.Prelude.Words.{add32, mul32, sub32}
use flex_toe.Arp.Answers.{taken}
use flex_toe.Flow.Send.{tcp_mss}

abbrev pub qm_num_slots : ℕ
qm_num_slots = 512

abbrev pub qm_fifo_rnum : ℕ
qm_fifo_rnum = 511

abbrev pub qm_slot_rnum_base : ℕ
qm_slot_rnum_base = 512

abbrev pub qm_sched_rnum_base : ℕ
qm_sched_rnum_base = 256

abbrev pub qm_local_fifo : ℕ
qm_local_fifo = 256

abbrev pub num_flow_groups : ℕ
num_flow_groups = 4

abbrev pub flow_qm_credits : ℕ
flow_qm_credits = 1024

-- An entry of `queue_local_fifo`.
pub record LocalFlow : Type 0 where
  pub flow_id : ℕ
  pub avail : ℕ

-- The shared registers, `tx_avail` and `tx_rate` of `flows_cc_info`, and the words put into rings
-- with the ring's number, the latest first.
pub record Qman : Type 0 where
  pub queue_status : ℕ → ℕ
  pub queue_local_fifo : ℕ → LocalFlow
  pub queue_status_fifo : ℕ
  pub credits : ℕ
  pub current_slot : ℕ
  pub skip_slot : ℕ
  pub q_head : ℕ
  pub q_tail : ℕ
  pub tx_avail : ℕ → ℕ
  pub tx_rate : ℕ → ℕ
  pub added : List (ℕ × ℕ)

-- How many slots ahead of the current one a flow goes.
unfoldable pub slots_ahead : ℕ → ℕ → ℕ → ℕ
slots_ahead avail rate skip =
    let ts = mul32 rate (min tcp_mss avail) / 2 ^ 10 in
    let slot = add32 (ts / 2 ^ 8) skip in if leb qm_num_slots slot then qm_num_slots - 1 else slot

unfoldable pub flow_add_to_queue : ℕ → ℕ → ℕ → Qman → Qman
flow_add_to_queue flow_id avail rate s =
    let new_qtail = (s.q_tail + 1) % qm_local_fifo in
    let slot = (s.current_slot + slots_ahead avail rate s.skip_slot) % qm_num_slots in
    let here : LocalFlow = record { flow_id = flow_id; avail = min avail (2 ^ 14) } in
    if rate == 0
    then if ltb avail tcp_mss || (s.q_head == new_qtail)
      then record s {
        queue_status_fifo = add32 s.queue_status_fifo 1;
        added = (qm_fifo_rnum, flow_id) ∷ s.added;
      }
      else record s {
        queue_local_fifo = update s.queue_local_fifo s.q_tail here;
        q_tail = new_qtail;
      }
    else record s {
      queue_status = update s.queue_status slot (add32 (s.queue_status slot) 1);
      added = (qm_slot_rnum_base + slot, flow_id) ∷ s.added;
    }

-- `refresh_credits` with the number that the counter gives.
unfoldable pub refresh_credits : ℕ → Qman → Qman
refresh_credits granted s = record s { credits = add32 s.credits granted }

-- The refresh at the end of a round.
abbrev pub top_up : ℕ → Qman → Qman
top_up granted s = if ltb s.credits (flow_qm_credits / 4) then refresh_credits granted s else s

abbrev pub flow_of_word : ℕ → ℕ
flow_of_word w = w % 2 ^ 16

abbrev pub group_of_word : ℕ → ℕ
group_of_word w = w / 2 ^ 16 % num_flow_groups

-- The work for a flow goes out, and a segment is taken from what it has to send.
unfoldable pub schedule : ℕ → Qman → Qman
schedule w s =
    let id = flow_of_word w in
    record s {
      credits = s.credits - 1;
      added = (qm_sched_rnum_base + group_of_word w, id) ∷ s.added;
      tx_avail = update s.tx_avail id (s.tx_avail id - tcp_mss);
    }

-- A round of `queue_postproc_poll` for a word of the bump ring.
unfoldable pub queue_postproc_poll : ℕ → Qman → Qman
queue_postproc_poll w s =
    flow_add_to_queue w (s.tx_avail (flow_of_word w)) (s.tx_rate (flow_of_word w)) s

-- A round of `queue_localfifo_poll`; `none`: nothing to do, or it waits for credits.
unfoldable pub queue_localfifo_poll : ℕ → Qman → Option Qman
queue_localfifo_poll granted s =
    let e = s.queue_local_fifo s.q_head in
    let taken = record s { q_head = (s.q_head + 1) % qm_local_fifo } in
    if (s.q_head == s.q_tail) || (s.credits == 0)
    then none
    else some (
        top_up granted (
          flow_add_to_queue (flow_of_word e.flow_id) (sub32 e.avail tcp_mss) 0
            (schedule e.flow_id taken)))

-- A flow taken from a ring, with credits left; it is queued again when it has more to send.
unfoldable pub serve : ℕ → ℕ → Qman → Qman
serve granted w s =
    let avail = s.tx_avail (flow_of_word w) in
    let rate = s.tx_rate (flow_of_word w) in
    let sent = schedule w s in
    top_up granted
      (if ltb tcp_mss avail then flow_add_to_queue w (avail - tcp_mss) rate sent else sent)

-- A round of `queue_slot_poll` with the word that the ring of the slot gives.
unfoldable pub queue_slot_poll : ℕ → ℕ → Qman → Option Qman
queue_slot_poll granted w s =
    let slot = s.current_slot in
    let taken = record s { queue_status = update s.queue_status slot (s.queue_status slot - 1) } in
    if s.queue_status slot == 0
    then none
    else if w == 0
    then some taken
    else if s.credits == 0
    then none
    else some (serve granted w taken)

-- The loop of `queue_fifo_poll` over the words that it has read.
unfoldable pub serve_words : ℕ → List ℕ → Qman → Option Qman
serve_words granted [] s = some s
serve_words granted (w ∷ ws) s =
    let counted = record s { queue_status_fifo = sub32 s.queue_status_fifo 1 } in
    let rest = serve_words granted ws (serve granted w counted) in
    if w == 0 then some s else if s.credits == 0 then none else rest

-- The steps of `select_slot`: no more flows for the current slot, and on to the next one when the
-- current one is empty.
unfoldable pub close_slot : Qman → Qman
close_slot s = record s { skip_slot = 1 }

unfoldable pub next_slot : Qman → Option Qman
next_slot s =
    if s.queue_status s.current_slot == 0
    then some (record s { current_slot = (s.current_slot + 1) % qm_num_slots; skip_slot = 0 })
    else none
