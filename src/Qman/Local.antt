-- ===== src/Qman/Local.antt =====
-- The local queue of firmware/qman.c, for flows without a rate.
use native.Mathlib.Decide.{ℕ_discrete}
use flex_toe.Prelude.{
  if◌then◌else◌, ℕ, ◌%◌, ◌*◌, ◌+◌, ◌-◌, ◌/◌, ◌<◌, ◌==◌, ◌^◌, ◌||◌, ◌∙◌, ◌∷◌, ◌≡◌, ◌≢◌, ◌≤◌,
  Bool-cases, ap, arith, inl, inr, ltb, min, refl, some, subst, sym, update,
}
use flex_toe.Prelude.Words.{add32, sub32}
use flex_toe.Flow.Send.{tcp_mss}
use flex_toe.Qman.{
  LocalFlow, Qman, flow_add_to_queue, flow_of_word, flow_qm_credits, group_of_word, qm_fifo_rnum,
  qm_local_fifo, qm_sched_rnum_base, queue_localfifo_poll, refresh_credits, schedule, top_up,
}

-- The number of entries of a queue.
abbrev pub used : ℕ → ℕ → ℕ
used head tail = (tail + qm_local_fifo - head) % qm_local_fifo

-- An entry has a whole segment to send, and at most 0x4000 bytes.
abbrev pub IsWhole : LocalFlow → Type 0
IsWhole e = (tcp_mss ≤ e.avail) × (e.avail ≤ 2 ^ 14)

-- Head and tail are in the queue, and each entry has a whole segment to send.
pub record IsQueue (fifo : ℕ → LocalFlow) (head tail : ℕ) : Type 0 where
  pub head_in : head < qm_local_fifo
  pub tail_in : tail < qm_local_fifo
  pub whole : (k : ℕ) → k < used head tail → IsWhole (fifo ((head + k) % qm_local_fifo))

abbrev pub FifoOk : Qman → Type 0
FifoOk s = IsQueue s.queue_local_fifo s.q_head s.q_tail

put-IsQueue :
    (fifo : ℕ → LocalFlow) (head tail : ℕ) (e : LocalFlow)
    → IsQueue fifo head tail
    → head ≢ (tail + 1) % qm_local_fifo
    → IsWhole e
    → IsQueue (update fifo tail e) head ((tail + 1) % qm_local_fifo)
put-IsQueue fifo head tail e r n m =
    let record { head_in = h; tail_in = t; whole = w } = r in
    record {
      head_in = h;
      tail_in = omega arith;
      whole = λ k l. elim (ℕ_discrete tail ((head + k) % qm_local_fifo)) [
        | yes y ↦ (ground (arith, y, m.0), ground (arith, y, m.1))
        | no d ↦
            let old : k < used head tail = omega arith in
            let there = w k old in (ground (arith, d, there.0), ground (arith, d, there.1))
      ];
    }

take-IsQueue :
    (fifo : ℕ → LocalFlow) (head tail : ℕ)
    → IsQueue fifo head tail
    → head ≢ tail
    → IsQueue fifo ((head + 1) % qm_local_fifo) tail × IsWhole (fifo head)
take-IsQueue fifo head tail r n =
    let record { head_in = h; tail_in = t; whole = w } = r in
    let at : (k : ℕ)
        → ((head + 1) % qm_local_fifo + k) % qm_local_fifo ≡ (head + (k + 1)) % qm_local_fifo =
      λ k. omega arith in
    let first : (head + 0) % qm_local_fifo ≡ head = omega arith in
    (
      record {
        head_in = omega arith;
        tail_in = t;
        whole = λ k l. subst (λ i. IsWhole (fifo i)) (sym (at k)) (w (k + 1) (omega arith));
      },
      subst (λ i. IsWhole (fifo i)) first (w 0 (omega arith)),
    )

flow_add_to_queue-FifoOk :
    (w avail rate : ℕ) (s : Qman) → FifoOk s → FifoOk (flow_add_to_queue w avail rate s)
unfolding flow_add_to_queue
flow_add_to_queue-FifoOk w avail rate s r =
    let tail = (s.q_tail + 1) % qm_local_fifo in
    let e : LocalFlow = record { flow_id = w; avail = min avail (2 ^ 14) } in
    elim (Bool-cases (rate == 0)) [
      | inr x ↦ rw x r
      | inl x ↦ elim (Bool-cases (ltb avail tcp_mss || (s.q_head == tail))) [
        | inl y ↦ rw (x, y) r
        | inr y ↦
            rw (x, y)
              (put-IsQueue s.queue_local_fifo s.q_head s.q_tail e r (ground (arith, y))
                (ground (arith, y), omega arith))
      ]
    ]

top_up-FifoOk : (granted : ℕ) (s : Qman) → FifoOk s → FifoOk (top_up granted s)
unfolding refresh_credits
top_up-FifoOk granted s r = elim (Bool-cases (ltb s.credits (flow_qm_credits / 4))) [
  | inl x ↦ rw x r
  | inr x ↦ rw x r
]

-- The refresh of the credits changes nothing else.
top_up-rest : (granted : ℕ) (s : Qman) → (c : ℕ) × (top_up granted s ≡ record s { credits = c })
unfolding refresh_credits
top_up-rest granted s = elim (Bool-cases (ltb s.credits (flow_qm_credits / 4))) [
  | inl x ↦ (add32 s.credits granted, rw x refl)
  | inr x ↦ (s.credits, rw x refl)
]

-- With room in the local queue, a flow with less than a segment is put into the overflow ring.
flow_add_to_queue-words :
    (w avail : ℕ) (s : Qman)
    → s.q_head ≢ (s.q_tail + 1) % qm_local_fifo
    → let s' = flow_add_to_queue w avail 0 s in
      (s'.added ≡ (if ltb avail tcp_mss then (qm_fifo_rnum, w) ∷ s.added else s.added))
      × (s'.tx_avail ≡ s.tx_avail)
unfolding flow_add_to_queue
flow_add_to_queue-words w avail s n = elim (Bool-cases (ltb avail tcp_mss)) [
  | inl x ↦ (ground (arith, n, x), ground (arith, n, x))
  | inr x ↦ (ground (arith, n, x), ground (arith, n, x))
]

-- A round of the local queue, with credits and a queue that is not empty, sends the segment of the
-- first flow: the flow goes into the ring for the work of the group of its word, and a segment is
-- taken from what it has to send. That flow had a whole segment, so what is left of it does not
-- wrap; with less than another one left, the flow goes into the overflow ring next, and else no
-- other word goes out. All entries of the queue still have a whole segment.
pub queue_localfifo_poll-FifoOk :
    (granted : ℕ) (s : Qman)
    → FifoOk s
    → s.q_head ≢ s.q_tail
    → 0 < s.credits
    → (s' : Qman) × (queue_localfifo_poll granted s ≡ some s')
      × (sub32 (s.queue_local_fifo s.q_head).avail tcp_mss
          ≡ (s.queue_local_fifo s.q_head).avail - tcp_mss)
      × (s'.added ≡ (
          let w = (s.queue_local_fifo s.q_head).flow_id in
          let sent = (qm_sched_rnum_base + group_of_word w, flow_of_word w) ∷ s.added in
          if ltb ((s.queue_local_fifo s.q_head).avail - tcp_mss) tcp_mss
          then (qm_fifo_rnum, flow_of_word w) ∷ sent
          else sent))
      × (s'.tx_avail ≡ (
          let id = flow_of_word (s.queue_local_fifo s.q_head).flow_id in
          update s.tx_avail id (s.tx_avail id - tcp_mss)))
      × FifoOk s'
unfolding queue_localfifo_poll schedule
queue_localfifo_poll-FifoOk granted s r n c =
    let e = s.queue_local_fifo s.q_head in
    let sent = schedule e.flow_id (record s { q_head = (s.q_head + 1) % qm_local_fifo }) in
    let (rest, first) = take-IsQueue s.queue_local_fifo s.q_head s.q_tail r n in
    let left = sub32 e.avail tcp_mss in
    let record { head_in = h; tail_in = t; whole = all } = r in
    let room : (s.q_head + 1) % qm_local_fifo ≢ (s.q_tail + 1) % qm_local_fifo = omega arith in
    let left_so : left ≡ e.avail - tcp_mss = omega (arith, first) in
    let queued = flow_add_to_queue (flow_of_word e.flow_id) left 0 sent in
    let words = flow_add_to_queue-words (flow_of_word e.flow_id) left sent room in
    let (credits, rest_same) = top_up-rest granted queued in
    (
      top_up granted queued,
      ground (arith, n, c),
      left_so,
      ap (λ (q : Qman). q.added) rest_same ∙ words.0 ∙ rw left_so refl,
      ap (λ (q : Qman). q.tx_avail) rest_same ∙ words.1,
      top_up-FifoOk granted (flow_add_to_queue (flow_of_word e.flow_id) left 0 sent)
          (flow_add_to_queue-FifoOk (flow_of_word e.flow_id) left 0 sent rest),
    )

top_up-fifo : (granted : ℕ) (s : Qman) → (top_up granted s).queue_local_fifo ≡ s.queue_local_fifo
unfolding refresh_credits
top_up-fifo granted s = elim (Bool-cases (ltb s.credits (flow_qm_credits / 4))) [
  | inl x ↦ rw x refl
  | inr x ↦ rw x refl
]

-- With room behind it, a flow with a whole segment stands at the tail.
flow_add_to_queue-tail :
    (w avail : ℕ) (s : Qman)
    → s.q_head ≢ (s.q_tail + 1) % qm_local_fifo
    → tcp_mss ≤ avail
    → ((flow_add_to_queue w avail 0 s).queue_local_fifo s.q_tail).flow_id ≡ w
unfolding flow_add_to_queue
flow_add_to_queue-tail w avail s n m = ground (arith, n, m)

-- A flow of any group that still has a whole segment to send is queued again without its group: the
-- next round takes it for one of group 0.
pub queue_localfifo_poll-group :
    (granted : ℕ) (s : Qman)
    → FifoOk s
    → s.q_head ≢ s.q_tail
    → 0 < s.credits
    → 2 * tcp_mss ≤ (s.queue_local_fifo s.q_head).avail
    → (s' : Qman) × (queue_localfifo_poll granted s ≡ some s')
      × (group_of_word (s'.queue_local_fifo s.q_tail).flow_id ≡ 0)
      × (flow_of_word (s'.queue_local_fifo s.q_tail).flow_id
          ≡ flow_of_word (s.queue_local_fifo s.q_head).flow_id)
unfolding queue_localfifo_poll schedule
queue_localfifo_poll-group granted s r n c two =
    let e = s.queue_local_fifo s.q_head in
    let w = flow_of_word e.flow_id in
    let sent = schedule e.flow_id (record s { q_head = (s.q_head + 1) % qm_local_fifo }) in
    let (rest, first) = take-IsQueue s.queue_local_fifo s.q_head s.q_tail r n in
    let left = sub32 e.avail tcp_mss in
    let record { head_in = h; tail_in = t; whole = all } = r in
    let more : tcp_mss ≤ left = omega (arith, first) in
    let room : (s.q_head + 1) % qm_local_fifo ≢ (s.q_tail + 1) % qm_local_fifo = omega arith in
    let added = flow_add_to_queue w left 0 sent in
    let kept = ap (λ (f : ℕ → LocalFlow). (f s.q_tail).flow_id) (top_up-fifo granted added) in
    let word = kept ∙ flow_add_to_queue-tail w left sent room more in
    (top_up granted added, ground (arith, n, c), omega (arith, word), omega (arith, word))
