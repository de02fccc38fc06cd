-- ===== src/Qman/Slots.antt =====
-- The slots of firmware/qman.c, for flows with a rate.
use flex_toe.Prelude.{ℕ, ◌%◌, ◌*◌, ◌+◌, ◌/◌, ◌<◌, ◌^◌, ◌∷◌, ◌≡◌, ◌≢◌, ◌≤◌, arith, min, refl}
use flex_toe.Prelude.Words.{add32, mul32}
use flex_toe.Flow.Send.{tcp_mss}
use flex_toe.Qman.{
  Qman, close_slot, flow_add_to_queue, qm_num_slots, qm_slot_rnum_base, slots_ahead,
}

slots_ahead-lt :
    (avail rate skip : ℕ)
    → skip ≤ 1
    → (slots_ahead avail rate skip < qm_num_slots) × (skip ≤ slots_ahead avail rate skip)
unfolding slots_ahead
slots_ahead-lt avail rate skip h = (ground arith, ground arith)

-- A flow with a rate goes into a slot of the wheel, whose count grows by one (in 32 bits). Once the
-- current slot is closed, it goes into another one, and the count of the closed slot stays.
pub flow_add_to_queue-closed :
    (w avail rate : ℕ) (s : Qman)
    → 0 < rate
    → s.current_slot < qm_num_slots
    → (s' : Qman) × (slot : ℕ) × (flow_add_to_queue w avail rate (close_slot s) ≡ s')
      × (slot < qm_num_slots)
      × (slot ≢ s.current_slot)
      × (s'.added ≡ (qm_slot_rnum_base + slot, w) ∷ s.added)
      × (s'.queue_status slot ≡ add32 (s.queue_status slot) 1)
      × (s'.queue_status s.current_slot ≡ s.queue_status s.current_slot)
unfolding flow_add_to_queue close_slot
flow_add_to_queue-closed w avail rate s pos cur =
    let k = slots_ahead-lt avail rate 1 (omega arith) in
    let slot = (s.current_slot + slots_ahead avail rate 1) % qm_num_slots in
    let far : slot ≢ s.current_slot = omega (arith, k) in
    (
      _,
      slot,
      refl,
      omega arith,
      far,
      ground (arith, pos),
      ground (arith, pos),
      ground (arith, pos, far),
    )

-- The time of a slow flow is computed in 32 bits: just above 2 ^ 32 it comes out as nothing, and the
-- flow, with a whole segment to send, goes into the current slot instead of the last one.
pub slots_ahead-wraps :
    (avail rate : ℕ)
    → tcp_mss ≤ avail
    → 2 ^ 32 ≤ rate * tcp_mss
    → rate * tcp_mss < 2 ^ 32 + 2 ^ 18
    → (slots_ahead avail rate 0 ≡ 0) × (qm_num_slots ≤ rate * tcp_mss / 2 ^ 18)
unfolding slots_ahead
slots_ahead-wraps avail rate m lo hi =
    let small : mul32 rate (min tcp_mss avail) / 2 ^ 10 / 2 ^ 8 ≡ 0 = ground arith in
    (ground (arith, small), omega arith)
