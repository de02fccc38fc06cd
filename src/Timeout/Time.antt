-- ===== src/Timeout/Time.antt =====
-- The wrapping time of util/timeout.c: when a timeout is due.
use native.Mathlib.Decide.{ℕ_discrete, dec_le}
use flex_toe.Prelude.{ℕ, ◌%◌, ◌+◌, ◌-◌, ◌<◌, ◌≡◌, arith, leb}
use flex_toe.Prelude.Words.{add32, u32_mod}
use flex_toe.Timeout.{Timeout, middle, rel_time, stamp, timeout_due, timeout_range}

-- The type and the time of a timeout are read back as they were stored.
pub stamp-time :
    (to_id kind time : ℕ)
    → time < timeout_range
    → (stamp to_id kind time).timeout_type % timeout_range ≡ time
stamp-time to_id kind time h = omega arith

-- The time left, of a timeout that is `left` microseconds ahead.
pub rel_time-ahead :
    (cur_ts left : ℕ) (to : Timeout)
    → cur_ts < timeout_range
    → left < middle
    → to.timeout_type % timeout_range ≡ (cur_ts + left) % timeout_range
    → rel_time cur_ts to ≡ left
unfolding rel_time
rel_time-ahead cur_ts left to h k e = ground arith

-- The same, of one that was due `late` microseconds ago.
rel_time-late :
    (cur_ts late : ℕ) (to : Timeout)
    → cur_ts < timeout_range
    → 0 < late
    → late < middle
    → (to.timeout_type + late) % timeout_range ≡ cur_ts
    → rel_time cur_ts to ≡ u32_mod - late
unfolding rel_time
rel_time-late cur_ts late to h p k e = ground arith

-- A timeout that is armed at time `now` for `us` microseconds is due after `d` microseconds if and
-- only if `us` have passed, whatever wraps around. `us` is below 2 ^ 27, as `util_timeout_arm_ts`
-- requires, and it is looked at less than 2 ^ 27 microseconds late.
pub timeout_due-elapsed :
    (now d us to_id kind : ℕ)
    → us < middle
    → d < us + middle
    → timeout_due
        (stamp to_id kind (add32 (now % timeout_range) us % timeout_range))
        ((now + d) % timeout_range)
      ≡ leb us d
unfolding timeout_due
timeout_due-elapsed now d us to_id kind h k =
    let time = add32 (now % timeout_range) us % timeout_range in
    let to = stamp to_id kind time in
    let cur_ts = (now + d) % timeout_range in
    let stored = stamp-time to_id kind time (omega arith) in
    elim (dec_le us d) [
      | yes p ↦ elim (ℕ_discrete us d) [
        | yes e ↦
            ground (arith, rel_time-ahead cur_ts 0 to (omega arith) (omega arith) (omega arith))
        | no n ↦ ground (
          arith,
          rel_time-late cur_ts (d - us) to (omega arith) (omega arith) (omega arith) (omega arith),
        )
      ]
      | no n ↦
          ground
            (arith, rel_time-ahead cur_ts (us - d) to (omega arith) (omega arith) (omega arith))
    ]
