-- ===== src/Timeout/Tests.antt =====
-- Runs of util/timeout.c, over the point where 28 bits of time wrap.
use flex_toe.Prelude.{ℕ, ◌%◌, ◌*◌, ◌+◌, ◌-◌, ◌^◌, ◌∷◌, ◌≡◌, [], arith, refl, some}
use flex_toe.Timeout.{
  Manager, Timeout, insert, move_due, rel_time, timeout_due, timeout_range, util_timeout_arm_ts,
  walk_back,
}
use flex_toe.Timeout.Order.{Ascending, arm_ts-Ascending}

-- Armed ten microseconds before the wrap, for 20 and for 5.
abbrev now : ℕ
now = 2 ^ 28 - 10

abbrev later : Timeout
later = record { to_id = 1; timeout_type = 10 }

abbrev sooner : Timeout
sooner = record { to_id = 2; timeout_type = 3 * 2 ^ 28 + (2 ^ 28 - 5) }

abbrev over : Timeout
over = record { to_id = 3; timeout_type = 2 ^ 28 - 20 }

abbrev waiting : Manager
waiting = record { timeouts = over ∷ later ∷ []; due = [] }

abbrev waiting_both : Manager
waiting_both = record { timeouts = sooner ∷ later ∷ []; due = over ∷ [] }

waiting_ordered : Ascending (now % timeout_range) 0 waiting.timeouts
unfolding Ascending rel_time
waiting_ordered = (omega arith, (omega arith, tt))

arm_run : util_timeout_arm_ts waiting 2 5 3 now ≡ some waiting_both
unfolding util_timeout_arm_ts insert walk_back move_due timeout_due rel_time
arm_run = refl

arm_ts-Ascending_example : Ascending (now % timeout_range) (2 ^ 31) waiting_both.timeouts
arm_ts-Ascending_example = arm_ts-Ascending waiting waiting_both 2 5 3 now waiting_ordered arm_run
