-- ===== src/Timeout.antt =====
-- util/timeout.c: timeouts by wrapping timestamps of 28 bits, in a list by time and a list of those
-- due. A list of structures linked by `next` and `prev` is a List from its first to its last.
pub mod Time
pub mod Order
pub mod Disarm
mod Tests
use flex_toe.Prelude.{
  if◌then◌else◌, ℕ, ◌%◌, ◌&&◌, ◌++◌, ◌+◌, ◌/◌, ◌==◌, ◌^◌, ◌||◌, ◌∷◌, Bool, List, Option, [], false,
  leb, ltb, none, some, suc, true, zero,
}
use flex_toe.Prelude.Words.{add32, mul32, sub32, uint32_max}

-- `1 << TIMEOUT_BITS`.
abbrev pub timeout_range : ℕ
timeout_range = 2 ^ 28

abbrev pub middle : ℕ
middle = 2 ^ 27

abbrev pub max_timeouts : ℕ
max_timeouts = 64

-- `struct timeout`; `to_id` stands for its address.
pub record Timeout : Type 0 where
  pub to_id : ℕ
  pub timeout_type : ℕ

-- `struct timeout_manager` without the handler.
pub record Manager : Type 0 where
  pub timeouts : List Timeout
  pub due : List Timeout

-- Step 3 of `util_timeout_arm_ts`: the type above 28 bits of time.
abbrev pub stamp : ℕ → ℕ → ℕ → Timeout
stamp to_id kind time = record { to_id = to_id; timeout_type = mul32 kind timeout_range + time }

-- The time from `cur_ts` to a timeout, as the bit pattern of an `int32_t`.
unfoldable pub rel_time : ℕ → Timeout → ℕ
rel_time cur_ts to =
    let to_ts = to.timeout_type % timeout_range in
    let start = sub32 cur_ts middle % timeout_range in
    if ltb cur_ts middle
    then if leb start to_ts && ltb to_ts timeout_range
      then sub32 (sub32 to_ts start) middle
      else sub32 to_ts cur_ts
    else if cur_ts == middle
    then sub32 to_ts cur_ts
    else if leb 0 cur_ts && ltb to_ts (add32 (add32 cur_ts middle % timeout_range) 1)
    then add32 to_ts (sub32 timeout_range cur_ts)
    else sub32 to_ts cur_ts

-- `rel_time` is 0 or below.
unfoldable pub timeout_due : Timeout → ℕ → Bool
timeout_due to ts = leb (2 ^ 31) (rel_time ts to) || (rel_time ts to == 0)

-- The loop of `move_due_timeouts`, on the two lists.
unfoldable pub move_due : ℕ → List Timeout → List Timeout → Manager
move_due cur_ts [] due = record { timeouts = []; due = due }
move_due cur_ts (to ∷ next) due =
    let moved = move_due cur_ts next (due ++ to ∷ []) in
    if timeout_due to cur_ts then moved else record { timeouts = to ∷ next; due = due }

abbrev pub move_due_timeouts : ℕ → Manager → Manager
move_due_timeouts cur_ts mgr = move_due cur_ts mgr.timeouts mgr.due

-- The walk of `util_timeout_arm_ts` from the last timeout back to the first that comes no later
-- than `us`, behind which `to` is put. `true`: the walk went through the whole list. The comparison
-- is unsigned, since `us` is.
unfoldable pub walk_back : ℕ → ℕ → Timeout → List Timeout → Bool × List Timeout
walk_back cur_ts us to [] = (true, [])
walk_back cur_ts us to (tp ∷ tn) =
    let (at_start, rest) = walk_back cur_ts us to tn in
    if at_start
    then if ltb us (rel_time cur_ts tp) then (true, tp ∷ tn) else (false, tp ∷ to ∷ tn)
    else (false, tp ∷ rest)

unfoldable pub insert : ℕ → ℕ → Timeout → List Timeout → List Timeout
insert cur_ts us to l =
    let (at_start, rest) = walk_back cur_ts us to l in if at_start then to ∷ l else rest

-- `kind` is the argument `type`. An interval out of range makes the program abort.
unfoldable pub util_timeout_arm_ts : Manager → ℕ → ℕ → ℕ → ℕ → Option Manager
util_timeout_arm_ts mgr to_id us kind now =
    let cur_ts = now % timeout_range in
    let moved = move_due_timeouts cur_ts mgr in
    let to = stamp to_id kind (add32 cur_ts us % timeout_range) in
    if leb middle us
    then none
    else some (record moved { timeouts = insert cur_ts us to moved.timeouts })

-- The list without the timeout at an address.
unfoldable pub unlink_timeout : ℕ → List Timeout → Option (List Timeout)
unlink_timeout to_id [] = none
unlink_timeout to_id (to ∷ next) =
    if to.to_id == to_id
    then some next
    else elim (unlink_timeout to_id next) [ none ↦ none | some rest ↦ some (to ∷ rest) ]

-- `util_timeout_disarm`, for a timeout in one of the lists; `none` for one in neither, whose links
-- it would follow.
unfoldable pub util_timeout_disarm : Manager → ℕ → Option Manager
util_timeout_disarm mgr to_id = elim (unlink_timeout to_id mgr.timeouts) [
  | some l ↦ some (record mgr { timeouts = l })
  | none ↦ elim (unlink_timeout to_id mgr.due) [
    | some l ↦ some (record mgr { due = l })
    | none ↦ none
  ]
]

unfoldable pub util_timeout_next : Manager → ℕ → ℕ
util_timeout_next mgr now = elim mgr.due [
  | _ ∷ _ ↦ 0
  | [] ↦ elim mgr.timeouts [
    | [] ↦ uint32_max
    | to ∷ _ ↦ let next = rel_time (now % timeout_range) to in if leb (2 ^ 31) next then 0 else next
  ]
]

-- The loop of `util_timeout_poll_ts`, with `left` of its 64 rounds left: the handler may arm and
-- disarm timeouts, and gets the address and the type.
unfoldable pub run_due : (Manager → ℕ → ℕ → Manager) → ℕ → Manager → Manager
run_due handler zero mgr = mgr
run_due handler (suc left) mgr = elim mgr.due [
  | [] ↦ mgr
  | to ∷ rest ↦
      run_due handler left
        (handler (record mgr { due = rest }) to.to_id (to.timeout_type / timeout_range))
]

unfoldable pub util_timeout_poll_ts : (Manager → ℕ → ℕ → Manager) → Manager → ℕ → Manager
util_timeout_poll_ts handler mgr now =
    run_due handler max_timeouts (move_due_timeouts (now % timeout_range) mgr)
