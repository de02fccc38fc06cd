-- ===== src/Timeout/Disarm.antt =====
-- `util_timeout_disarm` of util/timeout.c after `util_timeout_arm_ts`.
use flex_toe.Prelude.{
  ℕ, ◌%◌, ◌++◌, ◌==◌, ◌||◌, ◌∷◌, ◌≡◌, Bool, Bool-cases, List, [], arith, false, inl, inr, refl,
  some,
}
use flex_toe.Prelude.Words.{add32}
use flex_toe.Timeout.{
  Manager, Timeout, insert, move_due, move_due_timeouts, stamp, timeout_range, unlink_timeout,
  util_timeout_arm_ts, util_timeout_disarm, walk_back,
}

-- A timeout at this address is in the list.
abbrev pub armed : ℕ → List Timeout → Bool
armed to_id [] = false
armed to_id (to ∷ next) = (to.to_id == to_id) || armed to_id next

unlink-walk_back :
    (cur_ts us : ℕ) (to : Timeout) (l : List Timeout)
    → armed to.to_id l ≡ false
    → (walk_back cur_ts us to l).0 ≡ false
    → unlink_timeout to.to_id (walk_back cur_ts us to l).1 ≡ some l
unfolding walk_back unlink_timeout
unlink-walk_back cur_ts us to [] h e = ground arith
unlink-walk_back cur_ts us to (tp ∷ tn) h e = elim (Bool-cases (walk_back cur_ts us to tn).0) [
  | inl k ↦ ground arith
  | inr k ↦ ground (arith, unlink-walk_back cur_ts us to tn (ground arith) k)
]

unlink-insert :
    (cur_ts us : ℕ) (to : Timeout) (l : List Timeout)
    → armed to.to_id l ≡ false
    → unlink_timeout to.to_id (insert cur_ts us to l) ≡ some l
unfolding insert unlink_timeout
unlink-insert cur_ts us to l h = elim (Bool-cases (walk_back cur_ts us to l).0) [
  | inl k ↦ ground arith
  | inr k ↦ ground (arith, unlink-walk_back cur_ts us to l h k)
]

move_due-armed :
    (cur_ts to_id : ℕ) (l due : List Timeout)
    → armed to_id l ≡ false
    → armed to_id (move_due cur_ts l due).timeouts ≡ false
unfolding move_due
move_due-armed cur_ts to_id [] due h = refl
move_due-armed cur_ts to_id (to ∷ next) due h =
    ground (arith, move_due-armed cur_ts to_id next (due ++ to ∷ []))

disarm-pending :
    (mgr : Manager) (to_id : ℕ) (l : List Timeout)
    → unlink_timeout to_id mgr.timeouts ≡ some l
    → util_timeout_disarm mgr to_id ≡ some (record mgr { timeouts = l })
unfolding util_timeout_disarm
disarm-pending mgr to_id l e = ground arith

-- Disarming a timeout that has just been armed, and was not pending before, leaves what the move of
-- the due timeouts alone leaves.
pub disarm-arm_ts :
    (mgr mgr' : Manager) (to_id us kind now : ℕ)
    → armed to_id mgr.timeouts ≡ false
    → util_timeout_arm_ts mgr to_id us kind now ≡ some mgr'
    → util_timeout_disarm mgr' to_id ≡ some (move_due_timeouts (now % timeout_range) mgr)
unfolding util_timeout_arm_ts
disarm-arm_ts mgr mgr' to_id us kind now h e =
    let cur_ts = now % timeout_range in
    let moved = move_due_timeouts cur_ts mgr in
    let to = stamp to_id kind (add32 cur_ts us % timeout_range) in
    let q : mgr' ≡ record moved { timeouts = insert cur_ts us to moved.timeouts } = ground arith in
    let a = move_due-armed cur_ts to_id mgr.timeouts mgr.due h in
    rw q (disarm-pending _ to_id moved.timeouts (unlink-insert cur_ts us to moved.timeouts a))
