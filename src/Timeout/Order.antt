-- ===== src/Timeout/Order.antt =====
-- The order of the two lists of util/timeout.c.
use mathlib.Core.List.{append_assoc}
use native.Mathlib.Decide.{dec_lt}
use flex_toe.Prelude.{
  ℕ, ◌%◌, ◌++◌, ◌+◌, ◌<◌, ◌^◌, ◌∙◌, ◌∷◌, ◌≡◌, ◌≤◌, ◌⊎◌, Bool-cases, List, [], ap, arith, false, inl,
  inr, refl, some, subst, sym, true,
}
use flex_toe.Prelude.Words.{add32, u32_mod}
use flex_toe.Timeout.{
  Manager, Timeout, insert, middle, move_due, move_due_timeouts, rel_time, stamp, timeout_due,
  timeout_range, util_timeout_arm_ts, walk_back,
}
use flex_toe.Timeout.Time.{rel_time-ahead, stamp-time}

-- The time to a timeout, moved up by 2 ^ 31 so that it is ordered as a number.
abbrev pub ahead : ℕ → Timeout → ℕ
ahead cur_ts to = add32 (rel_time cur_ts to) (2 ^ 31)

-- The timeouts come in the order of their times, from `lo` on.
unfoldable pub Ascending : ℕ → ℕ → List Timeout → Type 0
Ascending cur_ts lo [] = Unit {0}
Ascending cur_ts lo (to ∷ next) = (lo ≤ ahead cur_ts to) × Ascending cur_ts (ahead cur_ts to) next

rel_time-word : (cur_ts : ℕ) (to : Timeout) → rel_time cur_ts to < u32_mod
unfolding rel_time
rel_time-word cur_ts to = ground arith

Ascending-lower :
    (cur_ts lo hi : ℕ) (l : List Timeout) → lo ≤ hi → Ascending cur_ts hi l → Ascending cur_ts lo l
unfolding Ascending
Ascending-lower cur_ts lo hi [] h a = a
Ascending-lower cur_ts lo hi (to ∷ next) h a = (omega (arith, a.0), a.1)

not_due-ahead :
    (cur_ts : ℕ) (to : Timeout) → timeout_due to cur_ts ≡ false → 2 ^ 31 + 1 ≤ ahead cur_ts to
unfolding timeout_due
not_due-ahead cur_ts to k = ground arith

move_due-Ascending :
    (cur_ts lo : ℕ) (l due : List Timeout)
    → Ascending cur_ts lo l
    → Ascending cur_ts (2 ^ 31 + 1) (move_due cur_ts l due).timeouts
unfolding move_due Ascending
move_due-Ascending cur_ts lo [] due a = a
move_due-Ascending cur_ts lo (to ∷ next) due a = elim (Bool-cases (timeout_due to cur_ts)) [
  | inl k ↦
      let q : move_due cur_ts (to ∷ next) due ≡ move_due cur_ts next (due ++ to ∷ []) =
        ground arith in
      rw q (move_due-Ascending cur_ts (ahead cur_ts to) next (due ++ to ∷ []) a.1)
  | inr k ↦
      let q : move_due cur_ts (to ∷ next) due ≡ record { timeouts = to ∷ next; due = due } =
        ground arith in
      rw q (not_due-ahead cur_ts to k, a.1)
]

walk_back-Ascending :
    (cur_ts us lo : ℕ) (to : Timeout) (l : List Timeout)
    → rel_time cur_ts to ≡ us
    → us < middle
    → 2 ^ 31 ≤ lo
    → Ascending cur_ts lo l
    → (((walk_back cur_ts us to l).0 ≡ true) × Ascending cur_ts (ahead cur_ts to) l)
      ⊎ (((walk_back cur_ts us to l).0 ≡ false) × Ascending cur_ts lo (walk_back cur_ts us to l).1)
unfolding walk_back Ascending
walk_back-Ascending cur_ts us lo to [] e h k a = inl (refl, a)
walk_back-Ascending cur_ts us lo to (tp ∷ tn) e h k a =
    let w = rel_time-word cur_ts tp in
    elim (walk_back-Ascending cur_ts us (ahead cur_ts tp) to tn e h (omega (arith, a.0)) a.1) [
      | inl p ↦ elim (dec_lt us (rel_time cur_ts tp)) [
        | yes y ↦
            let q : walk_back cur_ts us to (tp ∷ tn) ≡ (true, tp ∷ tn) = ground (arith, p.0) in
            inl (ap (λ x. x.0) q, (omega (arith, w, e, a.0), a.1))
        | no n ↦
            let q : walk_back cur_ts us to (tp ∷ tn) ≡ (false, tp ∷ to ∷ tn) =
              ground (arith, p.0) in
            inr (
              ap (λ x. x.0) q,
              subst (λ x. Ascending cur_ts lo x.1) (sym q) (a.0, (omega (arith, w, e, a.0), p.1)),
            )
      ]
      | inr p ↦
          let rest = (walk_back cur_ts us to tn).1 in
          let q : walk_back cur_ts us to (tp ∷ tn) ≡ (false, tp ∷ rest) = ground (arith, p.0) in
          inr (ap (λ x. x.0) q, subst (λ x. Ascending cur_ts lo x.1) (sym q) (a.0, p.1))
    ]

insert-Ascending :
    (cur_ts us : ℕ) (to : Timeout) (l : List Timeout)
    → rel_time cur_ts to ≡ us
    → us < middle
    → Ascending cur_ts (2 ^ 31) l
    → Ascending cur_ts (2 ^ 31) (insert cur_ts us to l)
unfolding insert Ascending
insert-Ascending cur_ts us to l e h a =
    let rest = (walk_back cur_ts us to l).1 in
    elim (walk_back-Ascending cur_ts us (2 ^ 31) to l e h (omega arith) a) [
      | inl p ↦
          let q : insert cur_ts us to l ≡ to ∷ l = ground (arith, p.0) in
          rw q (omega (arith, e), p.1)
      | inr p ↦ let q : insert cur_ts us to l ≡ rest = ground (arith, p.0) in rw q p.1
    ]

-- Arming a timeout keeps the pending list in the order of time, and what is left in it is not in
-- the past. It was in order before, as seen from the same time.
pub arm_ts-Ascending :
    (mgr mgr' : Manager) (to_id us kind now : ℕ)
    → Ascending (now % timeout_range) 0 mgr.timeouts
    → util_timeout_arm_ts mgr to_id us kind now ≡ some mgr'
    → Ascending (now % timeout_range) (2 ^ 31) mgr'.timeouts
unfolding util_timeout_arm_ts
arm_ts-Ascending mgr mgr' to_id us kind now a e =
    let cur_ts = now % timeout_range in
    let time = add32 cur_ts us % timeout_range in
    let to = stamp to_id kind time in
    let l = (move_due_timeouts cur_ts mgr).timeouts in
    elim (dec_lt us middle) [
      | no n ↦ ground arith
      | yes y ↦
          let q : mgr'.timeouts ≡ insert cur_ts us to l = ground arith in
          let t = stamp-time to_id kind time (omega arith) in
          let r = rel_time-ahead cur_ts us to (omega arith) y (omega (arith, t)) in
          rw q (
            insert-Ascending cur_ts us to l r y (
              Ascending-lower cur_ts (2 ^ 31) (2 ^ 31 + 1) l (omega arith)
                (move_due-Ascending cur_ts 0 mgr.timeouts mgr.due a)))
    ]

move_due-append :
    (cur_ts : ℕ) (l due : List Timeout)
    → (move_due cur_ts l due).due ++ (move_due cur_ts l due).timeouts ≡ due ++ l
unfolding move_due
move_due-append cur_ts [] due = refl
move_due-append cur_ts (to ∷ next) due = elim (Bool-cases (timeout_due to cur_ts)) [
  | inl k ↦
      let q : move_due cur_ts (to ∷ next) due ≡ move_due cur_ts next (due ++ to ∷ []) =
        ground arith in
      rw q (move_due-append cur_ts next (due ++ to ∷ []) ∙ append_assoc due (to ∷ []) next)
  | inr k ↦
      let q : move_due cur_ts (to ∷ next) due ≡ record { timeouts = to ∷ next; due = due } =
        ground arith in
      rw q refl
]

-- `move_due_timeouts` loses no timeout and changes no order: the lists end to end stay the same. If
-- the pending ones are in the order of time, none of those left is due.
pub move_due_timeouts-split :
    (cur_ts : ℕ) (mgr : Manager)
    → Ascending cur_ts 0 mgr.timeouts
    → ((move_due_timeouts cur_ts mgr).due ++ (move_due_timeouts cur_ts mgr).timeouts
        ≡ mgr.due ++ mgr.timeouts)
      × Ascending cur_ts (2 ^ 31 + 1) (move_due_timeouts cur_ts mgr).timeouts
move_due_timeouts-split cur_ts mgr a = (
  move_due-append cur_ts mgr.timeouts mgr.due,
  move_due-Ascending cur_ts 0 mgr.timeouts mgr.due a,
)
