-- ===== src/App/Grace.antt =====
-- The calls that lead `flextcp_context_canwait` in lib/tas/init.c to its permission.
-- No poll has found events since the question at `t0`.
use flex_toe.Prelude.{
  ℕ, ◌+◌, ◌<◌, ◌^◌, ◌∷◌, ◌≡◌, ◌≤◌, ◌⊎◌, Bool, Bool-cases, List, [], arith, false, inl, inr, ltb,
  refl, some, subst, sym, true,
}
use flex_toe.Prelude.Words.{sub64}
use flex_toe.App.Wait.{WaitOp, WaitState, canwait, poll_flags, wait_run, waitclear}

pub data Quiet (t0 : ℕ) : List WaitOp → Type 0 where
  start : {h : List WaitOp} → Quiet t0 (WaitOp.asked t0 ∷ h)
  quiet_poll : {h : List WaitOp} → Quiet t0 h → Quiet t0 (WaitOp.polled false ∷ h)
  quiet_ask : {h : List WaitOp} {t : ℕ} → Quiet t0 h → Quiet t0 (WaitOp.asked t ∷ h)

-- And a later question came after more than `cycle`.
pub data Over (cycle : ℕ) : List WaitOp → Type 0 where
  over :
      {h : List WaitOp} {t0 t1 : ℕ}
      → Quiet t0 h
      → cycle < sub64 t1 t0
      → Over cycle (WaitOp.asked t1 ∷ h)
  over_poll : {h : List WaitOp} → Over cycle h → Over cycle (WaitOp.polled false ∷ h)
  over_ask : {h : List WaitOp} {t : ℕ} → Over cycle h → Over cycle (WaitOp.asked t ∷ h)

-- And a poll after that found nothing.
pub data Settled (cycle : ℕ) : List WaitOp → Type 0 where
  settled : {h : List WaitOp} → Over cycle h → Settled cycle (WaitOp.polled false ∷ h)
  settled_ask : {h : List WaitOp} {t : ℕ} → Settled cycle h → Settled cycle (WaitOp.asked t ∷ h)

Settled-Over : {cycle : ℕ} {h : List WaitOp} → Settled cycle h → Over cycle h
Settled-Over (settled o) = over_poll o
Settled-Over (settled_ask s) = over_ask (Settled-Over s)

-- What the flags say of the calls so far.
record WaitInv (cycle : ℕ) (h : List WaitOp) (s : WaitState) : Type 0 where
  grace : s.poll_events ≡ false → s.wantwait ≡ true → Quiet s.last_inev_ts h
  last : s.poll_events ≡ false → s.lastwait ≡ true → Over cycle h
  ready : s.poll_events ≡ false → s.lastwait ≡ true → s.poll_called ≡ true → Settled cycle h
  one_of : s.wantwait ≡ true → s.lastwait ≡ false

poll-WaitInv :
    (cycle : ℕ) (h : List WaitOp) (s : WaitState) (found : Bool)
    → WaitInv cycle h s
    → WaitInv cycle (WaitOp.polled found ∷ h) (poll_flags found s)
poll-WaitInv cycle h s true i = record {
  grace = λ e w. absurd (ground (arith, e));
  last = λ e w. absurd (ground (arith, e));
  ready = λ e w p. absurd (ground (arith, e));
  one_of = i.one_of;
}
poll-WaitInv cycle h s false i = record {
  grace = λ e w. quiet_poll (i.grace (ground (arith, e)) w);
  last = λ e w. over_poll (i.last (ground (arith, e)) w);
  ready = λ e w p. settled (i.last (ground (arith, e)) w);
  one_of = i.one_of;
}

clear-WaitInv :
    (cycle : ℕ) (h : List WaitOp) (s : WaitState) → WaitInv cycle (WaitOp.cleared ∷ h) (waitclear s)
clear-WaitInv cycle h s = record {
  grace = λ e w. absurd (ground (arith, w));
  last = λ e l. absurd (ground (arith, l));
  ready = λ e l p. absurd (ground (arith, l));
  one_of = λ w. refl;
}

module _ (cycle now : ℕ) (h : List WaitOp) (s : WaitState) (i : WaitInv cycle h s) where
  unchanged-WaitInv : WaitInv cycle (WaitOp.asked now ∷ h) s
  unchanged-WaitInv = record {
    grace = λ e w. quiet_ask (i.grace e w);
    last = λ e w. over_ask (i.last e w);
    ready = λ e w p. settled_ask (i.ready e w p);
    one_of = i.one_of;
  }

  -- The question ends the grace period.
  over-WaitInv :
      s.poll_events ≡ false
      → s.wantwait ≡ true
      → cycle < sub64 now s.last_inev_ts
      → WaitInv cycle
          (WaitOp.asked now ∷ h)
          (record s { poll_called = false; wantwait = false; lastwait = true })
  over-WaitInv e w c = record {
    grace = λ e' w'. absurd (ground (arith, w'));
    last = λ e' l. over (i.grace e w) c;
    ready = λ e' l p. absurd (ground (arith, p));
    one_of = λ w'. absurd (ground (arith, w'));
  }

  -- The question starts it.
  start-WaitInv :
      s.lastwait ≡ false
      → WaitInv cycle (WaitOp.asked now ∷ h) (record s { last_inev_ts = now; wantwait = true })
  start-WaitInv l = record {
    grace = λ e w. start;
    last = λ e l'. absurd (ground (arith, l, l'));
    ready = λ e l' p. absurd (ground (arith, l, l'));
    one_of = λ w. l;
  }

  reset-WaitInv :
      WaitInv cycle
        (WaitOp.asked now ∷ h)
        (record s { poll_events = false; wantwait = false; lastwait = false })
  reset-WaitInv = record {
    grace = λ e w. absurd (ground (arith, w));
    last = λ e l. absurd (ground (arith, l));
    ready = λ e l p. absurd (ground (arith, l));
    one_of = λ w. refl;
  }

  becomes :
      {s' : WaitState}
      → (canwait (some cycle) now s).0 ≡ s'
      → WaitInv cycle (WaitOp.asked now ∷ h) s'
      → WaitInv cycle (WaitOp.asked now ∷ h) (canwait (some cycle) now s).0
  becomes e j = subst (WaitInv cycle (WaitOp.asked now ∷ h)) (sym e) j

  ask-WaitInv : WaitInv cycle (WaitOp.asked now ∷ h) (canwait (some cycle) now s).0
  unfolding canwait
  ask-WaitInv = elim (Bool-cases s.poll_events) [
    | inl e ↦ becomes (rw e refl) reset-WaitInv
    | inr e ↦ elim (Bool-cases s.wantwait) [
      | inl w ↦ elim (Bool-cases (ltb cycle (sub64 now s.last_inev_ts))) [
        | inl c ↦ becomes (ground (arith, e, w, c)) (over-WaitInv e w (ground (arith, c)))
        | inr c ↦ becomes (ground (arith, e, w, c)) unchanged-WaitInv
      ]
      | inr w ↦ elim (Bool-cases s.lastwait) [
        | inl l ↦ becomes (ground (arith, e, w, l)) unchanged-WaitInv
        | inr l ↦ elim (Bool-cases s.poll_called) [
          | inl p ↦ becomes (ground (arith, e, w, l, p)) (start-WaitInv l)
          | inr p ↦ becomes (ground (arith, e, w, l, p)) unchanged-WaitInv
        ]
      ]
    ]
  ]

wait_run-WaitInv : (cycle : ℕ) (h : List WaitOp) → WaitInv cycle h (wait_run cycle h)
unfolding wait_run
wait_run-WaitInv cycle [] = record {
  grace = λ e w. absurd (ground (arith, w));
  last = λ e l. absurd (ground (arith, l));
  ready = λ e l p. absurd (ground (arith, l));
  one_of = λ w. refl;
}
wait_run-WaitInv cycle (WaitOp.polled found ∷ h) =
    poll-WaitInv cycle h (wait_run cycle h) found (wait_run-WaitInv cycle h)
wait_run-WaitInv cycle (WaitOp.asked now ∷ h) =
    ask-WaitInv cycle now h (wait_run cycle h) (wait_run-WaitInv cycle h)
wait_run-WaitInv cycle (WaitOp.cleared ∷ h) = clear-WaitInv cycle h (wait_run cycle h)

-- The application may wait only if it asked before, asked again after more than the time for polling,
-- and polled once more after that, and no poll since the first of these questions found an event.
pub canwait-Settled :
    (cycle now : ℕ) (h : List WaitOp)
    → (canwait (some cycle) now (wait_run cycle h)).1 ≡ true
    → Settled cycle h
unfolding canwait
canwait-Settled cycle now h e =
    let i = wait_run-WaitInv cycle h in
    let s = wait_run cycle h in
    let quiet : s.poll_events ≡ false = ground (arith, e) in
    let ended : s.lastwait ≡ true = ground (arith, e) in
    let called : s.poll_called ≡ true = ground (arith, e) in i.ready quiet ended called

-- All questions came at `t0` at the latest.
abbrev pub AskedBy : ℕ → List WaitOp → Type 0
AskedBy t0 [] = Unit {0}
AskedBy t0 (WaitOp.asked t ∷ h) = (t ≤ t0) × AskedBy t0 h
AskedBy t0 (WaitOp.polled found ∷ h) = AskedBy t0 h
AskedBy t0 (WaitOp.cleared ∷ h) = AskedBy t0 h

last_inev_ts-le :
    (cycle t0 : ℕ) (h : List WaitOp) → AskedBy t0 h → (wait_run cycle h).last_inev_ts ≤ t0
unfolding wait_run canwait
last_inev_ts-le cycle t0 [] a = omega arith
last_inev_ts-le cycle t0 (WaitOp.polled found ∷ h) a = last_inev_ts-le cycle t0 h a
last_inev_ts-le cycle t0 (WaitOp.cleared ∷ h) a = last_inev_ts-le cycle t0 h a
last_inev_ts-le cycle t0 (WaitOp.asked t ∷ h) a =
    ground (arith, a.0, last_inev_ts-le cycle t0 h a.1)

abbrev asks : ℕ → ℕ → WaitState → WaitState
asks cycle t s = (canwait (some cycle) t s).0

-- A state from which one more poll without an event leads to the permission.
abbrev Last : WaitState → Type 0
Last s = (s.poll_events ≡ false) × (s.wantwait ≡ false) × (s.lastwait ≡ true)

-- No event, and the grace period is over or runs since `t` at the latest.
abbrev Waiting : ℕ → WaitState → Type 0
Waiting t s =
    (s.poll_events ≡ false)
    × (((s.wantwait ≡ true) × (s.last_inev_ts ≤ t)) ⊎ ((s.wantwait ≡ false) × (s.lastwait ≡ true)))

module _ (cycle : ℕ) where
  -- A question forgets the events found.
  ask-quiet : (t : ℕ) (s : WaitState) → (asks cycle t s).poll_events ≡ false
  unfolding canwait
  ask-quiet t s = ground arith

  -- After a poll without an event the grace period runs, or it is over.
  ask-waits :
      (t : ℕ) (s : WaitState)
      → s.poll_events ≡ false
      → s.poll_called ≡ true
      → s.last_inev_ts ≤ t
      → Waiting t (asks cycle t s)
  unfolding canwait
  ask-waits t s e p l = ground (arith, e, p)

  ask-over :
      (t t' : ℕ) (s : WaitState)
      → cycle + t < t'
      → t' < 2 ^ 64
      → Waiting t s
      → Last (asks cycle t' s)
  unfolding canwait
  ask-over t t' s l b w = ground arith

  poll-granted :
      (t : ℕ) (s : WaitState) → Last s → (canwait (some cycle) t (poll_flags false s)).1 ≡ true
  unfolding canwait
  poll-granted t s l = ground (arith, l)

-- From each state that the application's calls lead to, with questions at times that do not run
-- backwards, these calls lead to the permission to wait: a question at `t`, a poll that finds no
-- event, questions at `t0` and, more than the time for polling later, at `t1`, a poll that finds no
-- event, and one more question. The time stamps fit 64 bits.
pub canwait-granted :
    (cycle t t0 t1 t2 : ℕ) (h : List WaitOp)
    → AskedBy t h
    → t ≤ t0
    → cycle + t0 < t1
    → t1 < 2 ^ 64
    → (canwait (some cycle) t2 (
        wait_run cycle (
          WaitOp.polled false
          ∷ WaitOp.asked t1
          ∷ WaitOp.asked t0
          ∷ WaitOp.polled false
          ∷ WaitOp.asked t
          ∷ h))).1
      ≡ true
unfolding wait_run
canwait-granted cycle t t0 t1 t2 h a k c b =
    let s = asks cycle t (wait_run cycle h) in
    let stamp : s.last_inev_ts ≤ t0 =
      omega (arith, last_inev_ts-le cycle t (WaitOp.asked t ∷ h) (omega arith, a)) in
    let quiet : s.poll_events ≡ false = ask-quiet cycle t (wait_run cycle h) in
    let waits = ask-waits cycle t0 (poll_flags false s) (ground (arith, quiet)) refl stamp in
    let asked = asks cycle t0 (poll_flags false s) in
    poll-granted cycle t2 (asks cycle t1 asked) (ask-over cycle t0 t1 asked c b waits)
