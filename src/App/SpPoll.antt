-- ===== src/App/SpPoll.antt =====
-- `sp_poll` in lib/tas/init.c.
-- The first loop has ended, with room for the second.
use flex_toe.Prelude.{
  ℕ, ◌++◌, ◌+◌, ◌-◌, ◌<◌, ◌≡◌, ◌≤◌, Bool-cases, List, Option-cases, arith, false, inl, inr, length,
  length-append, ltb, none, refl, some, subst, suc, sym, true, zero,
}
use flex_toe.App.Entries.{StepFits, sp_event-StepFits}
use flex_toe.App.Events.{AppEvent}
use flex_toe.App.Poll.{
  EntryStep, PollContext, PollResult, SpMessage, found_events, sp_event, sp_loop, sp_next,
}
use flex_toe.App.State.{AppContext}

abbrev pub Ready : ℕ → PollResult → Type 0
Ready num PollResult.aborted = Unit {0}
Ready num PollResult.still = ⊥
Ready num (PollResult.polled p evs out) = (length evs ≤ num) × (p.rxq_head < p.rxq_len)

-- The three results of an entry of the queue from the slow path.
sp_after-Ready :
    (n num : ℕ) (evs : List AppEvent) (p : PollContext) (r : EntryStep)
    → length evs ≤ num
    → p.rxq_head < p.rxq_len
    → StepFits 1 (num - length evs) r
    → ((ctx : AppContext) (new : List AppEvent)
        → 1 ≤ length new
        → length new ≤ num - length evs
        → Ready num (sp_loop n num (evs ++ new) (sp_next ctx p)))
    → Ready num (elim r as (λ x. PollResult) [
      | EntryStep.aborts ↦ PollResult.aborted
      | EntryStep.no_room ↦ PollResult.polled (found_events p) evs true
      | EntryStep.step ctx new ↦ sp_loop n num (evs ++ new) (sp_next ctx p)
    ])
sp_after-Ready n num evs p EntryStep.aborts h l f rest = tt
sp_after-Ready n num evs p EntryStep.no_room h l f rest = (h, l)
sp_after-Ready n num evs p (EntryStep.step ctx new) h l f rest = rest ctx new f.0 f.1

-- The cases of a round.
module _ (n num : ℕ) (evs : List AppEvent) (p : PollContext) where
  sp-full : ltb (length evs) num ≡ false → sp_loop (suc n) num evs p ≡ PollResult.polled p evs false
  unfolding sp_loop
  sp-full full = rw (full, sp_loop) refl

  sp-idle :
      ltb (length evs) num ≡ true
      → p.spout p.spout_head ≡ none
      → sp_loop (suc n) num evs p ≡ PollResult.polled p evs false
  unfolding sp_loop
  sp-idle more e = rw (more, sp_loop, e) refl

  sp-entry :
      (m : SpMessage)
      → ltb (length evs) num ≡ true
      → p.spout p.spout_head ≡ some m
      → sp_loop (suc n) num evs p
        ≡ (elim (sp_event m (num - length evs) p.app) as (λ x. PollResult) [
          | EntryStep.aborts ↦ PollResult.aborted
          | EntryStep.no_room ↦ PollResult.polled (found_events p) evs true
          | EntryStep.step ctx new ↦ sp_loop n num (evs ++ new) (sp_next ctx p)
        ])
  unfolding sp_loop
  sp-entry m more e = rw (more, sp_loop, e) refl

pub sp_loop-Ready :
    (n num : ℕ) (evs : List AppEvent) (p : PollContext)
    → length evs ≤ num
    → p.rxq_head < p.rxq_len
    → num ≤ length evs + n
    → Ready num (sp_loop (suc n) num evs p)
sp_loop-Ready zero num evs p h l k =
    subst (Ready num) (sym (sp-full zero num evs p (ground arith))) (h, l)
sp_loop-Ready (suc n) num evs p h l k = elim (Bool-cases (ltb (length evs) num)) [
  | inr full ↦ subst (Ready num) (sym (sp-full (suc n) num evs p full)) (h, l)
  | inl more ↦ elim (Option-cases (p.spout p.spout_head)) [
    | inl e ↦ subst (Ready num) (sym (sp-idle (suc n) num evs p more e)) (h, l)
    | inr (m, e) ↦ subst (Ready num) (sym (sp-entry (suc n) num evs p m more e)) (
        sp_after-Ready (suc n) num evs p (sp_event m (num - length evs) p.app) h l
          (sp_event-StepFits m (num - length evs) p.app (ground (arith, more)))
          (λ ctx new lo hi.
            sp_loop-Ready n num (evs ++ new) (sp_next ctx p)
              (omega (arith, length-append evs new, lo, hi)) l
              (omega (arith, length-append evs new, lo, hi))))
  ]
]
