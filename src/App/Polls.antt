-- ===== src/App/Polls.antt =====
-- `flextcp_context_poll` in lib/tas/init.c: its loops end, and its events fit.
-- A loop has ended, with at most `num` events.
use flex_toe.Prelude.{
  ℕ, ◌++◌, ◌+◌, ◌-◌, ◌<◌, ◌∙◌, ◌≡◌, ◌≢◌, ◌≤◌, Bool-cases, List, Option, Option-cases, [], ap, arith,
  false, inl, inr, length, length-append, ltb, none, refl, some, subst, suc, sym, true, update,
  update_ne, update_self, zero,
}
use flex_toe.Prelude.Rings.{wrap}
use flex_toe.App.Bumps.{conns_bump}
use flex_toe.App.Entries.{StepFits, arx_event-StepFits}
use flex_toe.App.Events.{AppEvent}
use flex_toe.App.Poll.{
  ArxEntry, EntryStep, PollContext, PollResult, arx_event, arx_loop, arx_next, context_poll,
  found_events, poll_end, release, sp_loop,
}
use flex_toe.App.Probe.{txq_probe}
use flex_toe.App.SpPoll.{Ready, sp_loop-Ready}
use flex_toe.App.State.{AppContext}

abbrev pub Within : ℕ → PollResult → Type 0
Within num PollResult.aborted = Unit {0}
Within num PollResult.still = ⊥
Within num (PollResult.polled p evs out) = length evs ≤ num

-- The cases of a round.
module _ (n num : ℕ) (evs : List AppEvent) (p : PollContext) where
  arx-full :
      ltb (length evs) num ≡ false → arx_loop (suc n) num evs p ≡ PollResult.polled p evs false
  unfolding arx_loop
  arx-full full = rw (full, arx_loop) refl

  arx-idle :
      ltb (length evs) num ≡ true
      → p.rxq p.rxq_head ≡ none
      → arx_loop (suc n) num evs p ≡ PollResult.polled p evs false
  unfolding arx_loop
  arx-idle more e = rw (more, arx_loop, e) refl

  arx-entry :
      (m : ArxEntry)
      → ltb (length evs) num ≡ true
      → p.rxq p.rxq_head ≡ some m
      → arx_loop (suc n) num evs p
        ≡ (elim (arx_event m (num - length evs) p.app) as (λ x. PollResult) [
          | EntryStep.aborts ↦ PollResult.aborted
          | EntryStep.no_room ↦ PollResult.polled (found_events p) evs true
          | EntryStep.step ctx new ↦ arx_loop n num (evs ++ new) (arx_next ctx p)
        ])
  unfolding arx_loop
  arx-entry m more e = rw (more, arx_loop, e) refl

arx_after-Within :
    (n num : ℕ) (evs : List AppEvent) (p : PollContext) (r : EntryStep)
    → length evs ≤ num
    → StepFits 0 (num - length evs) r
    → ((ctx : AppContext) (new : List AppEvent)
        → length new ≤ num - length evs
        → Within num (arx_loop n num (evs ++ new) (arx_next ctx p)))
    → Within num (elim r as (λ x. PollResult) [
      | EntryStep.aborts ↦ PollResult.aborted
      | EntryStep.no_room ↦ PollResult.polled (found_events p) evs true
      | EntryStep.step ctx new ↦ arx_loop n num (evs ++ new) (arx_next ctx p)
    ])
arx_after-Within n num evs p EntryStep.aborts h f rest = tt
arx_after-Within n num evs p EntryStep.no_room h f rest = h
arx_after-Within n num evs p (EntryStep.step ctx new) h f rest = rest ctx new f.1

-- A free entry stays the same number of places behind the head.
still_free :
    (rxq : ℕ → Option ArxEntry) (len head n : ℕ)
    → head < len
    → suc n < len
    → rxq (wrap len (head + suc n)) ≡ none
    → update rxq head none (wrap len (wrap len (head + 1) + n)) ≡ none
still_free rxq len head n h k e =
    let same : wrap len (wrap len (head + 1) + n) ≡ wrap len (head + suc n) = ground arith in
    let apart : head ≢ wrap len (head + suc n) = ground arith in
    ap (update rxq head none) same ∙ (update_ne rxq head (wrap len (head + suc n)) none apart ∙ e)

-- A free entry `n` places on ends the loop.
arx_loop-Within :
    (n num : ℕ) (evs : List AppEvent) (p : PollContext)
    → length evs ≤ num
    → p.rxq_head < p.rxq_len
    → n < p.rxq_len
    → p.rxq (wrap p.rxq_len (p.rxq_head + n)) ≡ none
    → Within num (arx_loop (suc n) num evs p)
arx_loop-Within zero num evs p h l b free =
    let head : wrap p.rxq_len (p.rxq_head + 0) ≡ p.rxq_head = ground (arith, l) in
    elim (Bool-cases (ltb (length evs) num)) [
      | inr full ↦ subst (Within num) (sym (arx-full 0 num evs p full)) h
      | inl more ↦
          subst (Within num) (sym (arx-idle 0 num evs p more (ap p.rxq (sym head) ∙ free))) h
    ]
arx_loop-Within (suc n) num evs p h l b free = elim (Bool-cases (ltb (length evs) num)) [
  | inr full ↦ subst (Within num) (sym (arx-full (suc n) num evs p full)) h
  | inl more ↦ elim (Option-cases (p.rxq p.rxq_head)) [
    | inl e ↦ subst (Within num) (sym (arx-idle (suc n) num evs p more e)) h
    | inr (m, e) ↦ subst (Within num) (sym (arx-entry (suc n) num evs p m more e)) (
        arx_after-Within (suc n) num evs p (arx_event m (num - length evs) p.app) h
          (arx_event-StepFits m (num - length evs) p.app)
          (λ ctx new hi.
            arx_loop-Within n num (evs ++ new) (arx_next ctx p)
              (omega (arith, length-append evs new, hi)) (ground (arith, l)) (omega (arith, b))
              (still_free p.rxq p.rxq_len p.rxq_head n l b free)))
  ]
]

around_ring : (len head : ℕ) → head < len → wrap len (wrap len (head + 1) + (len - 1)) ≡ head
around_ring len head l = ground arith

-- A full queue: the first round frees the entry at the head, which is the last to come.
arx_loop_all-Within :
    (num : ℕ) (evs : List AppEvent) (p : PollContext)
    → length evs ≤ num
    → p.rxq_head < p.rxq_len
    → Within num (arx_loop (suc p.rxq_len) num evs p)
arx_loop_all-Within num evs p h l =
    let n = p.rxq_len - 1 in
    let size : suc n ≡ p.rxq_len = omega (arith, l) in
    let around = around_ring p.rxq_len p.rxq_head l in
    elim (Bool-cases (ltb (length evs) num)) [
      | inr full ↦ subst (Within num) (sym (arx-full p.rxq_len num evs p full)) h
      | inl more ↦ elim (Option-cases (p.rxq p.rxq_head)) [
        | inl e ↦ subst (Within num) (sym (arx-idle p.rxq_len num evs p more e)) h
        | inr (m, e) ↦ subst (Within num) (sym (arx-entry p.rxq_len num evs p m more e)) (
            arx_after-Within p.rxq_len num evs p (arx_event m (num - length evs) p.app) h
              (arx_event-StepFits m (num - length evs) p.app)
              (λ ctx new hi.
                subst (λ k. Within num (arx_loop k num (evs ++ new) (arx_next ctx p))) size
                  (arx_loop-Within n num (evs ++ new) (arx_next ctx p)
                    (omega (arith, length-append evs new, hi)) (ground (arith, l))
                    (omega (arith, l))
                    (ap (update p.rxq p.rxq_head none) around
                      ∙ update_self p.rxq p.rxq_head none))))
      ]
    ]

-- What follows each loop.
bumped-Within :
    (num head : ℕ) (p : PollContext) (evs : List AppEvent) (o : Option AppContext)
    → length evs ≤ num
    → Within num (elim o as (λ x. PollResult) [
      | none ↦ PollResult.aborted
      | some ctx ↦ PollResult.polled (record (release head p) { app = ctx }) evs false
    ])
bumped-Within num head p evs none h = tt
bumped-Within num head p evs (some ctx) h = h

after_arx-Within :
    (num head : ℕ) (r : PollResult)
    → Within num r
    → Within num (elim r as (λ x. PollResult) [
      | PollResult.aborted ↦ PollResult.aborted
      | PollResult.still ↦ PollResult.still
      | PollResult.polled p evs out ↦ poll_end num head p evs
    ])
after_arx-Within num head PollResult.aborted w = tt
after_arx-Within num head PollResult.still w = w
after_arx-Within num head (PollResult.polled p evs out) w =
    bumped-Within num head p evs (conns_bump (txq_probe num p.app)) w

after_sp-Within :
    (num : ℕ) (r : PollResult)
    → Ready num r
    → Within num (elim r as (λ x. PollResult) [
      | PollResult.aborted ↦ PollResult.aborted
      | PollResult.still ↦ PollResult.still
      | PollResult.polled p' evs true ↦ PollResult.polled p' evs true
      | PollResult.polled p' evs false ↦ elim (arx_loop (suc p'.rxq_len) num evs p') [
        | PollResult.aborted ↦ PollResult.aborted
        | PollResult.still ↦ PollResult.still
        | PollResult.polled p'' evs' out ↦ poll_end num p'.rxq_head p'' evs'
      ]
    ])
after_sp-Within num PollResult.aborted w = tt
after_sp-Within num PollResult.still w = w
after_sp-Within num (PollResult.polled p evs true) w = w.0
after_sp-Within num (PollResult.polled p evs false) w =
    after_arx-Within num p.rxq_head (arx_loop (suc p.rxq_len) num evs p)
      (arx_loop_all-Within num evs p w.0 w.1)

-- A poll ends: the rounds that it has are enough for both queues, whatever they hold. It gives out
-- at most as many events as it is asked for, so it writes none behind the array of the application.
pub context_poll-Within :
    (num : ℕ) (p : PollContext) → p.rxq_head < p.rxq_len → Within num (context_poll num p)
unfolding context_poll
context_poll-Within num p l =
    let called = record p { flags = record p.flags { poll_called = true } } in
    after_sp-Within num (sp_loop (suc num) num [] called)
      (sp_loop-Ready num num [] called (omega arith) l (omega arith))
