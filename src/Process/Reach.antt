-- ===== src/Process/Reach.antt =====
-- Any sequence of work items: the worker of firmware/process.c against a machine that has one
-- state for each flow and no caches, and the invariant of every flow.
use flex_toe.Prelude.{ℕ, ◌∙◌, ◌∷◌, ◌≡◌, ◌≢◌, List, [], ap, arith, refl, update}
use flex_toe.Flow.State.{FlowState, Pkt, Result, Work}
use flex_toe.Process.{Cache, Cam, Worker, dispatch, flow_of, init_caches, next_seq, process_work}
use flex_toe.Process.Miss.{CacheInv, current}
use flex_toe.Process.Transparent.{process_work-CacheInv, process_work-current}

-- The worker with no caches.
pub record Flows : Type 0 where
  pub states : ℕ → FlowState
  pub seq : ℕ
  pub out : Result

pub flows_step : Work → Pkt → Flows → Flows
flows_step work pkt t =
    let (fs, out) = dispatch work pkt t.seq (t.states (flow_of work)) t.out in
    record { states = update t.states (flow_of work) fs; seq = next_seq work t.seq; out = out }

pub flows_run : List (Work × Pkt) → Flows → Flows
flows_run [] t = t
flows_run ((work, pkt) ∷ items) t = flows_run items (flows_step work pkt t)

pub process_run : Cam → List (Work × Pkt) → Worker → Worker
process_run cam [] s = s
process_run cam ((work, pkt) ∷ items) s = process_run cam items (process_work cam work pkt s)

-- No item is for flow 0.
abbrev pub AllFlows : List (Work × Pkt) → Type 0
AllFlows [] = Unit {0}
AllFlows ((work, pkt) ∷ items) = (flow_of work ≢ 0) × AllFlows items

record Simulates (s : Worker) (t : Flows) : Type 0 where
  inv : CacheInv s.cache
  states : (f : ℕ) → f ≢ 0 → current s.cache f ≡ t.states f
  seq : s.seq ≡ t.seq
  out : s.out ≡ t.out

module _ (cam : Cam) where
  step-Simulates :
      (work : Work) (pkt : Pkt) (s : Worker) (t : Flows)
      → flow_of work ≢ 0
      → Simulates s t
      → Simulates (process_work cam work pkt s) (flows_step work pkt t)
  unfolding process_work flows_step
  step-Simulates work pkt s t z sim = record {
    inv = process_work-CacheInv cam work pkt s sim.inv z;
    states = λ f n.
        (process_work-current cam work pkt s f sim.inv z n).1
        ∙ (rw (sim.states (flow_of work) z, sim.seq, sim.out, sim.states f n) refl);
    seq = ap (next_seq work) sim.seq;
    out =
        (process_work-current cam work pkt s 1 sim.inv z (omega arith)).0
        ∙ (rw (sim.states (flow_of work) z, sim.seq, sim.out) refl);
  }

  run-Simulates :
      (items : List (Work × Pkt)) (s : Worker) (t : Flows)
      → AllFlows items
      → Simulates s t
      → Simulates (process_run cam items s) (flows_run items t)
  unfolding process_run flows_run
  run-Simulates [] s t a sim = sim
  run-Simulates ((work, pkt) ∷ items) s t a sim =
      run-Simulates items _ _ a.1 (step-Simulates work pkt s t a.0 sim)

  -- Over any sequence of work items, for flows other than 0, the worker with its caches computes
  -- what the machine without caches computes: the same current state of every flow, and the same
  -- last result. The CAM finds the tags that are there, and may choose the entry to replace by all
  -- its lookups before.
  pub process_run-refines :
      (items : List (Work × Pkt)) (s : Worker) (f : ℕ)
      → CacheInv s.cache
      → AllFlows items
      → f ≢ 0
      → let s' = process_run cam items s in
        let t = flows_run items (record { states = current s.cache; seq = s.seq; out = s.out }) in
        (current s'.cache f ≡ t.states f) × (s'.out ≡ t.out)
  process_run-refines items s f v a n =
      let sim =
        run-Simulates items s (record { states = current s.cache; seq = s.seq; out = s.out }) a
          (record { inv = v; states = λ g m. refl; seq = refl; out = refl }) in
      (sim.states f n, sim.out)

-- The caches are consistent when the worker starts.
pub init_caches-CacheInv : (c : Cache) → CacheInv (init_caches c)
unfolding init_caches
init_caches-CacheInv c = record {
  distinct = λ d e p q t. omega arith;
  exclusive = λ e p q. omega arith;
  homed = λ s n. absurd (n refl);
  nonzero = λ e p q. omega arith;
}
