-- ===== src/Process/Transparent.antt =====
-- One work item of firmware/process.c against the current states of the flows.
use native.Mathlib.Decide.{ℕ_discrete}
use flex_toe.Prelude.{
  if◌then◌else◌, ℕ, ◌<◌, ◌==◌, ◌∙◌, ◌≡◌, ◌≢◌, Bool-cases, List, ap, arith, inl, inr, refl, subst,
  sym, update,
}
use flex_toe.Flow.State.{FlowState, Pkt, Work}
use flex_toe.Process.{
  Cache, Cam, Worker, cls_slot, dispatch, fetch, flow_of, fs_lm_cache_size, handle_miss, look_up,
  process_work,
}
use flex_toe.Process.Miss.{
  CacheInv, below, below-evicted, below-handle_miss, current, current-hit, current-miss,
  lm-handle_miss, lm-handle_miss_ne, tag-handle_miss, tagged,
}

module _ (c : Cache) (e flow_id : ℕ) (v : CacheInv c) (h : e < fs_lm_cache_size) (z : flow_id ≢ 0)
    (absent : (d : ℕ) → d < fs_lm_cache_size → c.tag d ≢ flow_id) where
  status-handle_miss :
      (f : ℕ)
      → f ≢ 0
      → f ≢ c.tag e
      → (handle_miss e flow_id c).cls_status (cls_slot f) ≡ f
      → (c.cls_status (cls_slot f) ≡ f) × (f ≢ flow_id)
  unfolding handle_miss fetch
  status-handle_miss f n m q = ground (arith, v.homed (cls_slot (c.tag e)))

  tag_self : (handle_miss e flow_id c).tag e ≡ flow_id
  tag_self = ground (arith, tag-handle_miss c e flow_id e)

  tag_ne : (d : ℕ) → e ≢ d → (handle_miss e flow_id c).tag d ≡ c.tag d
  tag_ne d n = ground (arith, tag-handle_miss c e flow_id d)

  status-exclusive :
      (d f : ℕ)
      → d < fs_lm_cache_size
      → (handle_miss e flow_id c).tag d ≡ f
      → (handle_miss e flow_id c).cls_status (cls_slot f) ≢ f
  status-exclusive d f p t q = elim (ℕ_discrete e d) [
    | yes k ↦
        let g : f ≡ flow_id = ground (arith, tag_self) in
        (status-handle_miss f (λ x. z (sym g ∙ x)) (λ x. absent e h (sym x ∙ g)) q).1 g
    | no k ↦
        let g : c.tag d ≡ f = sym (tag_ne d k) ∙ t in
        let away : f ≢ c.tag e = λ x. k (v.distinct e d h p (sym x ∙ sym g)) in
        let old = (status-handle_miss f (λ x. v.nonzero d p (g ∙ x)) away q).0 in
        v.exclusive d p (subst (λ n. c.cls_status (cls_slot n) ≡ n) (sym g) old)
  ]

  homed-handle_miss :
      (s : ℕ)
      → (handle_miss e flow_id c).cls_status s ≢ 0
      → cls_slot ((handle_miss e flow_id c).cls_status s) ≡ s
  unfolding handle_miss fetch
  homed-handle_miss s n = ground (arith, v.homed s)

  -- The invariant survives a miss.
  pub handle_miss-CacheInv : CacheInv (handle_miss e flow_id c)
  handle_miss-CacheInv = record {
    distinct = λ a b p q t. ground (
      arith,
      v.distinct a b p q,
      absent a p,
      absent b q,
      tag-handle_miss c e flow_id a,
      tag-handle_miss c e flow_id b,
    );
    exclusive = λ a p q. status-exclusive a _ p refl q;
    homed = homed-handle_miss;
    nonzero = λ a p q. ground (arith, v.nonzero a p, tag-handle_miss c e flow_id a);
  }

  current-other :
      (f : ℕ)
      → f ≢ 0
      → f ≢ flow_id
      → ((d : ℕ) → d < fs_lm_cache_size → c.tag d ≢ f)
      → current (handle_miss e flow_id c) f ≡ current c f
  current-other f n m u =
      current-miss (handle_miss e flow_id c) f gone
      ∙ below-handle_miss c e flow_id v f n m (λ x. u e h (sym x))
      ∙ sym (current-miss c f u)
    where
      gone : (d : ℕ) → d < fs_lm_cache_size → (handle_miss e flow_id c).tag d ≢ f
      gone d p t = ground (arith, tag-handle_miss c e flow_id d, u d p)

  current-in_lm :
      (f d : ℕ)
      → d < fs_lm_cache_size
      → c.tag d ≡ f
      → current (handle_miss e flow_id c) f ≡ current c f
  current-in_lm f d p t = elim (ℕ_discrete e d) [
    | yes k ↦
        let g : c.tag e ≡ f = ap c.tag k ∙ t in
        current-miss (handle_miss e flow_id c) f
          (λ b q u. ground (arith, tag-handle_miss c e flow_id b, absent e h, v.distinct b e q h))
        ∙ (subst (λ n. below (handle_miss e flow_id c) n ≡ c.lm e) g
              (below-evicted c e flow_id v (absent e h))
            ∙ sym (current-hit c e f v h g))
    | no k ↦
        current-hit (handle_miss e flow_id c) d f handle_miss-CacheInv p (tag_ne d k ∙ t)
        ∙ (lm-handle_miss_ne c e flow_id d k ∙ sym (current-hit c d f v p t))
  ]

  current-wanted : current (handle_miss e flow_id c) flow_id ≡ current c flow_id
  current-wanted =
      current-hit (handle_miss e flow_id c) e flow_id handle_miss-CacheInv h tag_self
      ∙ (lm-handle_miss c e flow_id v z (λ x. absent e h (sym x))
          ∙ sym (current-miss c flow_id absent))

  -- Every flow keeps its current state.
  pub current-handle_miss : (f : ℕ) → f ≢ 0 → current (handle_miss e flow_id c) f ≡ current c f
  current-handle_miss f n = elim (ℕ_discrete f flow_id) [
    | yes k ↦ rw k current-wanted
    | no k ↦ elim (tagged c fs_lm_cache_size f) [
      | inl (d, p, t) ↦ current-in_lm f d p t
      | inr u ↦ current-other f n k u
    ]
  ]

-- What a lookup gives the worker: an invariant cache with the flow in the named entry.
record Ready (c c' : Cache) (e flow_id : ℕ) : Type 0 where
  inv : CacheInv c'
  tagged_so : c'.tag e ≡ flow_id
  same : (f : ℕ) → f ≢ 0 → current c' f ≡ current c f

-- The handler's new state goes to the entry.
abbrev write_back : Cache → ℕ → FlowState → Cache
write_back c e fs = record c { lm = update c.lm e fs }

write_back-CacheInv :
    (c : Cache) (e : ℕ) (fs : FlowState) → CacheInv c → CacheInv (write_back c e fs)
write_back-CacheInv c e fs v = record {
  distinct = v.distinct;
  exclusive = v.exclusive;
  homed = v.homed;
  nonzero = v.nonzero;
}

below-write_back :
    (c : Cache) (e : ℕ) (fs : FlowState) (g : ℕ) → below (write_back c e fs) g ≡ below c g
unfolding below
below-write_back c e fs g = refl

current-write_back :
    (c : Cache) (e f g : ℕ) (fs : FlowState)
    → CacheInv c
    → e < fs_lm_cache_size
    → c.tag e ≡ f
    → current (write_back c e fs) g ≡ (if f == g then fs else current c g)
current-write_back c e f g fs v h t = elim (tagged c fs_lm_cache_size g) [
  | inl (d, p, u) ↦ ground (
    arith,
    v.distinct d e p h,
    current-hit (write_back c e fs) d g (write_back-CacheInv c e fs v) p u,
    current-hit c d g v p u,
  )
  | inr u ↦ ground (
    arith,
    u e h,
    current-miss (write_back c e fs) g u,
    current-miss c g u,
    below-write_back c e fs g,
  )
]

module _ (cam : Cam) where
  look_up-Ready :
      (past : List ℕ) (c : Cache) (flow_id : ℕ)
      → CacheInv c
      → flow_id ≢ 0
      → Ready c (look_up cam past flow_id c) (cam.entry_num past c.tag flow_id) flow_id
  unfolding look_up
  look_up-Ready past c flow_id v z =
      elim (Bool-cases (c.tag (cam.entry_num past c.tag flow_id) == flow_id)) [
        | inl y ↦ rw (y, look_up) (record { inv = v; tagged_so = ground arith; same = λ f n. refl })
        | inr y ↦
            let e = cam.entry_num past c.tag flow_id in
            let absent : (d : ℕ) → d < fs_lm_cache_size → c.tag d ≢ flow_id =
              λ d p t. ground (arith, cam.finds past c.tag flow_id d p t) in
            let h = cam.in_range past c.tag flow_id in
            rw (y, look_up)
              (record {
                inv = handle_miss-CacheInv c e flow_id v h z absent;
                tagged_so = ground (arith, tag-handle_miss c e flow_id e);
                same = current-handle_miss c e flow_id v h z absent;
              })
      ]

  -- The entry holds the flow's current state when the handler runs.
  look_up-current :
      (past : List ℕ) (c : Cache) (flow_id : ℕ)
      → CacheInv c
      → flow_id ≢ 0
      → (look_up cam past flow_id c).lm (cam.entry_num past c.tag flow_id) ≡ current c flow_id
  look_up-current past c flow_id v z =
      let r = look_up-Ready past c flow_id v z in
      sym (
        current-hit (look_up cam past flow_id c) (cam.entry_num past c.tag flow_id) flow_id r.inv
          (cam.in_range past c.tag flow_id) r.tagged_so)
      ∙ r.same flow_id z

  pub process_work-CacheInv :
      (work : Work) (pkt : Pkt) (s : Worker)
      → CacheInv s.cache
      → flow_of work ≢ 0
      → CacheInv (process_work cam work pkt s).cache
  unfolding process_work
  process_work-CacheInv work pkt s v z =
      write_back-CacheInv (look_up cam s.looked_up (flow_of work) s.cache)
        (cam.entry_num s.looked_up s.cache.tag (flow_of work)) _
        (look_up-Ready s.looked_up s.cache (flow_of work) v z).inv

  pub process_work-current :
      (work : Work) (pkt : Pkt) (s : Worker) (f : ℕ)
      → CacheInv s.cache
      → flow_of work ≢ 0
      → f ≢ 0
      → let s' = process_work cam work pkt s in
        let (fs, out) = dispatch work pkt s.seq (current s.cache (flow_of work)) s.out in
        (s'.out ≡ out)
        × (current s'.cache f ≡ (if flow_of work == f then fs else current s.cache f))
  unfolding process_work
  process_work-current work pkt s f v z n =
      let id = flow_of work in
      let e = cam.entry_num s.looked_up s.cache.tag id in
      let c = look_up cam s.looked_up id s.cache in
      let r = look_up-Ready s.looked_up s.cache id v z in
      let fs = (dispatch work pkt s.seq (current s.cache id) s.out).0 in
      rw (look_up-current s.looked_up s.cache id v z) (
        refl,
        current-write_back c e id f fs r.inv (cam.in_range s.looked_up s.cache.tag id) r.tagged_so
            ∙ ap (λ k. if id == f then fs else k) (r.same f n),
      )
