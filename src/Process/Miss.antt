-- ===== src/Process/Miss.antt =====
-- How `handle_miss` of firmware/process.c moves states between the levels.
use native.Mathlib.Decide.{ℕ_discrete}
use flex_toe.Prelude.{
  if◌then◌else◌, ℕ, ◌<◌, ◌==◌, ◌≡◌, ◌≢◌, ◌⊎◌, Bool-cases, Option, arith, inl, inr, none, refl, some,
  suc, update, zero,
}
use flex_toe.Flow.State.{FlowState}
use flex_toe.Process.{Cache, cls_slot, fetch, fs_lm_cache_size, handle_miss}

-- No flow is twice in LM or both in LM and CLS, a flow in CLS is in its own slot, and none in LM
-- has the number 0.
pub record CacheInv (c : Cache) : Type 0 where
  pub distinct : (d e : ℕ) → d < fs_lm_cache_size → e < fs_lm_cache_size → c.tag d ≡ c.tag e → d ≡ e
  pub exclusive : (e : ℕ) → e < fs_lm_cache_size → c.cls_status (cls_slot (c.tag e)) ≢ c.tag e
  pub homed : (s : ℕ) → c.cls_status s ≢ 0 → cls_slot (c.cls_status s) ≡ s
  pub nonzero : (e : ℕ) → e < fs_lm_cache_size → c.tag e ≢ 0

-- The state below LM.
unfoldable pub below : Cache → ℕ → FlowState
below c f = if c.cls_status (cls_slot f) == f then c.cls (cls_slot f) else c.emem f

-- The current state of flow `f`, if one of the first `n` entries of LM holds it.
unfoldable pub in_lm : Cache → ℕ → ℕ → Option FlowState
in_lm c zero f = none
in_lm c (suc n) f = if c.tag n == f then some (c.lm n) else in_lm c n f

-- The current state of a flow, wherever it is.
unfoldable pub current : Cache → ℕ → FlowState
current c f = elim (in_lm c fs_lm_cache_size f) [ some fs ↦ fs | none ↦ below c f ]

-- In an invariant cache, the entry with the flow's tag is the one that counts.
in_lm-hit :
    (c : Cache) (n e f : ℕ)
    → ((d : ℕ) → d < n → c.tag d ≡ f → d ≡ e)
    → e < n
    → c.tag e ≡ f
    → in_lm c n f ≡ some (c.lm e)
unfolding in_lm
in_lm-hit c zero e f u h t = elim h [ ]
in_lm-hit c (suc n) e f u h t = elim (Bool-cases (c.tag n == f)) [
  | inl y ↦ ground (arith, u n)
  | inr y ↦ ground (arith, in_lm-hit c n e f (λ d k q. u d (omega arith) q))
]

in_lm-miss : (c : Cache) (n f : ℕ) → ((d : ℕ) → d < n → c.tag d ≢ f) → in_lm c n f ≡ none
unfolding in_lm
in_lm-miss c zero f u = refl
in_lm-miss c (suc n) f u = ground (arith, u n, in_lm-miss c n f (λ d k. u d (omega arith)))

pub current-hit :
    (c : Cache) (e f : ℕ) → CacheInv c → e < fs_lm_cache_size → c.tag e ≡ f → current c f ≡ c.lm e
unfolding current
current-hit c e f v h t =
    rw (current, in_lm-hit c fs_lm_cache_size e f (λ d k q. v.distinct d e k h (cc)) h t)

pub current-miss :
    (c : Cache) (f : ℕ) → ((e : ℕ) → e < fs_lm_cache_size → c.tag e ≢ f) → current c f ≡ below c f
unfolding current
current-miss c f u = rw (current, in_lm-miss c fs_lm_cache_size f u)

-- Whether one of the first `n` entries has the tag `f`.
pub tagged :
    (c : Cache) (n f : ℕ) → ((e : ℕ) × (e < n) × (c.tag e ≡ f)) ⊎ ((e : ℕ) → e < n → c.tag e ≢ f)
tagged c zero f = inr (λ e h. elim h [ ])
tagged c (suc n) f = elim (ℕ_discrete (c.tag n) f) [
  | yes q ↦ inl (n, omega arith, q)
  | no q ↦ elim (tagged c n f) [
    | inl (e, h, t) ↦ inl (e, omega arith, t)
    | inr u ↦
        inr (λ e h t. elim (ℕ_discrete e n) [ yes k ↦ q (rw (← k) t) | no k ↦ u e (omega arith) t ])
  ]
]

module _ (c : Cache) (e flow_id : ℕ) where
  pub tag-handle_miss : (d : ℕ) → (handle_miss e flow_id c).tag d ≡ update c.tag e flow_id d
  unfolding handle_miss fetch
  tag-handle_miss d = ground arith

  pub lm-handle_miss_ne : (d : ℕ) → e ≢ d → (handle_miss e flow_id c).lm d ≡ c.lm d
  unfolding handle_miss fetch
  lm-handle_miss_ne d n = ground arith

  module _ (v : CacheInv c) where
    -- The flow wanted comes from where it was.
    pub lm-handle_miss :
        flow_id ≢ 0 → flow_id ≢ c.tag e → (handle_miss e flow_id c).lm e ≡ below c flow_id
    unfolding handle_miss fetch below
    lm-handle_miss z n = ground (arith, v.homed (cls_slot (c.tag e)))

    -- The evicted flow is found in CLS.
    pub below-evicted : c.tag e ≢ flow_id → below (handle_miss e flow_id c) (c.tag e) ≡ c.lm e
    unfolding handle_miss fetch below
    below-evicted n = ground arith

    -- Any other flow below LM keeps its state.
    pub below-handle_miss :
        (f : ℕ) → f ≢ 0 → f ≢ flow_id → f ≢ c.tag e → below (handle_miss e flow_id c) f ≡ below c f
    unfolding handle_miss fetch below
    below-handle_miss f z n m = ground (arith, v.homed (cls_slot (c.tag e)))
