-- ===== src/RateLimit/Acquire.antt =====
-- Lemmas on the loop of `acquire` in adapters/rate_limiter_redis.py, and its return.
use native.Mathlib.Nat.{le_refl, add-zero, sub_self}
use recruit_me.Prelude.{
  ℕ, zero, suc, ◌+◌, ◌-◌, ◌*◌, ◌≤◌, ◌<◌, String, ◌≡◌, refl, Option, none, some, ◌⊎◌, inl, inr, ◌&&◌,
  max, Bool-cases, arith, leb,
}
use recruit_me.RateLimit.{
  SitePolicy, Bucket, Redis, one_token, bucket_level, wait_for, Reply, allowed, denied, script,
  granted, Acquired, max_wait_ms, nap_of, acquire_loop, acquire, site_of, tenant_key_of,
  global_key_of, policy_for,
}
use recruit_me.RateLimit.Level.{
  IsPast, IsPast-mono, bucket_level_rise, wait_for-le, wait_for_pos, wait_for_enough, split_mul,
  mul_mono_left,
}

-- The loop has ended, within its limit.
abbrev pub IsWithinLimit : Option Acquired → Type 0
IsWithinLimit none = ⊥
IsWithinLimit (some a) = a.napped ≤ max_wait_ms

abbrev pub IsGranted : Option Acquired → Type 0
IsGranted none = ⊥
IsGranted (some a) = a.outcome ≡ granted

Reply-cases : (reply : Reply) → (reply ≡ allowed) ⊎ ((wait : ℕ) × (reply ≡ denied wait))
Reply-cases allowed = inl refl
Reply-cases (denied wait) = inr (wait, refl)

module _ (tk gk : String) (p : SitePolicy) (others : ℕ → Redis → Redis) (late : ℕ → ℕ) where
  acquire_loop_within :
      (fuel n napped : ℕ) (r : Redis) (now : ℕ)
      → napped ≤ max_wait_ms
      → max_wait_ms < fuel + napped
      → IsWithinLimit (acquire_loop tk gk p others late fuel n napped r now)
  unfolding acquire_loop
  acquire_loop_within zero n napped r now h k = absurd (omega arith)
  acquire_loop_within (suc fuel) n napped r now h k = elim (Reply-cases (script tk gk p now r).0) [
    | inl e ↦ ground arith
    | inr (wait, e) ↦ ground (
      arith,
      acquire_loop_within fuel (n + 1) (napped + nap_of wait) (others n (script tk gk p now r).1)
          (now + nap_of wait + late n),
    )
  ]

-- Whatever the other callers do and however late the naps end, `acquire` returns, after napping
-- for no more than thirty seconds.
pub acquire_ends :
    (key : String) (others : ℕ → Redis → Redis) (late : ℕ → ℕ) (r : Redis) (now : ℕ)
    → IsWithinLimit (acquire key others late r now)
unfolding acquire
acquire_ends key others late r now =
    acquire_loop_within (tenant_key_of key) (global_key_of key) (policy_for (site_of key)) others
      late (max_wait_ms + 1) 0 0 r now (omega arith) (omega arith)

-- Both buckets hold a whole token after k more milliseconds, if nobody else takes from them.
record IsReadyIn (tk gk : String) (p : SitePolicy) (r : Redis) (now k : ℕ) : Type 0 where
  past_t : IsPast (r tk) now
  past_g : IsPast (r gk) now
  ready_t : one_token ≤ bucket_level (r tk) p.rpm p.burst now + k * p.rpm
  ready_g : one_token ≤ bucket_level (r gk) p.global_rpm p.global_burst now + k * p.global_rpm

-- Every bucket can hold a token, and refills.
pub record IsUsable (p : SitePolicy) : Type 0 where
  pub rpm_pos : 0 < p.rpm
  pub burst_pos : 0 < p.burst
  pub global_rpm_pos : 0 < p.global_rpm
  pub global_burst_pos : 0 < p.global_burst

script_when_ready :
    (tk gk : String) (p : SitePolicy) (r : Redis) (now k : ℕ)
    → IsUsable p
    → IsReadyIn tk gk p r now k
    → ((script tk gk p now r).0 ≡ allowed)
      ⊎ ((wait : ℕ) × ((script tk gk p now r).0 ≡ denied wait)
          × ((script tk gk p now r).1 ≡ r)
          × (0 < wait)
          × (wait ≤ k))
unfolding script
script_when_ready tk gk p r now k u h =
    let t_tok = bucket_level (r tk) p.rpm p.burst now in
    let g_tok = bucket_level (r gk) p.global_rpm p.global_burst now in
    elim (Bool-cases (leb one_token t_tok && leb one_token g_tok)) [
      | inl e ↦ inl (rw e)
      | inr e ↦ inr (
        max (wait_for p.rpm t_tok) (wait_for p.global_rpm g_tok),
        rw e,
        rw e,
        ground (
          arith,
          wait_for_pos p.rpm t_tok u.rpm_pos,
          wait_for_pos p.global_rpm g_tok u.global_rpm_pos,
        ),
        omega (
          arith,
          wait_for-le p.rpm t_tok k u.rpm_pos h.ready_t,
          wait_for-le p.global_rpm g_tok k u.global_rpm_pos h.ready_g,
        ),
      )
    ]

longer_mul : (k nap d rate : ℕ) → nap ≤ k → nap ≤ d → k * rate ≤ d * rate + (k - nap) * rate
longer_mul k nap d rate h e = omega (arith, split_mul nap k rate h, mul_mono_left nap d rate e)

ready_later :
    (b : Option Bucket) (rate burst now nap extra k : ℕ)
    → IsPast b now
    → 0 < burst
    → nap ≤ k
    → one_token ≤ bucket_level b rate burst now + k * rate
    → one_token ≤ bucket_level b rate burst (now + nap + extra) + (k - nap) * rate
ready_later b rate burst now nap extra k past pos h ready = omega (
  arith,
  bucket_level_rise b rate burst now (now + nap + extra) past (omega arith),
  longer_mul k nap (now + nap + extra - now) rate h (omega arith),
)

module _ (tk gk : String) (p : SitePolicy) (late : ℕ → ℕ) (u : IsUsable p) where
  IsReadyIn-later :
      (r : Redis) (now nap extra k : ℕ)
      → nap ≤ k
      → IsReadyIn tk gk p r now k
      → IsReadyIn tk gk p r (now + nap + extra) (k - nap)
  IsReadyIn-later r now nap extra k h ready = record {
    past_t = IsPast-mono (r tk) now (now + nap + extra) ready.past_t (omega arith);
    past_g = IsPast-mono (r gk) now (now + nap + extra) ready.past_g (omega arith);
    ready_t =
        ready_later (r tk) p.rpm p.burst now nap extra k ready.past_t u.burst_pos h ready.ready_t;
    ready_g =
        ready_later (r gk) p.global_rpm p.global_burst now nap extra k ready.past_g
          u.global_burst_pos h ready.ready_g;
  }

  acquire_loop_grants :
      (fuel n napped : ℕ) (r : Redis) (now k : ℕ)
      → k < fuel
      → napped + k ≤ max_wait_ms
      → IsReadyIn tk gk p r now k
      → IsGranted (acquire_loop tk gk p (λ _ s. s) late fuel n napped r now)
  unfolding acquire_loop
  acquire_loop_grants zero n napped r now k f m ready = elim f [ ]
  acquire_loop_grants (suc fuel) n napped r now k f m ready =
      elim (script_when_ready tk gk p r now k u ready) [
        | inl e ↦ ground arith
        | inr (wait, e, same, pos, le) ↦
            let nap = nap_of wait in
            ground (
              arith,
              acquire_loop_grants fuel (n + 1) (napped + nap) r (now + nap + late n) (k - nap)
                  (omega arith) (omega arith)
                  (IsReadyIn-later r now nap (late n) k (omega arith) ready),
            )
      ]

  pub acquire_loop_grants_first :
      (r : Redis) (now : ℕ)
      → 2 ≤ p.rpm
      → 2 ≤ p.global_rpm
      → IsPast (r tk) now
      → IsPast (r gk) now
      → IsGranted (acquire_loop tk gk p (λ _ s. s) late (max_wait_ms + 1) 0 0 r now)
  acquire_loop_grants_first r now fast global_fast past_t past_g =
      acquire_loop_grants (max_wait_ms + 1) 0 0 r now max_wait_ms (omega arith) (omega arith)
        (record { past_t = past_t; past_g = past_g; ready_t = omega arith; ready_g = omega arith })

allowed-ne-denied : (wait : ℕ) → allowed ≡ denied wait → ⊥
allowed-ne-denied wait e = cc

denied-injective : (v w : ℕ) → denied v ≡ denied w → v ≡ w
denied-injective v w e = cc

ready_is_allowed :
    (tk gk : String) (p : SitePolicy) (r : Redis) (now : ℕ)
    → IsUsable p
    → IsReadyIn tk gk p r now 0
    → (script tk gk p now r).0 ≡ allowed
ready_is_allowed tk gk p r now u h = elim (script_when_ready tk gk p r now 0 u h) [
  | inl e ↦ e
  | inr (wait, _, _, pos, le) ↦ absurd (omega arith)
]

script_denied :
    (tk gk : String) (p : SitePolicy) (r : Redis) (now wait : ℕ)
    → IsUsable p
    → IsPast (r tk) now
    → IsPast (r gk) now
    → (script tk gk p now r).0 ≡ denied wait
    → ((script tk gk p now r).1 ≡ r) × (0 < wait) × IsReadyIn tk gk p r now wait
unfolding script
script_denied tk gk p r now wait u past_t past_g e =
    let t_tok = bucket_level (r tk) p.rpm p.burst now in
    let g_tok = bucket_level (r gk) p.global_rpm p.global_burst now in
    let w_t = wait_for p.rpm t_tok in
    let w_g = wait_for p.global_rpm g_tok in
    elim (Bool-cases (leb one_token t_tok && leb one_token g_tok)) [
      | inl c ↦ absurd (allowed-ne-denied wait (rw c at e))
      | inr c ↦
          let same : max w_t w_g ≡ wait = denied-injective (max w_t w_g) wait (rw c at e) in
          (
            rw c,
            ground (
              arith,
              wait_for_pos p.rpm t_tok u.rpm_pos,
              wait_for_pos p.global_rpm g_tok u.global_rpm_pos,
            ),
            record {
              past_t = past_t;
              past_g = past_g;
              ready_t = omega (
                arith,
                wait_for_enough p.rpm t_tok u.rpm_pos,
                mul_mono_left w_t wait p.rpm (omega arith),
              );
              ready_g = omega (
                arith,
                wait_for_enough p.global_rpm g_tok u.global_rpm_pos,
                mul_mono_left w_g wait p.global_rpm (omega arith),
              );
            },
          )
    ]

-- The wait that a refusal names is long enough: with nobody else calling, the same call at the end
-- of that wait is allowed.
pub script_after_wait :
    (tk gk : String) (p : SitePolicy) (r : Redis) (now wait : ℕ)
    → IsUsable p
    → IsPast (r tk) now
    → IsPast (r gk) now
    → (script tk gk p now r).0 ≡ denied wait
    → (0 < wait) × ((script tk gk p (now + wait) (script tk gk p now r).1).0 ≡ allowed)
script_after_wait tk gk p r now wait u past_t past_g e =
    let (same, pos, ready) = script_denied tk gk p r now wait u past_t past_g e in
    let later = IsReadyIn-later tk gk p (λ _. 0) u r now wait 0 wait (le_refl wait) ready in
    (pos, rw same (ready_is_allowed tk gk p r (now + wait) u (rw (add-zero, sub_self) at later)))
