-- ===== src/RateLimit/Conservation.antt =====
-- The Lua script of adapters/rate_limiter_redis.py over a sequence of calls.
use native.Mathlib.Nat.{le_refl}
use recruit_me.Prelude.{
  ℕ, ◌+◌, ◌-◌, ◌*◌, ◌≤◌, ◌≡◌, String, List, [], ◌∷◌, inl, inr, Bool-cases, arith, ◌&&◌, leb,
}
use recruit_me.RateLimit.{
  SitePolicy, Redis, one_token, bucket_level, Reply, allowed, denied, script,
}
use recruit_me.RateLimit.Level.{
  IsPast, IsPast-mono, elapsed_mul, bucket_level-le-burst, bucket_level_drift, bucket_level_fresh,
  store_self,
}

-- A caller's key and the time at which it runs the script.
pub record Call : Type 0 where
  pub key : String
  pub at : ℕ

abbrev count_granted : Reply → ℕ → ℕ
count_granted allowed n = n + 1
count_granted (denied wait) n = n

-- The calls that the server grants, of a sequence of calls against one site.
unfoldable pub granted_calls : String → SitePolicy → List Call → Redis → ℕ
granted_calls global_key p [] r = 0
granted_calls global_key p (c ∷ cs) r =
    let (reply, r') = script c.key global_key p c.at r in
    count_granted reply (granted_calls global_key p cs r')

-- The calls are in order of time, from `start` to `end`.
abbrev pub IsTimeline : ℕ → ℕ → List Call → Type 0
IsTimeline start end [] = start ≤ end
IsTimeline start end (c ∷ cs) = (start ≤ c.at) × IsTimeline c.at end cs

-- One call: what the shared bucket loses is what was granted.
script_spends :
    (tk gk : String) (p : SitePolicy) (now : ℕ) (r : Redis)
    → IsPast (r gk) now
    → let (reply, r') = script tk gk p now r in
      IsPast (r' gk) now
      × (bucket_level (r' gk) p.global_rpm p.global_burst now + count_granted reply 0 * one_token
          ≤ bucket_level (r gk) p.global_rpm p.global_burst now)
unfolding script
script_spends tk gk p now r h =
    let t_tok = bucket_level (r tk) p.rpm p.burst now in
    let g_tok = bucket_level (r gk) p.global_rpm p.global_burst now in
    elim (Bool-cases (leb one_token t_tok && leb one_token g_tok)) [
      | inl e ↦
          rw (e, store_self)
            (
              le_refl now,
              ground
                  (arith, bucket_level_fresh (g_tok - one_token) p.global_rpm p.global_burst now),
            )
      | inr e ↦ rw e (h, omega arith)
    ]

IsTimeline-le : (start end : ℕ) (cs : List Call) → IsTimeline start end cs → start ≤ end
IsTimeline-le start end [] t = t
IsTimeline-le start end (c ∷ cs) (early, t) = omega (arith, IsTimeline-le c.at end cs t)

count_granted_add : (reply : Reply) (n : ℕ) → count_granted reply n ≡ count_granted reply 0 + n
count_granted_add allowed n = omega arith
count_granted_add (denied wait) n = omega arith

granted_calls_within :
    (gk : String) (p : SitePolicy) (start end : ℕ) (cs : List Call) (r : Redis)
    → p.global_burst ≤ 5 * p.global_rpm
    → IsPast (r gk) start
    → IsTimeline start end cs
    → granted_calls gk p cs r * one_token
      ≤ bucket_level (r gk) p.global_rpm p.global_burst start + (end - start) * p.global_rpm
unfolding granted_calls
granted_calls_within gk p start end [] r sane h t = omega arith
granted_calls_within gk p start end (c ∷ cs) r sane h (early, t) =
    let (reply, r') = script c.key gk p c.at r in
    let past = IsPast-mono (r gk) start c.at h early in
    let (past', spent) = script_spends c.key gk p c.at r past in
    omega (
      arith,
      spent,
      granted_calls_within gk p c.at end cs r' sane past' t,
      bucket_level_drift (r gk) p.global_rpm p.global_burst start c.at h early sane,
      elapsed_mul start c.at end p.global_rpm early (IsTimeline-le c.at end cs t),
      count_granted_add reply (granted_calls gk p cs r'),
    )

-- Over any sequence of calls in order of time, by any callers, a site's shared bucket grants at
-- most its burst and `global_rpm` a minute more, provided that the burst refills within the five
-- minutes after which an idle key expires, and that the stored hash is not from the future.
pub granted_calls_bound :
    (gk : String) (p : SitePolicy) (start end : ℕ) (cs : List Call) (r : Redis)
    → p.global_burst ≤ 5 * p.global_rpm
    → IsPast (r gk) start
    → IsTimeline start end cs
    → granted_calls gk p cs r * one_token
      ≤ p.global_burst * one_token + (end - start) * p.global_rpm
granted_calls_bound gk p start end cs r sane h t = omega (
  arith,
  granted_calls_within gk p start end cs r sane h t,
  bucket_level-le-burst (r gk) p.global_rpm p.global_burst start,
)
