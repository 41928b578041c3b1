-- ===== src/RateLimit/Level.antt =====
-- Arithmetic of one bucket: how its level moves with the clock, and what a wait is worth.
use recruit_me.Prelude.{
  ℕ, ◌+◌, ◌-◌, ◌*◌, ◌/◌, ◌≤◌, ◌<◌, min, ◌≡◌, ◌≢◌, String, eq_refl, eq_iff, Option, none, some,
  arith,
}
use recruit_me.RateLimit.{Bucket, Redis, store, one_token, expiry_ms, bucket_level, wait_for}

-- A stored hash was not written in the future.
abbrev pub IsPast : Option Bucket → ℕ → Type 0
IsPast none now = Unit
IsPast (some b) now = b.stamp ≤ now

pub IsPast-mono : (b : Option Bucket) (t u : ℕ) → IsPast b t → t ≤ u → IsPast b u
IsPast-mono none t u h k = tt
IsPast-mono (some b) t u h k = omega arith

pub bucket_level-le-burst :
    (b : Option Bucket) (rate burst now : ℕ) → bucket_level b rate burst now ≤ burst * one_token
unfolding bucket_level
bucket_level-le-burst none rate burst now = omega arith
bucket_level-le-burst (some b) rate burst now = ground arith

pub elapsed_mul :
    (s t u rate : ℕ) → s ≤ t → t ≤ u → (u - s) * rate ≡ (t - s) * rate + (u - t) * rate
elapsed_mul s t u rate h k = grind arith

pub mul_mono_left : (a d rate : ℕ) → a ≤ d → a * rate ≤ d * rate
mul_mono_left a d rate h = grind arith

pub split_mul : (a k rate : ℕ) → a ≤ k → k * rate ≡ a * rate + (k - a) * rate
split_mul a k rate h = grind arith

-- Between two readings a bucket gains no more than its rate allows, if the burst refills before
-- an idle key expires.
pub bucket_level_drift :
    (b : Option Bucket) (rate burst t u : ℕ)
    → IsPast b t
    → t ≤ u
    → burst ≤ 5 * rate
    → bucket_level b rate burst u ≤ bucket_level b rate burst t + (u - t) * rate
unfolding bucket_level
bucket_level_drift none rate burst t u h k sane = omega arith
bucket_level_drift (some b) rate burst t u h k sane =
    ground (arith, elapsed_mul b.stamp t u rate, mul_mono_left expiry_ms (u - b.stamp) rate)

pub bucket_level_rise :
    (b : Option Bucket) (rate burst t u : ℕ)
    → IsPast b t
    → t ≤ u
    → min (burst * one_token) (bucket_level b rate burst t + (u - t) * rate)
      ≤ bucket_level b rate burst u
unfolding bucket_level
bucket_level_rise none rate burst t u h k = omega arith
bucket_level_rise (some b) rate burst t u h k = ground (arith, elapsed_mul b.stamp t u rate)

ceil_le : (a rate k : ℕ) → 0 < rate → a ≤ k * rate → (a + rate - 1) / rate ≤ k
ceil_le a rate k h e = grind arith

pub wait_for-le :
    (rate level k : ℕ) → 0 < rate → one_token ≤ level + k * rate → wait_for rate level ≤ k
unfolding wait_for
wait_for-le rate level k h e = ground (arith, ceil_le (one_token - level) rate k)

pub wait_for_pos : (rate level : ℕ) → 0 < rate → level < one_token → 0 < wait_for rate level
unfolding wait_for
wait_for_pos rate level h e = ground arith

pub wait_for_enough : (rate level : ℕ) → 0 < rate → one_token ≤ level + wait_for rate level * rate
unfolding wait_for
wait_for_enough rate level h = ground arith

-- Just after a write the level is at most what was written.
pub bucket_level_fresh :
    (tokens rate burst now : ℕ)
    → bucket_level (some (record { tokens = tokens; stamp = now })) rate burst now ≤ tokens
unfolding bucket_level
bucket_level_fresh tokens rate burst now = ground arith

pub store_self : (key : String) (b : Bucket) (r : Redis) → store key b r key ≡ some b
unfolding store
store_self key b r = ground (arith, eq_refl key)

pub store-ne : (key j : String) (b : Bucket) (r : Redis) → key ≢ j → store key b r j ≡ r j
unfolding store
store-ne key j b r h = ground (arith, eq_iff key j)
