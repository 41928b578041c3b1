-- ===== src/RateLimit.antt =====
-- worker/src/recruit_worker/policies.py and adapters/rate_limiter_redis.py: the politeness policy
-- of each site and the two-level token bucket.
--
-- A rate of `rpm` per minute gives rpm/60000 of a token each millisecond, so that one token is
-- counted as 60000 parts: the script's float arithmetic is then exact on whole numbers. Times are
-- milliseconds. A key that its `PEXPIRE` has removed reads as one that was never written; the
-- server's clock is taken to be the `now` that the caller passes.
pub mod Level
pub mod Conservation
pub mod Acquire
pub mod Policies
mod Tests
use Prim.Native.Char.{code}
use Prim.Native.String
use recruit_me.Prelude.{
  ℕ, zero, suc, ◌+◌, ◌-◌, ◌*◌, ◌/◌, min, max, String, ◌&&◌, Option, none, some, List, [], ◌∷◌, ltb,
  leb, ◌==◌, if◌then◌else◌, str_eq,
}

pub record SitePolicy : Type 0 where
  pub rpm : ℕ
  pub burst : ℕ
  pub global_rpm : ℕ
  pub global_burst : ℕ
  pub min_delay_ms : ℕ

abbrev pub default_policy : SitePolicy
default_policy = record {
  rpm = 20;
  burst = 5;
  global_rpm = 120;
  global_burst = 20;
  min_delay_ms = 0;
}

abbrev pub site_policies : List (String × SitePolicy)
site_policies =
    ("jobspy", record { rpm = 6; burst = 2; global_rpm = 20; global_burst = 5; min_delay_ms = 500 })
    ∷ (
      "wellfound",
      record { rpm = 15; burst = 4; global_rpm = 60; global_burst = 15; min_delay_ms = 0 },
    )
    ∷ ("yc", record { rpm = 30; burst = 10; global_rpm = 120; global_burst = 30; min_delay_ms = 0 })
    ∷ (
      "hackernews",
      record { rpm = 30; burst = 10; global_rpm = 120; global_burst = 30; min_delay_ms = 0 },
    )
    ∷ (
      "openrouter",
      record { rpm = 10; burst = 3; global_rpm = 15; global_burst = 5; min_delay_ms = 0 },
    )
    ∷ []

find_policy : String → List (String × SitePolicy) → SitePolicy
find_policy site [] = default_policy
find_policy site ((name, p) ∷ rest) = if str_eq site name then p else find_policy site rest

pub policy_for : String → SitePolicy
unfolding find_policy
policy_for site = find_policy site site_policies

-- The hash that the script stores under a key: `t` and `s`.
pub record Bucket : Type 0 where
  pub tokens : ℕ
  pub stamp : ℕ

abbrev pub Redis : Type 0
Redis = String → Option Bucket

abbrev pub one_token : ℕ
one_token = 60000

abbrev pub expiry_ms : ℕ
expiry_ms = 300000

-- `HSET` and `PEXPIRE`
pub store : String → Bucket → Redis → Redis
store key b r j = if str_eq key j then some b else r j

-- the Lua function `level`, once the hash is read
pub bucket_level : Option Bucket → ℕ → ℕ → ℕ → ℕ
bucket_level none rate burst now = burst * one_token
bucket_level (some b) rate burst now =
    if leb (b.stamp + expiry_ms) now
    then burst * one_token
    else min (burst * one_token) (b.tokens + (now - b.stamp) * rate)

-- `math.ceil((1 - tok) / rate * 1000)`, and 0 with a whole token at hand
pub wait_for : ℕ → ℕ → ℕ
wait_for rate tok = if ltb tok one_token then (one_token - tok + rate - 1) / rate else 0

pub data Reply : Type 0 where
  allowed : Reply
  denied : ℕ → Reply

-- The Lua script, run atomically by the server.
pub script : String → String → SitePolicy → ℕ → Redis → Reply × Redis
script tenant_key global_key p now r =
    let t_tok = bucket_level (r tenant_key) p.rpm p.burst now in
    let g_tok = bucket_level (r global_key) p.global_rpm p.global_burst now in
    if leb one_token t_tok && leb one_token g_tok
    then (
      allowed,
      store global_key (record { tokens = g_tok - one_token; stamp = now })
          (store tenant_key (record { tokens = t_tok - one_token; stamp = now }) r),
    )
    else (denied (max (wait_for p.rpm t_tok) (wait_for p.global_rpm g_tok)), r)

pub data Outcome : Type 0 where
  granted : Outcome
  gave_up : Outcome

-- How `acquire` ended: its outcome, what it leaves behind, and the milliseconds that it napped.
pub record Acquired : Type 0 where
  pub outcome : Outcome
  pub redis : Redis
  pub now : ℕ
  pub napped : ℕ

abbrev pub max_wait_ms : ℕ
max_wait_ms = 30000

abbrev pub sleep_cap_ms : ℕ
sleep_cap_ms = 5000

-- `min(max(int(wait_ms), 1) / 1000.0, self._sleep_cap_s)`
abbrev pub nap_of : ℕ → ℕ
nap_of wait = min (max wait 1) sleep_cap_ms

-- The `while True` of `acquire`. Round n's nap may last `late n` longer than asked for, and
-- meanwhile `others n` is what all other callers do to the server.
module _ (tenant_key global_key : String) (p : SitePolicy) (others : ℕ → Redis → Redis)
    (late : ℕ → ℕ) where
  pub acquire_loop : ℕ → ℕ → ℕ → Redis → ℕ → Option Acquired
  acquire_loop zero n napped r now = none
  acquire_loop (suc fuel) n napped r now =
      let (reply, r') = script tenant_key global_key p now r in
      elim reply [
        | allowed ↦
            some (record {
              outcome = granted;
              redis = r';
              now = now + p.min_delay_ms;
              napped = napped;
            })
        | denied wait ↦
            let nap = nap_of wait in
            let rest =
              acquire_loop fuel (n + 1) (napped + nap) (others n r') (now + nap + late n) in
            if ltb max_wait_ms (napped + nap)
            then some (record { outcome = gave_up; redis = r'; now = now; napped = napped })
            else rest
      ]

-- `key.split(":", 1)[0]`
pub site_of : String → String
site_of String.[] = ""
site_of (String.◌∷◌ c s) = if code c == b':' then "" else String.◌∷◌ c (site_of s)

-- f"rl:{{{site}}}:{key}"
pub tenant_key_of : String → String
tenant_key_of key = String.◌++◌ (String.◌++◌ "rl:{" (site_of key)) (String.◌++◌ "}:" key)

-- f"rl:{{{site}}}:__all__"
pub global_key_of : String → String
global_key_of key = String.◌++◌ (String.◌++◌ "rl:{" (site_of key)) (String.◌++◌ "}:" "__all__")

-- `acquire`; 30001 rounds are enough, as each nap lasts a millisecond or more.
pub acquire : String → (ℕ → Redis → Redis) → (ℕ → ℕ) → Redis → ℕ → Option Acquired
unfolding acquire_loop site_of tenant_key_of global_key_of policy_for
acquire key others late r now =
    acquire_loop (tenant_key_of key) (global_key_of key) (policy_for (site_of key)) others late
      (max_wait_ms + 1) 0 0 r now
