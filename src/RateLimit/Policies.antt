-- ===== src/RateLimit/Policies.antt =====
-- The policies of policies.py, and `acquire` under them.
use recruit_me.Prelude.{
  ℕ, ◌*◌, ◌≤◌, String, List, [], ◌∷◌, All, arith, Bool-cases, inl, inr, str_eq,
}
use recruit_me.RateLimit.{
  SitePolicy, Redis, default_policy, site_policies, find_policy, policy_for, site_of, tenant_key_of,
  global_key_of, acquire,
}
use recruit_me.RateLimit.Level.{IsPast}
use recruit_me.RateLimit.Acquire.{IsUsable, IsGranted, acquire_loop_grants_first}

-- Both buckets hold and refill tokens, a token within the thirty seconds of `acquire`, and the
-- whole burst before an idle key expires.
pub record IsSound (p : SitePolicy) : Type 0 where
  pub usable : IsUsable p
  pub fast : 2 ≤ p.rpm
  pub global_fast : 2 ≤ p.global_rpm
  pub refills : p.burst ≤ 5 * p.rpm
  pub global_refills : p.global_burst ≤ 5 * p.global_rpm

find_policy-IsSound :
    (site : String) (table : List (String × SitePolicy))
    → IsSound default_policy
    → All (λ e. IsSound e.1) table
    → IsSound (find_policy site table)
unfolding find_policy
find_policy-IsSound site [] d h = d
find_policy-IsSound site ((name, p) ∷ rest) d (h, hs) = elim (Bool-cases (str_eq site name)) [
  | inl e ↦ rw e h
  | inr e ↦ rw e (find_policy-IsSound site rest d hs)
]

-- The policy of every site, listed or not, holds and refills tokens fast enough for the limits.
pub policy_for-IsSound : (site : String) → IsSound (policy_for site)
unfolding policy_for
policy_for-IsSound site = find_policy-IsSound site site_policies (omega arith) (omega arith)

-- For every key, a caller that meets no competition gets its token and does not give up, however
-- late its naps end, if the two stored hashes are not from the future.
pub acquire_grants :
    (key : String) (late : ℕ → ℕ) (r : Redis) (now : ℕ)
    → IsPast (r (tenant_key_of key)) now
    → IsPast (r (global_key_of key)) now
    → IsGranted (acquire key (λ _ s. s) late r now)
unfolding acquire
acquire_grants key late r now past_t past_g =
    let sound = policy_for-IsSound (site_of key) in
    acquire_loop_grants_first (tenant_key_of key) (global_key_of key) (policy_for (site_of key))
      late sound.usable r now sound.fast sound.global_fast past_t past_g
