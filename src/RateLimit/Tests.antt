-- ===== src/RateLimit/Tests.antt =====
-- Runs of the script and of `acquire`, and the theorems at concrete inputs.
use recruit_me.Prelude.{◌+◌, ◌*◌, ◌≤◌, ◌≡◌, refl, none, some, [], ◌∷◌, arith, List}
use recruit_me.RateLimit.{
  Redis, SitePolicy, denied, one_token, script, acquire, tenant_key_of, site_of, site_of, store,
  bucket_level, wait_for,
}
use recruit_me.RateLimit.Conservation.{Call, granted_calls, granted_calls_bound}
use recruit_me.RateLimit.Acquire.{IsGranted, IsWithinLimit, acquire_ends}
use recruit_me.RateLimit.Policies.{acquire_grants}

abbrev fresh : Redis
fresh _ = none

abbrev slow : SitePolicy
slow = record { rpm = 6; burst = 2; global_rpm = 20; global_burst = 5; min_delay_ms = 500 }

abbrev drained : Redis
drained _ = some (record { tokens = 0; stamp = 100 })

abbrev calls : List Call
calls =
    record { key = "a"; at = 100 }
    ∷ record { key = "b"; at = 100 }
    ∷ record { key = "a"; at = 200 }
    ∷ record { key = "a"; at = 300 }
    ∷ []

granted_three : granted_calls "all" slow calls fresh ≡ 3
unfolding granted_calls script store bucket_level wait_for
granted_three = refl

jobspy_key : tenant_key_of "jobspy:t1" ≡ "rl:{jobspy}:jobspy:t1"
unfolding tenant_key_of site_of
jobspy_key = refl

granted_calls_bound_example :
    granted_calls "all" slow calls fresh * one_token ≤ 5 * one_token + 200 * 20
granted_calls_bound_example =
    granted_calls_bound "all" slow 100 300 calls fresh (omega arith) tt (omega arith)

denied_at_first : (script "a" "all" slow 100 drained).0 ≡ denied 10000
unfolding script store bucket_level wait_for
denied_at_first = refl

acquire_grants_example : IsGranted (acquire "jobspy:t1" (λ _ s. s) (λ _. 3) drained 100)
acquire_grants_example = acquire_grants "jobspy:t1" (λ _. 3) drained 100 (omega arith) (omega arith)

acquire_ends_example : IsWithinLimit (acquire "jobspy:t1" (λ _ s. s) (λ _. 3) drained 100)
acquire_ends_example = acquire_ends "jobspy:t1" (λ _ s. s) (λ _. 3) drained 100
