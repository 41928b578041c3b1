-- ===== src/Auth/Access/Tests.antt =====
-- Guarded requests on small tables, and the theorems of the guards there.
use recruit_me.Prelude.{
  ◌≡◌, ◌≢◌, refl, sym, String, none, some, [], ◌∷◌, arith, find, update_where, exists, some_inj,
}
use recruit_me.Errors.{forbidden_error, Result, ok, err, ◌>>=◌}
use recruit_me.Auth.State.{User, RefreshToken, World, role_value, plan_value}
use recruit_me.Security.Jwt.{
  AccessClaims, access_payload, claims_of, create_access_token, decode_access_token,
}
use recruit_me.Auth.Rows.{user_by_email, user_by_id, refresh_token_by_raw}
use recruit_me.Auth.Samples.{sample_platform, sample_settings, ada, bob, two_users, draw}
use recruit_me.Auth.Service.{Session, refresh, access_for}
use recruit_me.Auth.Service.Tests.{logged, login_run, session_of}
use recruit_me.Auth.Access.{get_current_user, require_role, suspend_user, suspend}
use recruit_me.Auth.Access.Guards.{
  login-get_current_user, suspended_is_denied, suspended_cannot_refresh,
}

abbrev token_for : User → String
token_for u = access_for sample_platform sample_settings 100 u

abbrev claims_for : User → AccessClaims
claims_for u = claims_of (
    access_payload sample_settings.jwt 100 "j" (sample_platform.uuid_text u.id) (role_value u.role)
      (plan_value u.plan) none)

read_bob :
    decode_access_token sample_platform.jwt sample_platform.keys 101 (token_for bob)
    ≡ ok (claims_for bob)
unfolding decode_access_token access_for create_access_token
read_bob = refl

abbrev bob_token : RefreshToken
bob_token = record {
  id = 7;
  user_id = 2;
  token_hash = "r0";
  expires_at = 1000;
  revoked_at = none;
  rotated_from_id = none;
  user_agent = "";
  ip = "";
}

abbrev with_bob : World
with_bob = record two_users { db = record two_users.db { refresh_tokens = bob_token ∷ [] } }

abbrev suspended : Result User × World
suspended = suspend_user sample_platform 100 (some (token_for ada)) 2 with_bob

suspend_run : suspended ≡ (ok (suspend bob), suspended.1)
unfolding suspend_user require_role get_current_user ◌>>=◌ find update_where exists
    decode_access_token access_for create_access_token
suspend_run = refl

suspended_is_denied_example :
    get_current_user sample_platform 101 (some (token_for bob)) suspended.1
    ≡ (err (forbidden_error "this account is suspended"), suspended.1)
suspended_is_denied_example =
    suspended_is_denied sample_platform 100 101 (some (token_for ada)) 2 (token_for bob)
      (claims_for bob) with_bob suspended.1 (suspend bob) suspend_run read_bob refl

token_after : refresh_token_by_raw sample_platform "r0" suspended.1 ≡ some bob_token
unfolding suspend_user require_role get_current_user ◌>>=◌ find update_where exists
    refresh_token_by_raw decode_access_token access_for create_access_token
token_after = refl

abbrev no_session : Session
no_session = record { access = ""; refresh_token = ""; ttl = 5 }

suspended_cannot_refresh_example :
    refresh sample_platform sample_settings 101 (draw 9 "r1") "r0" "" "" suspended.1
    ≢ (ok no_session, with_bob)
suspended_cannot_refresh_example =
    suspended_cannot_refresh sample_platform sample_settings 100 101 (some (token_for ada)) 2
      (draw 9 "r1") "r0" "" "" with_bob suspended.1 with_bob (suspend bob) bob_token no_session
      suspend_run token_after refl

only_ada :
    (u : User)
    → user_by_email sample_platform "ada" two_users ≡ some u
    → user_by_id u.id two_users ≡ some u
unfolding find
only_ada u e = let same : ada ≡ u = some_inj e in rw (sym same) refl

login-get_current_user_example :
    (u : User) × (user_by_email sample_platform "ada" two_users ≡ some u)
    × (get_current_user sample_platform 102
          (some (access_for sample_platform sample_settings 100 ada))
          logged.1
        ≡ (ok u, logged.1))
login-get_current_user_example =
    login-get_current_user sample_platform sample_settings 100 102 (draw 8 "r1") "ada" "pw" "" ""
      two_users logged.1 (session_of 100 "r1") login_run (omega arith) (omega arith) only_ada
