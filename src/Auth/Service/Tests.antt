-- ===== src/Auth/Service/Tests.antt =====
-- Runs of the authentication service on small tables, and its theorems there.
use recruit_me.Prelude.{
  ℕ, ◌≡◌, refl, String, false, Option, none, some, [], ◌∷◌, str_eq, find, exists, update_where,
}
use recruit_me.Errors.{auth_error, unless_taken, Result, ok, err, ◌>>=◌}
use recruit_me.Auth.State.{User, RefreshToken, OneTimeToken, World, in_session}
use recruit_me.Auth.Rows.{
  refresh_token_by_raw, user_by_email, revoke_all_refresh_tokens, add_refresh_token, add_user,
  add_verification_token, send,
}
use recruit_me.Auth.Samples.{sample_platform, sample_settings, ada, two_users, draw}
use recruit_me.Auth.Service.{
  Session, signup, verify_email, login, refresh, rotate, issue_refresh, finish_password_reset,
  access_for, new_user,
}
use recruit_me.Auth.Service.Rotation.{refresh_reuse_rolled_back, refresh_at_most_once, reuse_error}
use recruit_me.Auth.Service.Login.{login_sound, login_hides, signup-login, IsLoggedIn}

abbrev token_of : Option ℕ → RefreshToken
token_of revoked = record {
  id = 7;
  user_id = 1;
  token_hash = "r0";
  expires_at = 1000;
  revoked_at = revoked;
  rotated_from_id = none;
  user_agent = "";
  ip = "";
}

abbrev with_token : RefreshToken → World
with_token t = record two_users { db = record two_users.db { refresh_tokens = t ∷ [] } }

abbrev refreshed : Result Session × World
refreshed =
    refresh sample_platform sample_settings 100 (draw 8 "r1") "r0" "" ""
      (with_token (token_of none))

abbrev pub session_of : ℕ → String → Session
session_of now raw = record {
  access = access_for sample_platform sample_settings now ada;
  refresh_token = raw;
  ttl = 5;
}

refresh_run : refreshed ≡ (ok (session_of 100 "r1"), refreshed.1)
unfolding refresh rotate issue_refresh refresh_token_by_raw add_refresh_token ◌>>=◌ find exists
    update_where unless_taken
refresh_run = refl

stolen :
    refresh_token_by_raw sample_platform "r0" (with_token (token_of (some 50)))
    ≡ some (token_of (some 50))
unfolding refresh_token_by_raw find
stolen = refl

refresh_reuse_rolled_back_example :
    in_session
      (refresh sample_platform sample_settings 100 (draw 8 "r1") "r0" "" "")
      (with_token (token_of (some 50)))
    ≡ (err reuse_error, with_token (token_of (some 50)))
refresh_reuse_rolled_back_example =
    refresh_reuse_rolled_back sample_platform sample_settings 100 (draw 8 "r1") "r0" "" ""
      (with_token (token_of (some 50))) (token_of (some 50)) stolen refl

refresh_at_most_once_example :
    (refresh sample_platform sample_settings 101 (draw 9 "r2") "r0" "" "" refreshed.1).0
    ≡ err reuse_error
refresh_at_most_once_example =
    refresh_at_most_once sample_platform sample_settings 100 101 (draw 8 "r1") (draw 9 "r2") "r0" ""
      "" "" "" (with_token (token_of none)) refreshed.1 (session_of 100 "r1") refresh_run

abbrev pub logged : Result Session × World
logged = login sample_platform sample_settings 100 (draw 8 "r1") "ada" "pw" "" "" two_users

pub login_run : logged ≡ (ok (session_of 100 "r1"), logged.1)
unfolding login issue_refresh add_refresh_token ◌>>=◌ find exists unless_taken
login_run = refl

login_sound_example :
    IsLoggedIn sample_platform sample_settings 100
      (draw 8 "r1")
      "ada"
      "pw"
      two_users
      logged.1
      (session_of 100 "r1")
login_sound_example =
    login_sound sample_platform sample_settings 100 (draw 8 "r1") "ada" "pw" "" "" two_users
      logged.1 (session_of 100 "r1") login_run

found_ada : user_by_email sample_platform "ada" two_users ≡ some ada
unfolding find
found_ada = refl

no_eve : user_by_email sample_platform "eve" two_users ≡ none
unfolding find
no_eve = refl

login_hides_example :
    (login sample_platform sample_settings 100 (draw 8 "r1") "ada" "no" "" "" two_users
      ≡ (err (auth_error "invalid email or password"), two_users))
    × (login sample_platform sample_settings 100 (draw 8 "r1") "eve" "no" "" "" two_users
        ≡ (err (auth_error "invalid email or password"), two_users))
login_hides_example =
    login_hides sample_platform sample_settings 100 (draw 8 "r1") "ada" "eve" "no" "" "" two_users
      ada found_ada refl no_eve

abbrev one_time : OneTimeToken
one_time = record { id = 5; user_id = 1; token_hash = "t0"; expires_at = 1000; used_at = none }

abbrev with_one_time : World
with_one_time = record (with_token (token_of none)) {
  db = record (with_token (token_of none)).db {
    verification_tokens = one_time ∷ [];
    reset_tokens = one_time ∷ [];
  };
}

abbrev verified : Result {0} Unit × World
verified = verify_email sample_platform sample_settings 100 "t0" with_one_time

verify_run : verified ≡ (ok tt, verified.1)
unfolding verify_email ◌>>=◌ find update_where
verify_run = refl

abbrev reset : Result {0} Unit × World
reset =
    finish_password_reset sample_platform sample_settings 100 (draw 9 "") "t0" "new" with_one_time

reset_run : reset ≡ (ok tt, reset.1)
unfolding finish_password_reset revoke_all_refresh_tokens ◌>>=◌ find update_where
reset_run = refl

abbrev signed_up : Result User × World
signed_up = signup sample_platform sample_settings 100 (draw 3 "v0") "eve" "pe" "Eve" two_users

abbrev eve : User
eve = new_user sample_platform sample_settings (draw 3 "v0") "eve" "pe" "Eve"

signup_run : signed_up ≡ (ok eve, signed_up.1)
unfolding signup add_user add_verification_token send ◌>>=◌ find exists unless_taken
signup_run = refl

unused_after :
    exists (λ (t : RefreshToken). str_eq t.token_hash "r5") signed_up.1.db.refresh_tokens ≡ false
unfolding signup add_user add_verification_token send ◌>>=◌ find exists unless_taken
unused_after = refl

signup-login_example :
    (s : Session) × (v : World) × (login sample_platform sample_settings 200
        (draw 5 "r5")
        "eve"
        "pe"
        ""
        ""
        signed_up.1
      ≡ (ok s, v))
    × (s.access ≡ access_for sample_platform sample_settings 200 eve)
signup-login_example =
    signup-login sample_platform sample_settings 100 200 (draw 3 "v0") (draw 5 "r5") "eve" "pe"
      "Eve" "" "" two_users signed_up.1 eve signup_run unused_after
