-- ===== src/Auth/History/Tests.antt =====
-- Two requests on a table of two accounts.
use recruit_me.Prelude.{refl, exists}
use recruit_me.Auth.State.{World, in_session}
use recruit_me.Auth.Samples.{sample_platform, sample_settings, two_users, draw}
use recruit_me.Auth.Service.{signup, verify_email}
use recruit_me.Auth.Emails.{HasDistinctUsers}
use recruit_me.Auth.History.{History, here, next, signs_up, verifies, History-HasDistinctUsers}

abbrev after_signup : World
after_signup =
    (in_session (signup sample_platform sample_settings 5 (draw 9 "raw") "eve" "pw" "Eve")
      two_users).1

abbrev after_both : World
after_both = (in_session (verify_email sample_platform sample_settings 6 "raw") after_signup).1

two_requests : History sample_platform sample_settings two_users after_both
unfolding exists
two_requests = next (next here (signs_up 5 (draw 9 "raw") "eve" "pw" "Eve" refl)) (verifies 6 "raw")

History-HasDistinctUsers_example : HasDistinctUsers sample_platform after_both
unfolding exists
History-HasDistinctUsers_example =
    History-HasDistinctUsers sample_platform sample_settings two_requests
      (((refl, refl), tt), (tt, tt))
