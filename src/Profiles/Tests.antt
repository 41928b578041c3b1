-- ===== src/Profiles/Tests.antt =====
-- Profiles of two users.
use recruit_me.Prelude.{ℕ, ◌≡◌, refl, true, false, none, [], ◌∷◌, select, exists, find}
use recruit_me.Errors.{integrity_error, err, ◌>>=◌}
use recruit_me.Profiles.{
  JobProfileIn, JobProfile, Desk, update_profile, get_profile, assign_all, name, deletes, call,
}
use recruit_me.Profiles.Laws.{of_others, call_isolated}

abbrev given : JobProfileIn
given = record {
  name = "backend";
  target_roles = [];
  locations = [];
  job_types = [];
  enabled_sources = "yc" ∷ [];
  must_have_skills = [];
  nice_to_have_skills = [];
  exclude_companies = [];
  watchlist_companies = [];
  min_match_percent = 50;
  min_salary = 0;
  big3_optin = false;
  schedule_cron = none;
  timezone = "Asia/Kolkata";
}

abbrev profile_of : ℕ → ℕ → JobProfile
profile_of id user_id = record {
  id = id;
  user_id = user_id;
  is_active = true;
  created_at = id;
  given = given;
}

abbrev desk : Desk
desk = record { profiles = profile_of 1 7 ∷ profile_of 2 8 ∷ []; resumes = [] }

call_isolated_example :
    select (of_others 7) (call 7 (deletes 1) desk).profiles ≡ select (of_others 7) desk.profiles
unfolding exists
call_isolated_example = call_isolated 7 (deletes 1) desk (refl, (refl, tt))

-- A name cannot be set to null, and the profile stays as it was.
null_name : update_profile 7 1 (name none ∷ []) desk ≡ (err integrity_error, desk)
unfolding update_profile get_profile assign_all find ◌>>=◌
null_name = refl
