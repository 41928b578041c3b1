-- ===== src/Dashboard/Tests.antt =====
-- A dashboard of two matches on two days.
use recruit_me.Prelude.{ℕ, ◌≡◌, refl, none, some, List, [], ◌∷◌, select}
use recruit_me.Runs.State.{MatchStatus}
use recruit_me.Matches.{MatchRow}
use recruit_me.Dashboard.{of_user, series_from, summary}
use recruit_me.Dashboard.Laws.{summary_isolated}

abbrev match_at : ℕ → ℕ → ℕ → MatchRow
match_at created_at user_id percentage = record {
  id = created_at;
  created_at = created_at;
  row = record {
    user_id = user_id;
    run_id = some 1;
    job_profile_id = some 1;
    external_hash = "h";
    source = "yc";
    company = "c";
    title = "t";
    location = "";
    url = "";
    description_excerpt = "";
    salary = "";
    posted_date = "";
    match_percentage = percentage;
    matched_skills = [];
    missing_skills = "sql" ∷ "" ∷ [];
    why_fit = "";
    urgency = "LOW";
    recommended_action = "";
    matched_profile_id = "";
    status = MatchStatus.new;
    applied_at = none;
  };
}

-- Day 20 is today.
abbrev matches : List MatchRow
matches = match_at 1728005 1 60 ∷ match_at 1728009 1 71 ∷ match_at 1641700 2 90 ∷ []

summary_isolated_example :
    summary 1728100 1 [] (select (of_user 1) matches) ≡ summary 1728100 1 [] matches
unfolding select
summary_isolated_example = summary_isolated 1728100 1 [] matches

-- 65.5 is rounded to the even 66.
today :
    series_from 1 (select (of_user 1) matches) 1728100
    ≡ record { date = 20; pct = 66; count = 2 } ∷ []
unfolding series_from select
today = refl
