-- ===== src/Engine/Scoring/Tests.antt =====
-- A batch of two jobs, one of which the model's answer scores.
use recruit_me.Prelude.{
  ℕ, ◌/◌, ◌*◌, ◌≡◌, refl, String, true, none, some, List, [], ◌∷◌, exists, strip,
}
use recruit_me.Engine.Types.{JobPosting}
use recruit_me.Engine.Matching.{Score, batch_match}
use recruit_me.Engine.Ai.{Parsed, collect_skills, skills_from_parse}
use recruit_me.Engine.Scoring.{Answers, score_batch, score_of, fill_in, set_entry, entry_at}
use recruit_me.Engine.Scoring.Outage.{is_marker, batch_match_outage}

abbrev same : String → String
same s = s

abbrev scaled : ℕ → ℕ → ℕ
scaled m n = m * 100 / n

abbrev parsed : Parsed
parsed = record {
  technical_skills = "rust " ∷ "" ∷ "sql" ∷ [];
  languages = "rust" ∷ [];
  frameworks = [];
  tools = [];
  error = "";
}

abbrev posting : String → JobPosting
posting title = record {
  source = "yc";
  company = "c";
  title = title;
  location = "";
  description = "we use sql";
  url = "";
  posted_date = none;
  salary = none;
  external_hash = "";
}

abbrev batch : List JobPosting
batch = posting "a" ∷ posting "b" ∷ []

abbrev good : Score
good = record {
  match_percentage = 90;
  matched_skills = [];
  missing_skills = [];
  why_good_fit = "fits";
  urgency = "HIGH";
  recommended_action = "Apply immediately";
}

abbrev answer : Answers
answer = ("1", record { has_percentage = true; score = good }) ∷ []

skills : skills_from_parse same parsed ≡ "rust" ∷ "sql" ∷ []
unfolding skills_from_parse collect_skills exists strip
skills = refl

-- The second job has the model's percentage.
second :
    (score_of same scaled
      (λ r jobs. some answer)
      (record { resume_id = "r"; parsed = parsed; skills = [] })
      batch
      1).match_percentage
    ≡ 90
unfolding score_of score_batch fill_in set_entry entry_at
second = refl

batch_match_outage_example :
    (batch_match same
      (score_of same scaled (λ r jobs. none))
      is_marker
      20
      batch
      (record { resume_id = "r"; parsed = parsed; skills = [] } ∷ [])).2
    ≡ true
batch_match_outage_example =
    batch_match_outage same same scaled 19 (posting "a") (posting "b" ∷ [])
      (record { resume_id = "r"; parsed = parsed; skills = [] }) []
