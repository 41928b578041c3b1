-- ===== src/Runs/Context/Tests.antt =====
-- Rows of two users.
use recruit_me.Prelude.{
  ℕ, ◌≡◌, refl, String, true, false, none, some, [], ◌∷◌, ◌==◌, find, if◌then◌else◌,
}
use recruit_me.Runs.State.{RunStatus}
use recruit_me.Runs.Samples.{sample_run}
use recruit_me.Resumes.{Resume, ResumeStatus}
use recruit_me.Profiles.{JobProfile}
use recruit_me.Credentials.Samples.{small_envelope}
use recruit_me.Engine.Ai.{Parsed}
use recruit_me.Runs.Context.{StoredParse, Rows, build_input}
use recruit_me.Runs.Context.Laws.{own_rows, build_input_isolated}

abbrev profile_of : ℕ → ℕ → JobProfile
profile_of id user_id = record {
  id = id;
  user_id = user_id;
  is_active = true;
  created_at = 1;
  given = record {
    name = "backend";
    target_roles = [];
    locations = [];
    job_types = [];
    enabled_sources = "yc" ∷ [];
    must_have_skills = [];
    nice_to_have_skills = [];
    exclude_companies = [];
    watchlist_companies = [];
    min_match_percent = 50;
    min_salary = 0;
    big3_optin = false;
    schedule_cron = none;
    timezone = "UTC";
  };
}

abbrev resume_of : ℕ → ℕ → Resume
resume_of id user_id = record {
  id = id;
  user_id = user_id;
  job_profile_id = some 4;
  original_filename = "cv.pdf";
  storage_key = "k";
  content_sha256 = "h";
  size_bytes = 10;
  status = ResumeStatus.parsed;
  parse_error = none;
}

abbrev no_object : Parsed
no_object = record {
  technical_skills = [];
  languages = [];
  frameworks = [];
  tools = [];
  error = "";
}

abbrev parse_of : ℕ → ℕ → String → StoredParse
parse_of at resume_id skill = record {
  created_at = at;
  row = record { resume_id = resume_id; model = "m"; parsed_json = no_object; skills = skill ∷ [] };
}

abbrev rows : Rows
rows = record {
  profiles = profile_of 4 1 ∷ profile_of 5 2 ∷ [];
  resumes = resume_of 6 1 ∷ resume_of 7 2 ∷ [];
  parses = parse_of 1 6 "java" ∷ parse_of 2 6 "rust" ∷ parse_of 3 7 "cobol" ∷ [];
  vault = record { rows = []; committed = []; queue = [] };
  matches = [];
}

abbrev one_name : ℕ → String
one_name n = if n == 6 then "r6" else "x"

build_input_isolated_example :
    build_input one_name small_envelope (sample_run RunStatus.running 1) (own_rows 1 rows)
    ≡ build_input one_name small_envelope (sample_run RunStatus.running 1) rows
unfolding find
build_input_isolated_example =
    build_input_isolated one_name small_envelope (sample_run RunStatus.running 1) rows
      (profile_of 4 1) refl refl
