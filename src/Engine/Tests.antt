-- ===== src/Engine/Tests.antt =====
-- The engine on small inputs, and its theorems there.
use mathlib.Core.List.Memᴰ
use recruit_me.Prelude.{
  some, ◌≤◌, arith, ℕ, ◌≡◌, refl, String, Bool, false, none, List, [], ◌∷◌, All, str_eq,
  if◌then◌else◌,
}
use recruit_me.Engine.Ai.{Parsed}
use recruit_me.Engine.Types.{EngineInput, EngineResume, JobPosting, MatchedJob, default_limits}
use recruit_me.Engine.Matching.{Score, best_matches}
use recruit_me.Engine.Matching.Laws.{slot}
use recruit_me.Engine.Matching.Places.{IsScored}
use recruit_me.Engine.Matching.Best.{best_matches_best}
use recruit_me.Engine.Hunt.{Scrape, found, broke, scrape_all, is_among, new_jobs}
use recruit_me.Engine.Hunt.Laws.{IsDistinct, new_jobs_new, scrape_all_gated}

abbrev same : String → String
same s = s

abbrev posting : String → JobPosting
posting title = record {
  source = "a";
  company = "acme";
  title = title;
  location = "";
  description = "";
  url = "";
  posted_date = none;
  salary = none;
  external_hash = title;
}

abbrev no_object : Parsed
no_object = record {
  technical_skills = [];
  languages = [];
  frameworks = [];
  tools = [];
  error = "";
}

abbrev resume : String → EngineResume
resume id = record { resume_id = id; parsed = no_object; skills = [] }

-- The second résumé scores higher.
abbrev score_of : EngineResume → List JobPosting → ℕ → Score
score_of r batch offset = record {
  match_percentage = if str_eq r.resume_id "r2" then 90 else 40;
  matched_skills = [];
  missing_skills = [];
  why_good_fit = "";
  urgency = "LOW";
  recommended_action = "Skip";
}

abbrev sources : String → Scrape
sources name =
    if str_eq name "bad"
    then broke "timeout"
    else found (posting "x" ∷ posting "y" ∷ posting "x" ∷ [])

abbrev input : EngineInput
input = record {
  run_id = "1";
  tenant_id = "t";
  profile = record {
    profile_id = "p";
    target_roles = [];
    locations = [];
    job_types = [];
    must_have_skills = [];
    nice_to_have_skills = [];
    exclude_companies = [];
    min_match_percent = 50;
    watchlist_companies = [];
    big3_optin = false;
  };
  resumes = resume "r1" ∷ resume "r2" ∷ [];
  enabled_sources = "bad" ∷ "jobspy" ∷ "a" ∷ [];
  credentials = [];
  limits = default_limits;
}

abbrev no_marker : String → Bool
no_marker s = false

abbrev hash_of : JobPosting → String
hash_of j = j.title

best_matches_best_example :
    (b : MatchedJob) × (slot 1 (
        best_matches same score_of no_marker 1
          (posting "x" ∷ posting "y" ∷ [])
          (resume "r1" ∷ resume "r2" ∷ []))
      ≡ some b)
    × (b.job ≡ posting "y")
    × IsScored same score_of 1 (posting "x" ∷ posting "y" ∷ []) (resume "r1" ∷ resume "r2" ∷ []) 1 b
    × (90 ≤ b.match_percentage)
best_matches_best_example =
    best_matches_best same score_of no_marker 1 (posting "x" ∷ posting "y" ∷ [])
      (resume "r1" ∷ resume "r2" ∷ []) (resume "r2") 1 0 (posting "y") (Memᴰ.tail (Memᴰ.head refl))
      (omega arith) refl

new_jobs_new_example :
    IsDistinct [] (new_jobs same same hash_of no_marker score_of sources ("y" ∷ []) input)
    × All
        (λ j. is_among j.external_hash ("y" ∷ []) ≡ false)
        (new_jobs same same hash_of no_marker score_of sources ("y" ∷ []) input)
new_jobs_new_example = new_jobs_new same same hash_of no_marker score_of sources ("y" ∷ []) input

-- As `sources`, but the three large boards answer with an error.
abbrev other_sources : String → Scrape
other_sources name = if str_eq name "jobspy" then broke "blocked" else sources name

others_same : (name : String) → str_eq name "jobspy" ≡ false → sources name ≡ other_sources name
others_same name e = rw e refl

scrape_all_gated_example :
    (scrape_all hash_of false sources ("jobspy" ∷ "a" ∷ [])).0
    ≡ (scrape_all hash_of false other_sources ("jobspy" ∷ "a" ∷ [])).0
scrape_all_gated_example =
    scrape_all_gated hash_of sources other_sources ("jobspy" ∷ "a" ∷ []) others_same
