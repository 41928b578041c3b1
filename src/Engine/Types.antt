-- ===== src/Engine/Types.antt =====
-- types.py, as far as the engine reads it, and the fingerprint of dedupe.py. `min_match_percent` and
-- the percentages are natural numbers.
use Prim.Native.String
use recruit_me.Prelude.{ℕ, String, Bool, Option, List}
use recruit_me.Engine.Ai.{Parsed}

pub record ProfileSpec : Type 0 where
  pub profile_id : String
  pub target_roles : List String
  pub locations : List String
  pub job_types : List String
  pub min_match_percent : ℕ
  pub must_have_skills : List String
  pub nice_to_have_skills : List String
  pub exclude_companies : List String
  pub watchlist_companies : List String
  pub big3_optin : Bool

pub record EngineResume : Type 0 where
  pub resume_id : String
  pub parsed : Parsed
  pub skills : List String

pub record EngineLimits : Type 0 where
  pub per_source_timeout_s : ℕ
  pub match_batch_size : ℕ
  pub llm_max_concurrency : ℕ

abbrev pub default_limits : EngineLimits
default_limits = record {
  per_source_timeout_s = 300;
  match_batch_size = 20;
  llm_max_concurrency = 1;
}

pub record EngineInput : Type 0 where
  pub run_id : String
  pub tenant_id : String
  pub profile : ProfileSpec
  pub resumes : List EngineResume
  pub enabled_sources : List String
  -- site, kind and secret of each
  pub credentials : List (String × (String × List (String × String)))
  pub limits : EngineLimits

pub record JobPosting : Type 0 where
  pub source : String
  pub company : String
  pub title : String
  pub location : String
  pub description : String
  pub url : String
  pub posted_date : Option String
  pub salary : Option String
  pub external_hash : String

pub record MatchedJob : Type 0 where
  pub job : JobPosting
  pub match_percentage : ℕ
  pub matched_skills : List String
  pub missing_skills : List String
  pub why_fit : String
  pub urgency : String
  pub recommended_action : String
  pub matched_profile_id : String

-- `compute_external_hash`; `fold` is `lower` then `strip`.
pub compute_external_hash : (String → String) → (String → String) → JobPosting → String
compute_external_hash sha1 fold job = sha1 (
    String.◌++◌ (fold job.source)
      (String.◌++◌ "|" (String.◌++◌ (fold job.company) (String.◌++◌ "|" (fold job.title)))))
