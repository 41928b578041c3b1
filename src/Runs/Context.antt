-- ===== src/Runs/Context.antt =====
-- worker/src/recruit_worker/run_context.py: the input of the engine, from the rows of the database.
pub mod Laws
mod Tests
use recruit_me.Prelude.{
  ℕ, String, Bool, true, false, ◌&&◌, Option, none, some, List, [], ◌∷◌, ◌==◌, leb, if◌then◌else◌,
  find, select, map, order_by,
}
use recruit_me.Runs.State.{Run}
use recruit_me.Profiles.{JobProfile}
use recruit_me.Resumes.{Resume, ResumeParse, ResumeStatus}
use recruit_me.Credentials.{Vault, Envelope, load_source_credentials}
use recruit_me.Matches.{MatchRow}
use recruit_me.Engine.Types.{ProfileSpec, EngineResume, EngineInput, default_limits}

-- A row of `resume_parses`, with the time of its insert.
pub record StoredParse : Type 0 where
  pub created_at : ℕ
  pub row : ResumeParse

-- The tables that a run is assembled from.
pub record Rows : Type 0 where
  pub profiles : List JobProfile
  pub resumes : List Resume
  pub parses : List StoredParse
  pub vault : Vault
  pub matches : List MatchRow

abbrev is_parsed : ResumeStatus → Bool
is_parsed ResumeStatus.parsed = true
is_parsed _ = false

abbrev is_of_profile : Option ℕ → ℕ → Bool
is_of_profile none id = false
is_of_profile (some n) id = n == id

abbrev pub is_usable : Run → Resume → Bool
is_usable run r =
    r.user_id == run.user_id
    && (is_of_profile r.job_profile_id run.job_profile_id && is_parsed r.status)

-- `ORDER BY created_at DESC`
abbrev later_parse : StoredParse → StoredParse → Bool
later_parse a b = leb b.created_at a.created_at

abbrev pub first : {A : Type 0} → List A → Option A
first [] = none
first (x ∷ xs) = some x

unfoldable pub newest_parse : List StoredParse → Resume → Option StoredParse
newest_parse parses r = first (order_by later_parse (select (λ p. p.row.resume_id == r.id) parses))

abbrev add_parse :
    (ℕ → String) → Resume → Option StoredParse → List EngineResume → List EngineResume
add_parse uuid_text r none rest = rest
add_parse uuid_text r (some p) rest =
    record { resume_id = uuid_text r.id; parsed = p.row.parsed_json; skills = p.row.skills } ∷ rest

-- The loop over the résumés; one without a parse is left out.
unfoldable pub engine_resumes : (ℕ → String) → List StoredParse → List Resume → List EngineResume
engine_resumes uuid_text parses [] = []
engine_resumes uuid_text parses (r ∷ rs) =
    add_parse uuid_text r (newest_parse parses r) (engine_resumes uuid_text parses rs)

abbrev spec_of : (ℕ → String) → JobProfile → ProfileSpec
spec_of uuid_text p = record {
  profile_id = uuid_text p.id;
  target_roles = p.given.target_roles;
  locations = p.given.locations;
  job_types = p.given.job_types;
  min_match_percent = p.given.min_match_percent;
  must_have_skills = p.given.must_have_skills;
  nice_to_have_skills = p.given.nice_to_have_skills;
  exclude_companies = p.given.exclude_companies;
  watchlist_companies = p.given.watchlist_companies;
  big3_optin = p.given.big3_optin;
}

-- `load_known_hashes` of adapters/seen_store_pg.py, as a list
unfoldable pub load_known_hashes : ℕ → List MatchRow → List String
load_known_hashes user_id matches =
    map (λ m. m.row.external_hash) (select (λ m. m.row.user_id == user_id) matches)

abbrev input_of : (ℕ → String) → Envelope → Run → Rows → JobProfile → EngineInput × List String
input_of uuid_text envelope run rows p = (
  record {
    run_id = uuid_text run.id;
    tenant_id = uuid_text run.user_id;
    profile = spec_of uuid_text p;
    resumes = engine_resumes uuid_text rows.parses (select (is_usable run) rows.resumes);
    enabled_sources = p.given.enabled_sources;
    credentials = load_source_credentials envelope run.user_id rows.vault;
    limits = default_limits;
  },
  load_known_hashes run.user_id rows.matches,
)

abbrev pub input_found :
    (ℕ → String) → Envelope → Run → Rows → Option JobProfile → Option (EngineInput × List String)
input_found uuid_text envelope run rows none = none
input_found uuid_text envelope run rows (some p) = some (input_of uuid_text envelope run rows p)

-- `build_input`; nothing for its `RuntimeError`, when the profile has vanished.
unfoldable pub build_input :
    (ℕ → String) → Envelope → Run → Rows → Option (EngineInput × List String)
build_input uuid_text envelope run rows =
    input_found uuid_text envelope run rows (find (λ p. p.id == run.job_profile_id) rows.profiles)
