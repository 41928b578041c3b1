-- ===== src/Engine/Hunt.antt =====
-- engine.py, without the report and the progress callbacks: the scrape of each source, the
-- deduplication, the match. A scraper's answer, or the exception of its limiter or of itself, is a
-- parameter; `seen.filter_new` is worker/src/recruit_worker/adapters/seen_store_pg.py.
pub mod Laws
use recruit_me.Prelude.{
  ℕ, suc, ◌+◌, String, Bool, true, false, ◌&&◌, ◌||◌, not, Option, none, some, List, [], ◌∷◌, ◌++◌,
  leb, if◌then◌else◌, exists, select, length, str_eq, prefix,
}
use recruit_me.Engine.Types.{EngineResume, JobPosting, MatchedJob, EngineInput}
use recruit_me.Engine.Matching.{Score, batch_match}

-- What the call of a source's scraper came to.
pub data Scrape : Type 0 where
  no_source : Scrape
  found : List JobPosting → Scrape
  broke : String → Scrape

-- `_src`, an entry of `per_source`, without the latency
pub record SourceReport : Type 0 where
  pub source : String
  pub status : String
  pub found : ℕ
  pub error : Option String

abbrev src : String → String → ℕ → Option String → SourceReport
src name status n error = record { source = name; status = status; found = n; error = error }

abbrev hash_job : (JobPosting → String) → JobPosting → JobPosting
hash_job hash j = if str_eq j.external_hash "" then record j { external_hash = hash j } else j

pub hash_jobs : (JobPosting → String) → List JobPosting → List JobPosting
hash_jobs hash [] = []
hash_jobs hash (j ∷ js) = hash_job hash j ∷ hash_jobs hash js

abbrev is_big3 : String → Bool
is_big3 name = str_eq name "jobspy"

-- One turn of the loop over the sources.
abbrev pub scrape_result : (JobPosting → String) → String → Scrape → List JobPosting × SourceReport
scrape_result hash name no_source = ([], src name "unknown" 0 (some "no such source"))
scrape_result hash name (found jobs) = (hash_jobs hash jobs, src name "ok" (length jobs) none)
scrape_result hash name (broke error) = ([], src name "failed" 0 (some (prefix 500 error)))

-- A source that is not opted in is skipped before its scraper is called; a name without scraper is
-- reported first.
abbrev pub scrape_gated :
    (JobPosting → String) → Bool → String → Scrape → List JobPosting × SourceReport
scrape_gated hash optin name no_source = scrape_result hash name no_source
scrape_gated hash optin name (found jobs) =
    if is_big3 name && not optin
    then ([], src name "skipped" 0 (some "not opted in"))
    else scrape_result hash name (found jobs)
scrape_gated hash optin name (broke error) =
    if is_big3 name && not optin
    then ([], src name "skipped" 0 (some "not opted in"))
    else scrape_result hash name (broke error)

module _ (hash : JobPosting → String) (optin : Bool) (scrape : String → Scrape) where
  unfoldable pub scrape_all : List String → List JobPosting × List SourceReport
  unfolding hash_jobs
  scrape_all [] = ([], [])
  scrape_all (name ∷ names) =
      let (jobs, report) = scrape_gated hash optin name (scrape name) in
      let (others, reports) = scrape_all names in (jobs ++ others, report ∷ reports)

abbrev pub is_among : String → List String → Bool
is_among h hs = exists (λ x. str_eq x h) hs

-- `PgSeenStore.filter_new`
pub filter_new : List String → List String → List String
filter_new known hashes = select (λ h. not (is_among h known)) hashes

-- The loop that keeps the first job of each unseen hash; `now_seen` is `seen_now`.
pub distinct_new : List String → List String → List JobPosting → List JobPosting
distinct_new unseen now_seen [] = []
distinct_new unseen now_seen (j ∷ js) =
    if is_among j.external_hash unseen && not (is_among j.external_hash now_seen)
    then j ∷ distinct_new unseen (j.external_hash ∷ now_seen) js
    else distinct_new unseen now_seen js

pub hashes_of : List JobPosting → List String
hashes_of [] = []
hashes_of (j ∷ js) = j.external_hash ∷ hashes_of js

abbrev pub lower_all : (String → String) → List String → List String
lower_all lower [] = []
lower_all lower (c ∷ cs) = lower c ∷ lower_all lower cs

-- At or above the threshold, or on the watchlist.
abbrev pub is_kept : (String → String) → ℕ → List String → MatchedJob → Bool
is_kept lower threshold watchlist m =
    leb threshold m.match_percentage || is_among (lower m.job.company) (lower_all lower watchlist)

pub record HuntResult : Type 0 where
  pub scraped : ℕ
  pub new : ℕ
  pub matched : List MatchedJob
  pub per_source : List SourceReport
  pub missing_skills_tally : List (String × ℕ)
  pub ai_degraded : Bool

module _ (lower upper : String → String) (hash : JobPosting → String) (is_marker : String → Bool)
    (score : EngineResume → List JobPosting → ℕ → Score) (scrape : String → Scrape) where
  -- The jobs that are scored.
  pub new_jobs : List String → EngineInput → List JobPosting
  unfolding distinct_new hashes_of filter_new
  new_jobs known inp =
      let all_jobs = (scrape_all hash inp.profile.big3_optin scrape inp.enabled_sources).0 in
      distinct_new (filter_new known (hashes_of all_jobs)) [] all_jobs

  pub run_engine : List String → EngineInput → HuntResult
  unfolding new_jobs
  run_engine known inp =
      let (all_jobs, reports) = scrape_all hash inp.profile.big3_optin scrape inp.enabled_sources in
      let fresh = new_jobs known inp in
      let (scored, tally, degraded) =
        batch_match upper score is_marker inp.limits.match_batch_size fresh inp.resumes in
      record {
        scraped = length all_jobs;
        new = length fresh;
        matched =
            select (is_kept lower inp.profile.min_match_percent inp.profile.watchlist_companies)
              scored;
        per_source = reports;
        missing_skills_tally = tally;
        ai_degraded = degraded;
      }
