-- ===== src/Engine/Matching.antt =====
-- matching.py: the best match of each job over all résumés and batches. The scores of a batch are a
-- parameter, which Scoring has an instance of; the semaphore has no effect on the result, as `gather`
-- answers in the order of its tasks.
pub mod Laws
pub mod Places
pub mod Best
pub mod Outage
use recruit_me.Prelude.{
  ℕ, zero, suc, ◌+◌, String, Bool, true, false, ◌&&◌, not, Option, none, some, List, [], ◌∷◌, ◌++◌,
  ltb, ◌==◌, if◌then◌else◌, length, take, drop, str_eq, count_all,
}
use recruit_me.Engine.Types.{EngineResume, JobPosting, MatchedJob}

-- One entry of `_score_batch`'s answer.
pub record Score : Type 0 where
  pub match_percentage : ℕ
  pub matched_skills : List String
  pub missing_skills : List String
  pub why_good_fit : String
  pub urgency : String
  pub recommended_action : String

-- `_to_matched`
abbrev pub to_matched : (String → String) → JobPosting → Score → String → MatchedJob
to_matched upper job s profile_id = record {
  job = job;
  match_percentage = s.match_percentage;
  matched_skills = s.matched_skills;
  missing_skills = s.missing_skills;
  why_fit = s.why_good_fit;
  urgency = upper s.urgency;
  recommended_action = s.recommended_action;
  matched_profile_id = profile_id;
}

-- A job's entry of `best`: absent, or the match to beat.
abbrev pub better : MatchedJob → Option MatchedJob → Option MatchedJob
better candidate none = some candidate
better candidate (some b) =
    if ltb b.match_percentage candidate.match_percentage then some candidate else some b

-- `if job_idx not in best or ...: best[job_idx] = candidate`, where `best` has a place for each job
pub offer : ℕ → MatchedJob → List (Option MatchedJob) → List (Option MatchedJob)
offer i candidate [] = []
offer zero candidate (b ∷ bs) = better candidate b ∷ bs
offer (suc i) candidate (b ∷ bs) = b ∷ offer i candidate bs

pub tally_of : List MatchedJob → List (String × ℕ) → List (String × ℕ)
unfolding count_all
tally_of [] tally = tally
tally_of (m ∷ ms) tally = tally_of ms (count_all m.missing_skills tally)

-- `[best[i] for i in sorted(best)]`
pub present : List (Option MatchedJob) → List MatchedJob
present [] = []
present (none ∷ bs) = present bs
present (some b ∷ bs) = b ∷ present bs

abbrev pub no_best : List JobPosting → List (Option MatchedJob)
no_best [] = []
no_best (j ∷ js) = none ∷ no_best js

pub all_fallback : (String → Bool) → List MatchedJob → Bool
all_fallback is_marker [] = true
all_fallback is_marker (m ∷ ms) = is_marker m.why_fit && all_fallback is_marker ms

abbrev pub any : List MatchedJob → Bool
any [] = false
any (m ∷ ms) = true

-- `score resume batch offset` is the entry of that offset in `_score_batch(batch, resume)`.
module _ (upper : String → String) (score : EngineResume → List JobPosting → ℕ → Score) where
  -- The candidates of one batch, whose first job stands at `start`.
  pub candidates_in :
      EngineResume → List JobPosting → ℕ → ℕ → List JobPosting → List (ℕ × MatchedJob)
  candidates_in resume batch start offset [] = []
  candidates_in resume batch start offset (j ∷ js) =
      (start + offset, to_matched upper j (score resume batch offset) resume.resume_id)
      ∷ candidates_in resume batch start (suc offset) js

  -- `range(0, len(jobs), batch_size)`: each round takes at least one job, so as many rounds as jobs
  -- are enough.
  pub candidates_from : ℕ → ℕ → EngineResume → ℕ → List JobPosting → List (ℕ × MatchedJob)
  unfolding candidates_in
  candidates_from zero size resume start jobs = []
  candidates_from (suc rounds) size resume start [] = []
  candidates_from (suc rounds) size resume start (j ∷ js) =
      candidates_in resume (take size (j ∷ js)) start 0 (take size (j ∷ js))
      ++ candidates_from rounds size resume (start + size) (drop size (j ∷ js))

  pub candidates_of : ℕ → List EngineResume → List JobPosting → List (ℕ × MatchedJob)
  unfolding candidates_from
  candidates_of size [] jobs = []
  candidates_of size (r ∷ rs) jobs =
      candidates_from (length jobs) size r 0 jobs ++ candidates_of size rs jobs

pub offer_all : List (ℕ × MatchedJob) → List (Option MatchedJob) → List (Option MatchedJob)
unfolding offer
offer_all [] best = best
offer_all ((i, c) ∷ cs) best = offer_all cs (offer i c best)

module _ (upper : String → String) (score : EngineResume → List JobPosting → ℕ → Score)
    (is_marker : String → Bool) where
  pub best_matches : ℕ → List JobPosting → List EngineResume → List (Option MatchedJob)
  unfolding offer_all candidates_of
  best_matches size jobs resumes =
      offer_all (candidates_of upper score size resumes jobs) (no_best jobs)

  -- The matches, the tally and whether the AI was unavailable throughout.
  pub batch_match :
      ℕ → List JobPosting → List EngineResume → List MatchedJob × List (String × ℕ) × Bool
  unfolding best_matches tally_of all_fallback present
  batch_match size jobs [] = ([], [], false)
  batch_match size [] (r ∷ rs) = ([], [], false)
  batch_match size (j ∷ js) (r ∷ rs) =
      let matched = present (best_matches size (j ∷ js) (r ∷ rs)) in
      (matched, tally_of matched [], any matched && all_fallback is_marker matched)
