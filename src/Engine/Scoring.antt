-- ===== src/Engine/Scoring.antt =====
-- `_score_batch` of packages/engine/src/recruit_engine/matching.py, with the keyword score of ai.py for
-- the jobs that the model's answer has no percentage for.
pub mod Laws
pub mod Outage
mod Tests
use recruit_me.Prelude.{
  ℕ, suc, String, Bool, true, false, Option, none, some, List, [], ◌∷◌, leb, if◌then◌else◌, take,
  str_eq, text_of,
}
use recruit_me.Engine.Types.{EngineResume, JobPosting}
use recruit_me.Engine.Matching.{Score}
use recruit_me.Engine.Ai.{Parsed, matched_keywords, keyword_percentage}

-- An entry of the answer: whether it has a percentage, and its values, with the defaults of
-- `_to_matched` where it has none.
pub record Entry : Type 0 where
  pub has_percentage : Bool
  pub score : Score

abbrev pub Answers : Type 0
Answers = List (String × Entry)

abbrev pub ai_unavailable_marker : String
ai_unavailable_marker = "Keyword-based match (AI scoring unavailable)"

-- `_fallback_keyword_score`
abbrev pub fallback_keyword_score : (String → String) → (ℕ → ℕ → ℕ) → Parsed → JobPosting → Score
fallback_keyword_score lower scaled p job =
    let pct = keyword_percentage lower scaled p job.title job.description in
    record {
      match_percentage = pct;
      matched_skills = take 10 (matched_keywords lower p job.title job.description);
      missing_skills = [];
      why_good_fit = ai_unavailable_marker;
      urgency = if leb 60 pct then "MEDIUM" else "LOW";
      recommended_action = if leb 60 pct then "Apply this week" else "Optional";
    }

-- `result[key] = entry`
unfoldable pub set_entry : String → Entry → Answers → Answers
set_entry key entry [] = (key, entry) ∷ []
set_entry key entry ((k, e) ∷ rest) =
    if str_eq k key then (k, entry) ∷ rest else (k, e) ∷ set_entry key entry rest

unfoldable pub entry_at : String → Answers → Option Entry
entry_at key [] = none
entry_at key ((k, e) ∷ rest) = if str_eq k key then some e else entry_at key rest

abbrev pub percentage_in : Option Entry → Bool
percentage_in none = false
percentage_in (some e) = e.has_percentage

abbrev pub is_scored : String → Answers → Bool
is_scored key answers = percentage_in (entry_at key answers)

-- One turn of the loop over the batch.
abbrev pub with_entry : String → Score → Answers → Answers
with_entry key fallback answers =
    if is_scored key answers
    then answers
    else set_entry key (record { has_percentage = true; score = fallback }) answers

-- The loop over the batch.
unfoldable pub fill_in : (JobPosting → Score) → ℕ → List JobPosting → Answers → Answers
fill_in fallback i [] answers = answers
fill_in fallback i (job ∷ jobs) answers =
    fill_in fallback (suc i) jobs (with_entry (text_of i) (fallback job) answers)

abbrev pub answers_or_empty : Option Answers → Answers
answers_or_empty none = []
answers_or_empty (some answers) = answers

-- `_score_batch`, where `answer` is the object in the model's answer, if there is one.
unfoldable pub score_batch :
    (String → String) → (ℕ → ℕ → ℕ) → Parsed → List JobPosting → Option Answers → Answers
score_batch lower scaled p batch answer =
    fill_in (fallback_keyword_score lower scaled p) 0 batch (answers_or_empty answer)

-- `_DEFAULT_RESULT`
abbrev pub default_result : Score
default_result = record {
  match_percentage = 0;
  matched_skills = [];
  missing_skills = [];
  why_good_fit = "";
  urgency = "LOW";
  recommended_action = "Skip";
}

abbrev pub score_or_default : Option Entry → Score
score_or_default none = default_result
score_or_default (some e) = e.score

-- The score of an offset in a batch, as `batch_match` takes it: `answer` is the object in the model's answer for a résumé and a batch.
unfoldable pub score_of :
    (String → String)
    → (ℕ → ℕ → ℕ)
    → (EngineResume → List JobPosting → Option Answers)
    → EngineResume
    → List JobPosting
    → ℕ
    → Score
score_of lower scaled answer resume batch offset =
    score_or_default (
      entry_at (text_of offset)
        (score_batch lower scaled resume.parsed batch (answer resume batch)))
