-- ===== src/Engine/Scoring/Outage.antt =====
-- A run whose model does not answer: matching.py with the scores of `_score_batch`.
use recruit_me.Prelude.{
  ℕ, suc, ◌<◌, ◌≡◌, refl, String, Bool, true, none, List, [], ◌∷◌, length, All, Bool-cases, inl,
  inr, str_eq, text_of,
}
use recruit_me.Engine.Types.{EngineResume, JobPosting}
use recruit_me.Engine.Matching.{Score, batch_match}
use recruit_me.Engine.Matching.Outage.{batch_match_degraded}
use recruit_me.Engine.Ai.{Parsed}
use recruit_me.Engine.Scoring.{
  Entry, Answers, set_entry, entry_at, is_scored, fill_in, with_entry, score_batch, score_of,
  score_or_default, fallback_keyword_score, ai_unavailable_marker,
}
use recruit_me.Engine.Scoring.Laws.{score_batch_complete}

-- `m.why_fit == AI_UNAVAILABLE_MARKER`
abbrev pub is_marker : String → Bool
is_marker why = str_eq why ai_unavailable_marker

abbrev IsFallback : String × Entry → Type 0
IsFallback e = is_marker e.1.score.why_good_fit ≡ true

set_entry-IsFallback :
    (key : String) (e : Entry) (answers : Answers)
    → is_marker e.score.why_good_fit ≡ true
    → All IsFallback answers
    → All IsFallback (set_entry key e answers)
unfolding set_entry
set_entry-IsFallback key e [] h a = (h, tt)
set_entry-IsFallback key e ((k, f) ∷ rest) h (b, a) = elim (Bool-cases (str_eq k key)) [
  | inl t ↦ rw t (h, a)
  | inr t ↦ rw t (b, set_entry-IsFallback key e rest h a)
]

fill_in-IsFallback :
    (fallback : JobPosting → Score) (i : ℕ) (jobs : List JobPosting) (answers : Answers)
    → ((job : JobPosting) → is_marker (fallback job).why_good_fit ≡ true)
    → All IsFallback answers
    → All IsFallback (fill_in fallback i jobs answers)
unfolding fill_in
fill_in-IsFallback fallback i [] answers h a = a
fill_in-IsFallback fallback i (job ∷ jobs) answers h a =
    fill_in-IsFallback fallback (suc i) jobs (with_entry (text_of i) (fallback job) answers) h
      (elim (Bool-cases (is_scored (text_of i) answers)) [
        | inl t ↦ rw t a
        | inr t ↦ rw t (set_entry-IsFallback (text_of i) _ answers (h job) a)
      ])

entry_at-IsFallback :
    (key : String) (answers : Answers)
    → is_scored key answers ≡ true
    → All IsFallback answers
    → is_marker (score_or_default (entry_at key answers)).why_good_fit ≡ true
unfolding entry_at
entry_at-IsFallback key [] h a = cc
entry_at-IsFallback key ((k, e) ∷ rest) h (b, a) = elim (Bool-cases (str_eq k key)) [
  | inl t ↦ rw t b
  | inr t ↦ rw t (entry_at-IsFallback key rest (rw t at h) a)
]

score_batch-IsFallback :
    (lower : String → String) (scaled : ℕ → ℕ → ℕ) (p : Parsed) (batch : List JobPosting)
    → All IsFallback (score_batch lower scaled p batch none)
unfolding score_batch
score_batch-IsFallback lower scaled p batch =
    fill_in-IsFallback (fallback_keyword_score lower scaled p) 0 batch [] (λ job. refl) tt

-- While the model answers nothing, a run with jobs and résumés is reported as degraded, for every
-- size of the batches but nought.
pub batch_match_outage :
    (upper lower : String → String) (scaled : ℕ → ℕ → ℕ) (n : ℕ) (j : JobPosting)
    (js : List JobPosting) (r : EngineResume) (rs : List EngineResume)
    → (batch_match upper
        (score_of lower scaled (λ resume batch. none))
        is_marker
        (suc n)
        (j ∷ js)
        (r ∷ rs)).2
      ≡ true
unfolding score_of
batch_match_outage upper lower scaled n j js r rs =
    batch_match_degraded upper (score_of lower scaled (λ resume batch. none)) is_marker
      (λ resume batch i h. marked resume batch i h) n j js r rs
  where
    marked :
        (resume : EngineResume) (batch : List JobPosting) (i : ℕ)
        → i < length batch
        → is_marker (score_of lower scaled (λ resume batch. none) resume batch i).why_good_fit
          ≡ true
    marked resume batch i h =
        entry_at-IsFallback (text_of i) (score_batch lower scaled resume.parsed batch none)
          (score_batch_complete lower scaled resume.parsed batch none i h)
          (score_batch-IsFallback lower scaled resume.parsed batch)
