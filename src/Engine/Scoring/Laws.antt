-- ===== src/Engine/Scoring/Laws.antt =====
-- Every job of a batch gets a score: matching.py.
use mathlib.Core.Path.{subst}
use recruit_me.Prelude.{
  ℕ, zero, suc, ◌+◌, ◌<◌, ◌≡◌, refl, sym, String, true, Option, List, [], ◌∷◌, length, Bool-cases,
  inl, inr, str_eq, eq_refl, arith, text_of,
}
use recruit_me.Engine.Types.{JobPosting}
use recruit_me.Engine.Matching.{Score}
use recruit_me.Engine.Ai.{Parsed}
use recruit_me.Engine.Scoring.{
  Entry, Answers, set_entry, entry_at, is_scored, fill_in, score_batch, with_entry,
  fallback_keyword_score, answers_or_empty,
}

is_scored-set_entry :
    (key k : String) (e : Entry) (answers : Answers)
    → e.has_percentage ≡ true
    → is_scored k answers ≡ true
    → is_scored k (set_entry key e answers) ≡ true
unfolding set_entry entry_at
is_scored-set_entry key k e [] t h = cc
is_scored-set_entry key k e ((l, f) ∷ rest) t h = elim (Bool-cases (str_eq l key)) [
  | inl u ↦ rw u (elim (Bool-cases (str_eq l k)) [ inl v ↦ rw v t | inr v ↦ rw v (rw v at h) ])
  | inr u ↦ rw u (elim (Bool-cases (str_eq l k)) [
    | inl v ↦ rw v (rw v at h)
    | inr v ↦ rw v (is_scored-set_entry key k e rest t (rw v at h))
  ])
]

set_entry-is_scored :
    (key : String) (e : Entry) (answers : Answers)
    → e.has_percentage ≡ true
    → is_scored key (set_entry key e answers) ≡ true
unfolding set_entry entry_at
set_entry-is_scored key e [] t = rw (eq_refl key) t
set_entry-is_scored key e ((l, f) ∷ rest) t = elim (Bool-cases (str_eq l key)) [
  | inl u ↦ rw u (rw u t)
  | inr u ↦ rw u (rw u (set_entry-is_scored key e rest t))
]

with_entry-is_scored :
    (key : String) (fallback : Score) (answers : Answers)
    → is_scored key (with_entry key fallback answers) ≡ true
with_entry-is_scored key fallback answers = elim (Bool-cases (is_scored key answers)) [
  | inl t ↦ rw t t
  | inr t ↦ rw t (set_entry-is_scored key _ answers refl)
]

with_entry_keeps :
    (key k : String) (fallback : Score) (answers : Answers)
    → is_scored k answers ≡ true
    → is_scored k (with_entry key fallback answers) ≡ true
with_entry_keeps key k fallback answers h = elim (Bool-cases (is_scored key answers)) [
  | inl t ↦ rw t h
  | inr t ↦ rw t (is_scored-set_entry key k _ answers refl h)
]

module _ (fallback : JobPosting → Score) where
  fill_in_keeps :
      (k : String) (i : ℕ) (jobs : List JobPosting) (answers : Answers)
      → is_scored k answers ≡ true
      → is_scored k (fill_in fallback i jobs answers) ≡ true
  unfolding fill_in
  fill_in_keeps k i [] answers h = h
  fill_in_keeps k i (job ∷ jobs) answers h =
      fill_in_keeps k (suc i) jobs (with_entry (text_of i) (fallback job) answers)
        (with_entry_keeps (text_of i) k (fallback job) answers h)

  fill_in_complete :
      (n i : ℕ) (jobs : List JobPosting) (answers : Answers)
      → n < length jobs
      → is_scored (text_of (i + n)) (fill_in fallback i jobs answers) ≡ true
  unfolding fill_in
  fill_in_complete n i [] answers h = absurd (omega (arith, h))
  fill_in_complete zero i (job ∷ jobs) answers h =
      let here : i + 0 ≡ i = omega arith in
      subst (λ m. is_scored (text_of m) (fill_in fallback i (job ∷ jobs) answers) ≡ true) (sym here)
        (fill_in_keeps (text_of i) (suc i) jobs (with_entry (text_of i) (fallback job) answers)
          (with_entry-is_scored (text_of i) (fallback job) answers))
  fill_in_complete (suc n) i (job ∷ jobs) answers h =
      let next : i + suc n ≡ suc i + n = omega arith in
      subst (λ m. is_scored (text_of m) (fill_in fallback i (job ∷ jobs) answers) ≡ true) (sym next)
        (fill_in_complete n (suc i) jobs (with_entry (text_of i) (fallback job) answers)
          (omega (arith, h)))

-- Whatever the model answers, also if its answer is no object or lacks a job, each job of the batch
-- has an entry with a percentage under its index.
pub score_batch_complete :
    (lower : String → String) (scaled : ℕ → ℕ → ℕ) (p : Parsed) (batch : List JobPosting)
    (answer : Option Answers) (i : ℕ)
    → i < length batch
    → is_scored (text_of i) (score_batch lower scaled p batch answer) ≡ true
unfolding score_batch
score_batch_complete lower scaled p batch answer i h =
    let start : 0 + i ≡ i = omega arith in
    subst (λ m. is_scored (text_of m) (score_batch lower scaled p batch answer) ≡ true) start
      (fill_in_complete (fallback_keyword_score lower scaled p) i 0 batch (answers_or_empty answer)
        h)
