-- ===== src/Engine/Matching/Best.antt =====
-- The best match of each job in matching.py.
use mathlib.Core.List.{Memᴰ}
use mathlib.Core.List.Memᴰ
use mathlib.Core.Path.{subst}
use recruit_me.Prelude.{
  ℕ, zero, suc, ◌+◌, ◌≤◌, ◌<◌, ◌≡◌, refl, sym, ◌∙◌, String, Bool, Option, none, some, List, [], ◌∷◌,
  inl, inr, All, All-imp, ltb, Bool-cases, some_inj,
}
use recruit_me.Engine.Types.{EngineResume, JobPosting, MatchedJob}
use recruit_me.Engine.Matching.{
  Score, better, offer, offer_all, candidates_of, no_best, best_matches,
}
use recruit_me.Engine.Matching.Laws.{
  slot, candidates_of-IsBelow, offer_all_beats, length-no_best, All-with,
}
use recruit_me.Engine.Matching.Places.{
  get_elem?, batch_start, score_at, IsScored, candidates_of-IsScored, candidates_of-mem,
}

none-ne-some : {b : MatchedJob} → none ≡ some b → ⊥
none-ne-some h = cc

All-of_mem : {A : Type 0} (P : A → Type 0) (x : A) (xs : List A) → All P xs → Memᴰ x xs → P x
All-of_mem P x [] a m = absurd (Memᴰ.not-nil m)
All-of_mem P x (y ∷ ys) (p, a) (Memᴰ.head e) = subst P (sym e) p
All-of_mem P x (y ∷ ys) (p, a) (Memᴰ.tail m) = All-of_mem P x ys a m

all_given : (rs : List EngineResume) → All (λ r. Memᴰ r rs) rs
all_given [] = tt
all_given (r ∷ rs) = (Memᴰ.head refl, All-imp _ _ rs (λ x m. Memᴰ.tail m) (all_given rs))

-- Whatever is kept at a place has a property of places and matches.
abbrev AllKept : (ℕ → MatchedJob → Type 0) → List (Option MatchedJob) → Type 0
AllKept R best = (i : ℕ) (b : MatchedJob) → slot i best ≡ some b → R i b

better-or :
    (R : MatchedJob → Type 0) (c x b : MatchedJob)
    → R c
    → (some x ≡ some b → R b)
    → better c (some x) ≡ some b
    → R b
better-or R c x b new old e = elim (Bool-cases (ltb x.match_percentage c.match_percentage)) [
  | inl t ↦ subst R (some_inj (rw t at e)) new
  | inr t ↦ old (rw t at e)
]

offer_kept :
    (R : ℕ → MatchedJob → Type 0) (k : ℕ) (c : MatchedJob) (best : List (Option MatchedJob))
    → R k c
    → AllKept R best
    → AllKept R (offer k c best)
unfolding offer
offer_kept R k c [] new old i b e = old i b e
offer_kept R zero c (none ∷ bs) new old zero b e = subst (R zero) (some_inj e) new
offer_kept R zero c (some x ∷ bs) new old zero b e = better-or (R zero) c x b new (old zero b) e
offer_kept R zero c (x ∷ bs) new old (suc i) b e = old (suc i) b e
offer_kept R (suc k) c (x ∷ bs) new old zero b e = old zero b e
offer_kept R (suc k) c (x ∷ bs) new old (suc i) b e =
    offer_kept (λ j. R (suc j)) k c bs new (λ j. old (suc j)) i b e

offer_all_kept :
    (R : ℕ → MatchedJob → Type 0) (cs : List (ℕ × MatchedJob)) (best : List (Option MatchedJob))
    → All (λ c. R c.0 c.1) cs
    → AllKept R best
    → AllKept R (offer_all cs best)
unfolding offer_all
offer_all_kept R [] best new old = old
offer_all_kept R ((k, c) ∷ cs) best (first, new) old =
    offer_all_kept R cs (offer k c best) new (offer_kept R k c best first old)

no_best-empty : (jobs : List JobPosting) (i : ℕ) → slot i (no_best jobs) ≡ none
no_best-empty [] i = refl
no_best-empty (j ∷ js) zero = refl
no_best-empty (j ∷ js) (suc i) = no_best-empty js i

-- For the job at any offset of any batch and any résumé, a match is kept at the job's place. It is of
-- that job, its score is one that one of the résumés has for the job in that batch, and it is at least
-- as good as this résumé's.
pub best_matches_best :
    (upper : String → String) (score : EngineResume → List JobPosting → ℕ → Score)
    (is_marker : String → Bool) (size : ℕ) (jobs : List JobPosting) (resumes : List EngineResume)
    (r : EngineResume) (n o : ℕ) (j : JobPosting)
    → Memᴰ r resumes
    → o < size
    → get_elem? jobs (batch_start size n + o) ≡ some j
    → (b : MatchedJob) × (slot
          (batch_start size n + o)
          (best_matches upper score is_marker size jobs resumes)
        ≡ some b)
      × (b.job ≡ j)
      × IsScored upper score size jobs resumes (batch_start size n + o) b
      × ((score_at upper score size jobs r n o).match_percentage ≤ b.match_percentage)
unfolding best_matches
best_matches_best upper score is_marker size jobs resumes r n o j given inside found =
    let cs = candidates_of upper score size resumes jobs in
    let beaten = All-with _ _ cs (candidates_of-IsBelow upper score size resumes jobs) (
      All-imp _ _ cs (λ c f h. f (rw (length-no_best jobs) h))
        (offer_all_beats cs (no_best jobs))) in
    let (b, kept, good) =
      All-of_mem _ _ cs beaten
        (candidates_of-mem upper score size jobs r n o resumes j given inside found) in
    let scored =
      offer_all_kept (IsScored upper score size jobs resumes) cs (no_best jobs)
        (candidates_of-IsScored upper score size jobs resumes resumes (all_given resumes))
        (λ i x e. absurd (none-ne-some (sym (no_best-empty jobs i) ∙ e))) (batch_start size n + o) b
        kept in
    (b, kept, some_inj (sym scored.found ∙ found), scored, good)
