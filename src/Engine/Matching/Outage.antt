-- ===== src/Engine/Matching/Outage.antt =====
-- matching.py when every score is a keyword score.
use recruit_me.Prelude.{
  ℕ, zero, suc, ◌≤◌, ◌<◌, ◌≡◌, refl, String, Bool, true, false, Option, none, some, List, [], ◌∷◌,
  ltb, length, take, drop, ◌+◌, All, All-append, arith, inl, inr, Bool-cases, if◌then◌else◌,
}
use recruit_me.Engine.Types.{EngineResume, JobPosting, MatchedJob}
use recruit_me.Engine.Matching.{
  Score, better, offer, offer_all, candidates_in, candidates_from, candidates_of, no_best, present,
  any, all_fallback, best_matches, batch_match,
}

module _ (upper : String → String) (score : EngineResume → List JobPosting → ℕ → Score)
    (is_marker : String → Bool)
    (marked : (r : EngineResume) (batch : List JobPosting) (i : ℕ)
      → i < length batch
      → is_marker (score r batch i).why_good_fit ≡ true) where
  abbrev IsMarked : MatchedJob → Type 0
  IsMarked m = is_marker m.why_fit ≡ true

  abbrev IsMarkedAt : ℕ × MatchedJob → Type 0
  IsMarkedAt c = IsMarked c.1

  abbrev IsMarkedSlot : Option MatchedJob → Type 0
  IsMarkedSlot none = Unit
  IsMarkedSlot (some m) = IsMarked m

  candidates_in-IsMarkedAt :
      (r : EngineResume) (batch : List JobPosting) (start offset : ℕ) (js : List JobPosting)
      → offset + length js ≤ length batch
      → All IsMarkedAt (candidates_in upper score r batch start offset js)
  unfolding candidates_in
  candidates_in-IsMarkedAt r batch start offset [] h = tt
  candidates_in-IsMarkedAt r batch start offset (j ∷ js) h = (
    marked r batch offset (omega (arith, h)),
    candidates_in-IsMarkedAt r batch start (suc offset) js (omega (arith, h)),
  )

  candidates_from-IsMarkedAt :
      (rounds size start : ℕ) (r : EngineResume) (jobs : List JobPosting)
      → All IsMarkedAt (candidates_from upper score rounds size r start jobs)
  unfolding candidates_from
  candidates_from-IsMarkedAt zero size start r jobs = tt
  candidates_from-IsMarkedAt (suc rounds) size start r [] = tt
  candidates_from-IsMarkedAt (suc rounds) size start r (j ∷ js) =
      let batch = take size (j ∷ js) in
      All-append IsMarkedAt (candidates_in upper score r batch start 0 batch) _
        (candidates_in-IsMarkedAt r batch start 0 batch (omega arith))
        (candidates_from-IsMarkedAt rounds size (start + size) r (drop size (j ∷ js)))

  candidates_of-IsMarkedAt :
      (size : ℕ) (rs : List EngineResume) (jobs : List JobPosting)
      → All IsMarkedAt (candidates_of upper score size rs jobs)
  unfolding candidates_of
  candidates_of-IsMarkedAt size [] jobs = tt
  candidates_of-IsMarkedAt size (r ∷ rs) jobs =
      All-append IsMarkedAt (candidates_from upper score (length jobs) size r 0 jobs) _
        (candidates_from-IsMarkedAt (length jobs) size 0 r jobs)
        (candidates_of-IsMarkedAt size rs jobs)

  better-IsMarkedSlot :
      (c : MatchedJob) (o : Option MatchedJob)
      → IsMarked c
      → IsMarkedSlot o
      → IsMarkedSlot (better c o)
  better-IsMarkedSlot c none h k = h
  better-IsMarkedSlot c (some b) h k =
      elim (Bool-cases (ltb b.match_percentage c.match_percentage)) [
        | inl t ↦ rw t h
        | inr t ↦ rw t k
      ]

  offer-IsMarkedSlot :
      (i : ℕ) (c : MatchedJob) (best : List (Option MatchedJob))
      → IsMarked c
      → All IsMarkedSlot best
      → All IsMarkedSlot (offer i c best)
  unfolding offer
  offer-IsMarkedSlot i c [] h a = tt
  offer-IsMarkedSlot zero c (b ∷ bs) h (k, a) = (better-IsMarkedSlot c b h k, a)
  offer-IsMarkedSlot (suc i) c (b ∷ bs) h (k, a) = (k, offer-IsMarkedSlot i c bs h a)

  offer_all-IsMarkedSlot :
      (cs : List (ℕ × MatchedJob)) (best : List (Option MatchedJob))
      → All IsMarkedAt cs
      → All IsMarkedSlot best
      → All IsMarkedSlot (offer_all cs best)
  unfolding offer_all
  offer_all-IsMarkedSlot [] best a b = b
  offer_all-IsMarkedSlot ((i, c) ∷ cs) best (h, a) b =
      offer_all-IsMarkedSlot cs (offer i c best) a (offer-IsMarkedSlot i c best h b)

  no_best-IsMarkedSlot : (jobs : List JobPosting) → All IsMarkedSlot (no_best jobs)
  no_best-IsMarkedSlot [] = tt
  no_best-IsMarkedSlot (j ∷ js) = (tt, no_best-IsMarkedSlot js)

  all_fallback-present :
      (best : List (Option MatchedJob))
      → All IsMarkedSlot best
      → all_fallback is_marker (present best) ≡ true
  unfolding all_fallback present
  all_fallback-present [] a = refl
  all_fallback-present (none ∷ bs) (h, a) = all_fallback-present bs a
  all_fallback-present (some b ∷ bs) (h, a) = rw (h, all_fallback-present bs a) refl

-- The first job keeps a match once it has one.
abbrev starts_with_match : List (Option MatchedJob) → Bool
starts_with_match [] = false
starts_with_match (none ∷ bs) = false
starts_with_match (some b ∷ bs) = true

offer_all-starts :
    (cs : List (ℕ × MatchedJob)) (best : List (Option MatchedJob))
    → starts_with_match best ≡ true
    → starts_with_match (offer_all cs best) ≡ true
unfolding offer_all offer
offer_all-starts [] best h = h
offer_all-starts ((i, c) ∷ cs) [] h = offer_all-starts cs [] h
offer_all-starts ((i, c) ∷ cs) (none ∷ bs) h = cc
offer_all-starts ((zero, c) ∷ cs) (some b ∷ bs) h =
    offer_all-starts cs (better c (some b) ∷ bs) (stays (ltb b.match_percentage c.match_percentage))
  where
    stays : (t : Bool) → starts_with_match ((if t then some c else some b) ∷ bs) ≡ true
    stays true = refl
    stays false = refl
offer_all-starts ((suc i, c) ∷ cs) (some b ∷ bs) h = offer_all-starts cs (some b ∷ offer i c bs) h

any-present :
    (best : List (Option MatchedJob)) → starts_with_match best ≡ true → any (present best) ≡ true
unfolding present
any-present [] h = cc
any-present (none ∷ bs) h = cc
any-present (some b ∷ bs) h = refl

abbrev starts_at_first : List (ℕ × MatchedJob) → Bool
starts_at_first [] = false
starts_at_first ((zero, c) ∷ cs) = true
starts_at_first ((suc i, c) ∷ cs) = false

offer_all-first :
    (cs : List (ℕ × MatchedJob)) (bs : List (Option MatchedJob))
    → starts_at_first cs ≡ true
    → starts_with_match (offer_all cs (none ∷ bs)) ≡ true
unfolding offer_all offer
offer_all-first [] bs h = cc
offer_all-first ((zero, c) ∷ cs) bs h = offer_all-starts cs (some c ∷ bs) refl
offer_all-first ((suc i, c) ∷ cs) bs h = cc

best_matches-starts :
    (upper : String → String) (score : EngineResume → List JobPosting → ℕ → Score)
    (is_marker : String → Bool) (n : ℕ) (j : JobPosting) (js : List JobPosting) (r : EngineResume)
    (rs : List EngineResume)
    → starts_with_match (best_matches upper score is_marker (suc n) (j ∷ js) (r ∷ rs)) ≡ true
unfolding best_matches candidates_of candidates_from candidates_in offer_all offer
best_matches-starts upper score is_marker n j js r rs =
    offer_all-first (candidates_of upper score (suc n) (r ∷ rs) (j ∷ js)) (no_best js) refl

-- When every score is the marked one, a batch of jobs and résumés is reported as degraded.
pub batch_match_degraded :
    (upper : String → String) (score : EngineResume → List JobPosting → ℕ → Score)
    (is_marker : String → Bool)
    → ((r : EngineResume) (batch : List JobPosting) (i : ℕ)
        → i < length batch
        → is_marker (score r batch i).why_good_fit ≡ true)
    → (n : ℕ) (j : JobPosting) (js : List JobPosting) (r : EngineResume) (rs : List EngineResume)
    → (batch_match upper score is_marker (suc n) (j ∷ js) (r ∷ rs)).2 ≡ true
unfolding batch_match best_matches
batch_match_degraded upper score is_marker marked n j js r rs =
    let best = best_matches upper score is_marker (suc n) (j ∷ js) (r ∷ rs) in
    let all_marked = all_fallback-present upper score is_marker marked best (
      offer_all-IsMarkedSlot upper score is_marker marked
        (candidates_of upper score (suc n) (r ∷ rs) (j ∷ js)) (no_best (j ∷ js))
        (candidates_of-IsMarkedAt upper score is_marker marked (suc n) (r ∷ rs) (j ∷ js))
        (no_best-IsMarkedSlot upper score is_marker marked (j ∷ js))) in
    rw (any-present best (best_matches-starts upper score is_marker n j js r rs), all_marked) refl
