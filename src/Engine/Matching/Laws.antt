-- ===== src/Engine/Matching/Laws.antt =====
-- The selection of the best match in matching.py.
use recruit_me.Prelude.{
  ℕ, zero, suc, ◌≤◌, ◌<◌, ◌≡◌, refl, ap, String, Option, none, some, List, [], ◌∷◌, ltb, length,
  take, drop, ◌+◌, ◌⊎◌, All, All-append, All-imp, arith, inl, inr, Bool-cases,
}
use recruit_me.Engine.Types.{EngineResume, JobPosting, MatchedJob}
use recruit_me.Engine.Matching.{
  Score, better, offer, offer_all, candidates_in, candidates_from, candidates_of, no_best,
}

-- What is kept for the job at a position.
abbrev pub slot : ℕ → List (Option MatchedJob) → Option MatchedJob
slot i [] = none
slot zero (b ∷ bs) = b
slot (suc i) (b ∷ bs) = slot i bs

-- A match is kept there that is at least as good.
abbrev pub IsBeaten : List (Option MatchedJob) → ℕ → ℕ → Type 0
IsBeaten best i percentage =
    (b : MatchedJob) × (slot i best ≡ some b) × (percentage ≤ b.match_percentage)

better_beats :
    (c : MatchedJob) (o : Option MatchedJob)
    → (b : MatchedJob) × (better c o ≡ some b) × (c.match_percentage ≤ b.match_percentage)
better_beats c none = (c, refl, omega arith)
better_beats c (some b) = elim (Bool-cases (ltb b.match_percentage c.match_percentage)) [
  | inl t ↦ (c, rw t refl, omega arith)
  | inr t ↦ (b, rw t refl, ground arith)
]

better_keeps :
    (c b : MatchedJob) (p : ℕ)
    → p ≤ b.match_percentage
    → (x : MatchedJob) × (better c (some b) ≡ some x) × (p ≤ x.match_percentage)
better_keeps c b p h = elim (Bool-cases (ltb b.match_percentage c.match_percentage)) [
  | inl t ↦ (c, rw t refl, ground arith)
  | inr t ↦ (b, rw t refl, h)
]

offer_beats :
    (i : ℕ) (c : MatchedJob) (best : List (Option MatchedJob))
    → i < length best
    → IsBeaten (offer i c best) i c.match_percentage
unfolding offer
offer_beats i c [] h = elim (h) [ ]
offer_beats zero c (b ∷ bs) h = better_beats c b
offer_beats (suc i) c (b ∷ bs) h = offer_beats i c bs (omega arith)

offer_keeps :
    (k : ℕ) (c : MatchedJob) (best : List (Option MatchedJob)) (i p : ℕ)
    → IsBeaten best i p
    → IsBeaten (offer k c best) i p
unfolding offer
offer_keeps k c [] i p h = h
offer_keeps zero c (none ∷ bs) zero p (b, e, le) = ground arith
offer_keeps zero c (some x ∷ bs) zero p (b, e, le) = better_keeps c x p (ground arith)
offer_keeps zero c (x ∷ bs) (suc i) p h = h
offer_keeps (suc k) c (x ∷ bs) zero p h = h
offer_keeps (suc k) c (x ∷ bs) (suc i) p h = offer_keeps k c bs i p h

length-offer :
    (i : ℕ) (c : MatchedJob) (best : List (Option MatchedJob))
    → length (offer i c best) ≡ length best
unfolding offer
length-offer i c [] = refl
length-offer zero c (b ∷ bs) = refl
length-offer (suc i) c (b ∷ bs) = ap suc (length-offer i c bs)

offer_all_keeps :
    (cs : List (ℕ × MatchedJob)) (best : List (Option MatchedJob)) (i p : ℕ)
    → IsBeaten best i p
    → IsBeaten (offer_all cs best) i p
unfolding offer_all
offer_all_keeps [] best i p h = h
offer_all_keeps ((k, c) ∷ cs) best i p h =
    offer_all_keeps cs (offer k c best) i p (offer_keeps k c best i p h)

-- Offering candidates keeps, for each of them that names a job, a match that is at least as good.
pub offer_all_beats :
    (cs : List (ℕ × MatchedJob)) (best : List (Option MatchedJob))
    → All (λ c. c.0 < length best → IsBeaten (offer_all cs best) c.0 c.1.match_percentage) cs
unfolding offer_all
offer_all_beats [] best = tt
offer_all_beats ((k, c) ∷ cs) best = (
  (λ h. offer_all_keeps cs (offer k c best) k c.match_percentage (offer_beats k c best h)),
  All-imp _ _ cs (λ x f h. f (rw (length-offer k c best) h)) (offer_all_beats cs (offer k c best)),
)

pub length-no_best : (jobs : List JobPosting) → length (no_best jobs) ≡ length jobs
length-no_best [] = refl
length-no_best (j ∷ js) = ap suc (length-no_best js)

length-take : {A : Type 0} (n : ℕ) (xs : List A) → length (take n xs) ≤ length xs
length-take zero xs = omega arith
length-take (suc n) [] = omega arith
length-take (suc n) (x ∷ xs) = omega (arith, length-take n xs)

pub drop-length :
    {A : Type 0} (n : ℕ) (xs : List A) → (drop n xs ≡ []) ⊎ (n + length (drop n xs) ≡ length xs)
drop-length zero xs = inr (omega arith)
drop-length (suc n) [] = inl refl
drop-length (suc n) (x ∷ xs) = elim (drop-length n xs) [
  | inl e ↦ inl e
  | inr e ↦ inr (omega (arith, e))
]

module _ (upper : String → String) (score : EngineResume → List JobPosting → ℕ → Score) where
  abbrev IsBelow : ℕ → ℕ × MatchedJob → Type 0
  IsBelow n c = c.0 < n

  candidates_in-IsBelow :
      (r : EngineResume) (batch : List JobPosting) (start offset n : ℕ) (js : List JobPosting)
      → start + offset + length js ≤ n
      → All (IsBelow n) (candidates_in upper score r batch start offset js)
  unfolding candidates_in
  candidates_in-IsBelow r batch start offset n [] h = tt
  candidates_in-IsBelow r batch start offset n (j ∷ js) h =
      (omega arith, candidates_in-IsBelow r batch start (suc offset) n js (omega arith))

  candidates_from-none :
      (rounds size start : ℕ) (r : EngineResume)
      → candidates_from upper score rounds size r start [] ≡ []
  unfolding candidates_from
  candidates_from-none zero size start r = refl
  candidates_from-none (suc rounds) size start r = refl

  candidates_from-IsBelow :
      (rounds size start n : ℕ) (r : EngineResume) (jobs : List JobPosting)
      → start + length jobs ≤ n
      → All (IsBelow n) (candidates_from upper score rounds size r start jobs)
  unfolding candidates_from
  candidates_from-IsBelow zero size start n r jobs h = tt
  candidates_from-IsBelow (suc rounds) size start n r [] h = tt
  candidates_from-IsBelow (suc rounds) size start n r (j ∷ js) h =
      All-append (IsBelow n)
        (candidates_in upper score r (take size (j ∷ js)) start 0 (take size (j ∷ js))) _
        (candidates_in-IsBelow r (take size (j ∷ js)) start 0 n (take size (j ∷ js))
          (omega (arith, length-take size (j ∷ js))))
        (elim (drop-length size (j ∷ js)) [
          | inl e ↦ rw (e, candidates_from-none rounds size (start + size) r) tt
          | inr e ↦
              candidates_from-IsBelow rounds size (start + size) n r (drop size (j ∷ js))
                (omega (arith, e))
        ])

  pub candidates_of-IsBelow :
      (size : ℕ) (rs : List EngineResume) (jobs : List JobPosting)
      → All (IsBelow (length jobs)) (candidates_of upper score size rs jobs)
  unfolding candidates_of
  candidates_of-IsBelow size [] jobs = tt
  candidates_of-IsBelow size (r ∷ rs) jobs =
      All-append (IsBelow (length jobs)) (candidates_from upper score (length jobs) size r 0 jobs) _
        (candidates_from-IsBelow (length jobs) size 0 (length jobs) r jobs (omega arith))
        (candidates_of-IsBelow size rs jobs)

pub All-with :
    {A : Type 0} (P Q : A → Type 0) (xs : List A) → All P xs → All (λ x. P x → Q x) xs → All Q xs
All-with P Q [] p q = tt
All-with P Q (x ∷ xs) (p, ps) (q, qs) = (q p, All-with P Q xs ps qs)
