-- ===== src/Engine/Matching/Places.antt =====
-- Which job a candidate of matching.py stands for: the batches, the offsets in them and the places that
-- the two give.
use mathlib.Core.List.{Memᴰ}
use mathlib.Core.List.Memᴰ
use mathlib.Core.Path.{subst}
use recruit_me.Prelude.{
  ℕ, zero, suc, ◌+◌, ◌≤◌, ◌<◌, ◌≡◌, refl, sym, ◌∙◌, ap, String, Option, none, some, List, [], ◌∷◌,
  length, take, drop, inl, inr, All, All-append, arith, some_inj,
}
use recruit_me.Engine.Types.{EngineResume, JobPosting, MatchedJob}
use recruit_me.Engine.Matching.{Score, to_matched, candidates_in, candidates_from, candidates_of}
use recruit_me.Engine.Matching.Laws.{drop-length}

-- The element at a place, if there is one.
abbrev pub get_elem? : {A : Type 0} → List A → ℕ → Option A
get_elem? [] i = none
get_elem? (x ∷ xs) zero = some x
get_elem? (x ∷ xs) (suc i) = get_elem? xs i

zero-plus : (i : ℕ) → i ≡ 0 + i
zero-plus i = omega arith

suc-plus : (n i : ℕ) → suc (n + i) ≡ suc n + i
suc-plus n i = omega arith

get_elem?-drop :
    {A : Type 0} (n : ℕ) (xs : List A) (i : ℕ) → get_elem? (drop n xs) i ≡ get_elem? xs (n + i)
get_elem?-drop zero xs i = ap (get_elem? xs) (omega arith)
get_elem?-drop (suc n) [] i = refl
get_elem?-drop (suc n) (x ∷ xs) i = get_elem?-drop n xs i ∙ ap (get_elem? (x ∷ xs)) (suc-plus n i)

get_elem?-take :
    {A : Type 0} (n : ℕ) (xs : List A) (i : ℕ) → i < n → get_elem? (take n xs) i ≡ get_elem? xs i
get_elem?-take zero xs i h = absurd (omega arith)
get_elem?-take (suc n) [] i h = refl
get_elem?-take (suc n) (x ∷ xs) zero h = refl
get_elem?-take (suc n) (x ∷ xs) (suc i) h = get_elem?-take n xs i (omega arith)

drop-nil : {A : Type 0} (b : ℕ) → drop {A = A} b [] ≡ []
drop-nil zero = refl
drop-nil (suc b) = refl

drop-drop : {A : Type 0} (a b : ℕ) (xs : List A) → drop b (drop a xs) ≡ drop (a + b) xs
drop-drop zero b xs = ap (λ n. drop n xs) (omega arith)
drop-drop (suc a) b [] = drop-nil b ∙ ap (λ n. drop n []) (suc-plus a b)
drop-drop (suc a) b (x ∷ xs) = drop-drop a b xs ∙ ap (λ n. drop n (x ∷ xs)) (suc-plus a b)

length-take_bound : {A : Type 0} (n : ℕ) (xs : List A) → length (take n xs) ≤ n
length-take_bound zero xs = omega arith
length-take_bound (suc n) [] = omega arith
length-take_bound (suc n) (x ∷ xs) = omega (arith, length-take_bound n xs)

-- Where the batch of a number starts.
abbrev pub batch_start : ℕ → ℕ → ℕ
batch_start size zero = 0
batch_start size (suc n) = size + batch_start size n

module _ (upper : String → String) (score : EngineResume → List JobPosting → ℕ → Score) (size : ℕ)
    (jobs : List JobPosting) where
  -- What a résumé scores at an offset of a batch.
  abbrev pub score_at : EngineResume → ℕ → ℕ → Score
  score_at r n offset = score r (take size (drop (batch_start size n) jobs)) offset

  -- The match at a place is of the job at that place, with the score that one of the résumés has for it.
  pub record IsScored (resumes : List EngineResume) (i : ℕ) (m : MatchedJob) : Type 0 where
    pub resume : EngineResume
    pub is_given : Memᴰ resume resumes
    pub batch : ℕ
    pub offset : ℕ
    pub place : i ≡ batch_start size batch + offset
    pub inside : offset < size
    pub found : get_elem? jobs i ≡ some m.job
    pub scored : m ≡ to_matched upper m.job (score_at resume batch offset) resume.resume_id

  abbrev Q : List EngineResume → ℕ × MatchedJob → Type 0
  Q resumes c = IsScored resumes c.0 c.1

  candidates_in-IsScored :
      (resumes : List EngineResume) (r : EngineResume)
      → Memᴰ r resumes
      → (batch offset : ℕ) (js : List JobPosting)
      → ((i : ℕ)
          → get_elem? js i
            ≡ get_elem? (take size (drop (batch_start size batch) jobs)) (offset + i))
      → offset + length js ≤ size
      → All (Q resumes) (
          candidates_in upper score r
            (take size (drop (batch_start size batch) jobs))
            (batch_start size batch)
            offset
            js)
  unfolding candidates_in
  candidates_in-IsScored resumes r given batch offset [] h fits = tt
  candidates_in-IsScored resumes r given batch offset (j ∷ js) h fits =
      let start = batch_start size batch in
      let here : get_elem? (take size (drop start jobs)) offset ≡ some j =
        ap (get_elem? (take size (drop start jobs))) (omega arith) ∙ sym (h 0) in
      (
        record {
          resume = r;
          is_given = given;
          batch = batch;
          offset = offset;
          place = refl;
          inside = omega arith;
          found =
              sym (get_elem?-drop start jobs offset)
              ∙ sym (get_elem?-take size (drop start jobs) offset (omega arith))
              ∙ here;
          scored = refl;
        },
        candidates_in-IsScored resumes r given batch (suc offset) js
            (λ i. h (suc i) ∙ ap (get_elem? (take size (drop start jobs))) (omega arith))
            (omega arith),
      )

  candidates_from-IsScored :
      (resumes : List EngineResume) (r : EngineResume)
      → Memᴰ r resumes
      → (rounds batch start : ℕ) (js : List JobPosting) → start ≡ batch_start size batch
      → js ≡ drop start jobs
      → All (Q resumes) (candidates_from upper score rounds size r start js)
  unfolding candidates_from
  candidates_from-IsScored resumes r given zero batch start js e d = tt
  candidates_from-IsScored resumes r given (suc rounds) batch start [] e d = tt
  candidates_from-IsScored resumes r given (suc rounds) batch start (j ∷ js) e d =
      let all = drop (batch_start size batch) jobs in
      let same : j ∷ js ≡ all = d ∙ ap (λ s. drop s jobs) e in
      All-append (Q resumes)
        (candidates_in upper score r (take size (j ∷ js)) start 0 (take size (j ∷ js))) _
        (subst
          (λ l. All (Q resumes) (candidates_in upper score r (take size l) start 0 (take size l)))
          (sym same)
          (subst
            (λ s. All (Q resumes) (candidates_in upper score r (take size all) s 0 (take size all)))
            (sym e)
            (candidates_in-IsScored resumes r given batch 0 (take size all)
              (λ i. ap (get_elem? (take size all)) (zero-plus i))
              (omega (arith, length-take_bound size all)))))
        (candidates_from-IsScored resumes r given rounds (suc batch) (start + size)
          (drop size (j ∷ js)) (omega (arith, e)) (ap (drop size) d ∙ drop-drop start size jobs))

  pub candidates_of-IsScored :
      (resumes rs : List EngineResume)
      → All (λ r. Memᴰ r resumes) rs
      → All (Q resumes) (candidates_of upper score size rs jobs)
  unfolding candidates_of
  candidates_of-IsScored resumes [] given = tt
  candidates_of-IsScored resumes (r ∷ rs) (here, given) =
      All-append (Q resumes) (candidates_from upper score (length jobs) size r 0 jobs) _
        (candidates_from-IsScored resumes r here (length jobs) 0 0 jobs refl refl)
        (candidates_of-IsScored resumes rs given)

  candidates_in-mem :
      (r : EngineResume) (batch : List JobPosting) (start offset o : ℕ) (js : List JobPosting)
      (i : ℕ) (j : JobPosting)
      → o ≡ offset + i
      → get_elem? js i ≡ some j
      → Memᴰ
          (start + o, to_matched upper j (score r batch o) r.resume_id)
          (candidates_in upper score r batch start offset js)
  unfolding candidates_in
  candidates_in-mem r batch start offset o [] i j e h = absurd (ground arith)
  candidates_in-mem r batch start offset o (x ∷ js) zero j e h =
      let same : o ≡ offset = omega (arith, e) in
      let job : j ≡ x = sym (some_inj h) in Memᴰ.head (rw (same, job) refl)
  candidates_in-mem r batch start offset o (x ∷ js) (suc i) j e h =
      Memᴰ.tail (candidates_in-mem r batch start (suc offset) o js i j (omega (arith, e)) h)

  candidates_from-mem :
      (r : EngineResume) (rounds start n o p : ℕ) (js : List JobPosting) (j : JobPosting)
      → o < size
      → length js ≤ rounds
      → p ≡ start + (batch_start size n + o)
      → get_elem? js (batch_start size n + o) ≡ some j
      → Memᴰ
          (p, to_matched upper j (score r (take size (drop (batch_start size n) js)) o) r.resume_id)
          (candidates_from upper score rounds size r start js)
  unfolding candidates_from
  candidates_from-mem r rounds start n o p [] j inside enough e h = absurd (ground arith)
  candidates_from-mem r zero start n o p (x ∷ js) j inside enough e h = absurd (omega arith)
  candidates_from-mem r (suc rounds) start zero o p (x ∷ js) j inside enough e h =
      Memᴰ.append_left
        {s = candidates_in upper score r (take size (x ∷ js)) start 0 (take size (x ∷ js))} _
        (rw (e ∙ ap (λ k. start + k) (sym (zero-plus o))) (
          candidates_in-mem r (take size (x ∷ js)) start 0 o (take size (x ∷ js)) o j (zero-plus o)
            (get_elem?-take size (x ∷ js) o inside ∙ ap (get_elem? (x ∷ js)) (zero-plus o) ∙ h)))
  candidates_from-mem r (suc rounds) start (suc n) o p (x ∷ js) j inside enough e h =
      let rest = drop size (x ∷ js) in
      let found : get_elem? rest (batch_start size n + o) ≡ some j =
        get_elem?-drop size (x ∷ js) (batch_start size n + o)
        ∙ ap (get_elem? (x ∷ js)) (omega arith)
        ∙ h in
      let short : length rest ≤ rounds = elim (drop-length size (x ∷ js)) [
        | inl gone ↦ rw gone (omega arith)
        | inr kept ↦ omega (arith, kept)
      ] in
      Memᴰ.append_right
        (candidates_in upper score r (take size (x ∷ js)) start 0 (take size (x ∷ js)))
        (subst
          (λ l.
            Memᴰ (p, to_matched upper j (score r (take size l) o) r.resume_id)
              (candidates_from upper score rounds size r (start + size) rest))
          (drop-drop size (batch_start size n) (x ∷ js))
          (candidates_from-mem r rounds (start + size) n o p rest j inside short (omega (arith, e))
            found))

  pub candidates_of-mem :
      (r : EngineResume) (n o : ℕ) (rs : List EngineResume) (j : JobPosting)
      → Memᴰ r rs
      → o < size
      → get_elem? jobs (batch_start size n + o) ≡ some j
      → Memᴰ
          (batch_start size n + o, to_matched upper j (score_at r n o) r.resume_id)
          (candidates_of upper score size rs jobs)
  unfolding candidates_of
  candidates_of-mem r n o [] j m inside h = absurd (Memᴰ.not-nil m)
  candidates_of-mem r n o (x ∷ rs) j (Memᴰ.head e) inside h =
      Memᴰ.append_left {s = candidates_from upper score (length jobs) size x 0 jobs} _ (
        rw e (
          candidates_from-mem x (length jobs) 0 n o (batch_start size n + o) jobs j inside
            (omega arith) (omega arith) h))
  candidates_of-mem r n o (x ∷ rs) j (Memᴰ.tail m) inside h =
      Memᴰ.append_right (candidates_from upper score (length jobs) size x 0 jobs)
        (candidates_of-mem r n o rs j m inside h)
