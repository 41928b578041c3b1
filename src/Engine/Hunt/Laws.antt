-- ===== src/Engine/Hunt/Laws.antt =====
-- The scraping, the deduplication and the filter of engine.py.
use recruit_me.Prelude.{
  ℕ, ◌≡◌, refl, sym, String, Bool, true, false, ◌&&◌, not, List, [], ◌∷◌, ◌++◌, exists, select,
  str_eq, eq_iff, All, Bool-cases, inl, inr, arith,
}
use recruit_me.Engine.Types.{EngineResume, JobPosting, EngineInput}
use recruit_me.Engine.Matching.{Score, batch_match}
use recruit_me.Engine.Hunt.{
  Scrape, no_source, found, broke, scrape_gated, scrape_all, is_among, filter_new, distinct_new,
  hashes_of, is_kept, new_jobs, run_engine,
}

-- No hash repeats, nor is any among those seen before.
pub IsDistinct : List String → List JobPosting → Type 0
IsDistinct seen [] = Unit
IsDistinct seen (j ∷ js) =
    (is_among j.external_hash seen ≡ false) × IsDistinct (j.external_hash ∷ seen) js

abbrev IsUnknown : List String → JobPosting → Type 0
IsUnknown known j = is_among j.external_hash known ≡ false

tests : (a b : Bool) → (a && not b) ≡ true → (a ≡ true) × (b ≡ false)
tests true b h = ground arith
tests false b h = ground arith

distinct_new-IsDistinct :
    (unseen seen : List String) (js : List JobPosting)
    → IsDistinct seen (distinct_new unseen seen js)
unfolding distinct_new IsDistinct
distinct_new-IsDistinct unseen seen [] = tt
distinct_new-IsDistinct unseen seen (j ∷ js) =
    let test = is_among j.external_hash unseen && not (is_among j.external_hash seen) in
    elim (Bool-cases test) [
      | inl t ↦
          let (_, fresh) =
            tests (is_among j.external_hash unseen) (is_among j.external_hash seen) t in
          rw t (fresh, distinct_new-IsDistinct unseen (j.external_hash ∷ seen) js)
      | inr t ↦ rw t (distinct_new-IsDistinct unseen seen js)
    ]

is_among-filter_new :
    (known hs : List String) (h : String)
    → is_among h (filter_new known hs) ≡ true
    → is_among h known ≡ false
unfolding filter_new exists select
is_among-filter_new known [] h e = ground arith
is_among-filter_new known (x ∷ hs) h e = elim (Bool-cases (is_among x known)) [
  | inl t ↦ is_among-filter_new known hs h (rw t at e)
  | inr t ↦ elim (Bool-cases (str_eq x h)) [
    | inl same ↦ rw (sym ((eq_iff x h).0 same)) t
    | inr other ↦ is_among-filter_new known hs h (rw (t, other) at e)
  ]
]

distinct_new-known :
    (known hs seen : List String) (js : List JobPosting)
    → All (IsUnknown known) (distinct_new (filter_new known hs) seen js)
unfolding distinct_new
distinct_new-known known hs seen [] = tt
distinct_new-known known hs seen (j ∷ js) =
    let among = is_among j.external_hash (filter_new known hs) in
    let test = among && not (is_among j.external_hash seen) in
    elim (Bool-cases test) [
      | inl t ↦
          let (new, _) = tests among (is_among j.external_hash seen) t in
          rw t (
            is_among-filter_new known hs j.external_hash new,
            distinct_new-known known hs (j.external_hash ∷ seen) js,
          )
      | inr t ↦ rw t (distinct_new-known known hs seen js)
    ]

select-All : {A : Type 0} (p : A → Bool) (xs : List A) → All (λ x. p x ≡ true) (select p xs)
unfolding select
select-All p [] = tt
select-All p (x ∷ xs) = elim (Bool-cases (p x)) [
  | inl t ↦ rw t (t, select-All p xs)
  | inr t ↦ rw t (select-All p xs)
]

module _ (lower upper : String → String) (hash : JobPosting → String) (is_marker : String → Bool)
    (score : EngineResume → List JobPosting → ℕ → Score) (scrape : String → Scrape) where
  -- Whatever the sources repeat, the jobs that are scored have different hashes, and none is known
  -- for the tenant.
  pub new_jobs_new :
      (known : List String) (inp : EngineInput)
      → IsDistinct [] (new_jobs lower upper hash is_marker score scrape known inp)
        × All (IsUnknown known) (new_jobs lower upper hash is_marker score scrape known inp)
  unfolding new_jobs
  new_jobs_new known inp =
      let all_jobs = (scrape_all hash inp.profile.big3_optin scrape inp.enabled_sources).0 in
      (
        distinct_new-IsDistinct (filter_new known (hashes_of all_jobs)) [] all_jobs,
        distinct_new-known known (hashes_of all_jobs) [] all_jobs,
      )

  -- Every match of a result reaches the tenant's threshold or is of a company on the watchlist.
  pub run_engine_kept :
      (known : List String) (inp : EngineInput)
      → All
          (λ m.
            is_kept lower inp.profile.min_match_percent inp.profile.watchlist_companies m ≡ true)
          (run_engine lower upper hash is_marker score scrape known inp).matched
  unfolding run_engine
  run_engine_kept known inp =
      select-All (is_kept lower inp.profile.min_match_percent inp.profile.watchlist_companies)
        (batch_match upper score is_marker inp.limits.match_batch_size
          (new_jobs lower upper hash is_marker score scrape known inp) inp.resumes).0

gated-none :
    (hash : JobPosting → String) (name : String) (s : Scrape)
    → str_eq name "jobspy" ≡ true
    → (scrape_gated hash false name s).0 ≡ []
gated-none hash name no_source big = refl
gated-none hash name (found jobs) big = rw big refl
gated-none hash name (broke error) big = rw big refl

broken-none :
    (hash : JobPosting → String) (optin : Bool) (name error : String)
    → (scrape_gated hash optin name (broke error)).0 ≡ []
broken-none hash optin name error = elim (Bool-cases (str_eq name "jobspy" && not optin)) [
  | inl t ↦ rw t refl
  | inr t ↦ rw t refl
]

-- Without the tenant's consent, what the three large boards would answer has no effect on the jobs.
pub scrape_all_gated :
    (hash : JobPosting → String) (f g : String → Scrape) (names : List String)
    → ((name : String) → str_eq name "jobspy" ≡ false → f name ≡ g name)
    → (scrape_all hash false f names).0 ≡ (scrape_all hash false g names).0
unfolding scrape_all
scrape_all_gated hash f g [] same = refl
scrape_all_gated hash f g (name ∷ names) same = elim (Bool-cases (str_eq name "jobspy")) [
  | inl big ↦
      rw
        (
          gated-none hash name (f name) big,
          gated-none hash name (g name) big,
          scrape_all_gated hash f g names same,
        )
        refl
  | inr other ↦ rw (same name other, scrape_all_gated hash f g names same) refl
]

-- A source that breaks takes no job of another source with it.
pub scrape_all_isolated :
    (hash : JobPosting → String) (optin : Bool) (scrape : String → Scrape)
    (before after : List String) (name error : String)
    → scrape name ≡ broke error
    → (scrape_all hash optin scrape (before ++ name ∷ after)).0
      ≡ (scrape_all hash optin scrape (before ++ after)).0
unfolding scrape_all
scrape_all_isolated hash optin scrape [] after name error e =
    rw (e, broken-none hash optin name error) refl
scrape_all_isolated hash optin scrape (x ∷ before) after name error e =
    rw (scrape_all_isolated hash optin scrape before after name error e) refl
