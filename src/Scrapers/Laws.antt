-- ===== src/Scrapers/Laws.antt =====
-- What the scrapers return: jobspy_scraper.py, wellfound_scraper.py and hn_scraper.py.
use mathlib.Core.Path.{subst}
use recruit_me.Prelude.{
  ◌≡◌, refl, sym, String, Bool, true, false, ◌||◌, Option, List, [], ◌∷◌, str_eq, eq_refl, exists,
  All, All-imp, Bool-cases, inl, inr,
}
use recruit_me.Scrapers.{ScrapedJob}
use recruit_me.Scrapers.Jobspy.{
  Row, unique_jobs, search_roles, country_for, scrape_jobspy, enabled_sites,
}

-- No two jobs have the same link.
abbrev pub IsUnique : List ScrapedJob → Type 0
IsUnique [] = Unit
IsUnique (j ∷ js) = All (λ k. str_eq j.apply_url k.apply_url ≡ false) js × IsUnique js

abbrev pub has_url : String → List ScrapedJob → Bool
has_url url js = exists (λ k. str_eq k.apply_url url) js

unseen_both :
    (v w : String) (seen : List String)
    → exists (λ u. str_eq u w) (v ∷ seen) ≡ false
    → (str_eq v w ≡ false) × (exists (λ u. str_eq u w) seen ≡ false)
unfolding exists
unseen_both v w seen h = elim (Bool-cases (str_eq v w)) [
  | inl t ↦ absurd (true-ne-false (rw t at h))
  | inr t ↦ (t, rw t at h)
]
  where
    true-ne-false : ◌≡◌ {A = Bool} true false → ⊥
    true-ne-false e = cc

unseen_jobs :
    (seen : List String) (js : List ScrapedJob)
    → All (λ k. exists (λ u. str_eq u k.apply_url) seen ≡ false) (unique_jobs seen js)
unfolding unique_jobs
unseen_jobs seen [] = tt
unseen_jobs seen (j ∷ js) = elim (Bool-cases (exists (λ u. str_eq u j.apply_url) seen)) [
  | inl t ↦ rw t (unseen_jobs seen js)
  | inr t ↦ rw t (
    t,
    All-imp (λ k. exists (λ u. str_eq u k.apply_url) (j.apply_url ∷ seen) ≡ false)
        (λ k. exists (λ u. str_eq u k.apply_url) seen ≡ false) _
        (λ k h. (unseen_both j.apply_url k.apply_url seen h).1)
        (unseen_jobs (j.apply_url ∷ seen) js),
  )
]

unique_jobs-IsUnique : (seen : List String) (js : List ScrapedJob) → IsUnique (unique_jobs seen js)
unfolding unique_jobs
unique_jobs-IsUnique seen [] = tt
unique_jobs-IsUnique seen (j ∷ js) = elim (Bool-cases (exists (λ u. str_eq u j.apply_url) seen)) [
  | inl t ↦ rw t (unique_jobs-IsUnique seen js)
  | inr t ↦ rw t (
    All-imp (λ k. exists (λ u. str_eq u k.apply_url) (j.apply_url ∷ seen) ≡ false)
        (λ k. str_eq j.apply_url k.apply_url ≡ false) _
        (λ k h. (unseen_both j.apply_url k.apply_url seen h).0)
        (unseen_jobs (j.apply_url ∷ seen) js),
    unique_jobs-IsUnique (j.apply_url ∷ seen) js,
  )
]

abbrev is_covered : List String → List ScrapedJob → String → Bool
is_covered seen found url = exists (λ u. str_eq u url) seen || has_url url found

or_true : (b : Bool) → (b || true) ≡ true
or_true true = refl
or_true false = refl

covered_by_new :
    (seen : List String) (j : ScrapedJob) (found : List ScrapedJob) (url : String)
    → is_covered (j.apply_url ∷ seen) found url ≡ true
    → is_covered seen (j ∷ found) url ≡ true
unfolding exists
covered_by_new seen j found url h = elim (Bool-cases (str_eq j.apply_url url)) [
  | inl t ↦ rw t (or_true (exists (λ u. str_eq u url) seen))
  | inr t ↦ rw t (rw t at h)
]

covered_here :
    (seen : List String) (j : ScrapedJob) (found : List ScrapedJob)
    → is_covered seen (j ∷ found) j.apply_url ≡ true
unfolding exists
covered_here seen j found =
    rw (eq_refl j.apply_url) (or_true (exists (λ u. str_eq u j.apply_url) seen))

unique_jobs-seen :
    (seen : List String) (j : ScrapedJob) (js : List ScrapedJob)
    → exists (λ u. str_eq u j.apply_url) seen ≡ true
    → unique_jobs seen (j ∷ js) ≡ unique_jobs seen js
unfolding unique_jobs
unique_jobs-seen seen j js t = rw t refl

unique_jobs-unseen :
    (seen : List String) (j : ScrapedJob) (js : List ScrapedJob)
    → exists (λ u. str_eq u j.apply_url) seen ≡ false
    → unique_jobs seen (j ∷ js) ≡ j ∷ unique_jobs (j.apply_url ∷ seen) js
unfolding unique_jobs
unique_jobs-unseen seen j js t = rw t refl

-- A job's link was seen before, or a job with it is there.
unique_jobs_complete :
    (seen : List String) (js : List ScrapedJob)
    → All (λ j. is_covered seen (unique_jobs seen js) j.apply_url ≡ true) js
unique_jobs_complete seen [] = tt
unique_jobs_complete seen (j ∷ js) =
    let covers =
      λ (found : List ScrapedJob). All (λ k. is_covered seen found k.apply_url ≡ true) (j ∷ js) in
    elim (Bool-cases (exists (λ u. str_eq u j.apply_url) seen)) [
      | inl t ↦
          subst covers (sym (unique_jobs-seen seen j js t))
            (rw t refl, unique_jobs_complete seen js)
      | inr t ↦
          let found = unique_jobs (j.apply_url ∷ seen) js in
          subst covers (sym (unique_jobs-unseen seen j js t)) (
            covered_here seen j found,
            All-imp (λ k. is_covered (j.apply_url ∷ seen) found k.apply_url ≡ true)
                (λ k. is_covered seen (j ∷ found) k.apply_url ≡ true) js
                (λ k h. covered_by_new seen j found k.apply_url h)
                (unique_jobs_complete (j.apply_url ∷ seen) js),
          )
    ]

-- No two jobs that the search for roles returns have the same link, and each link that a site of it
-- gave belongs to one of them, if a site is switched on.
pub scrape_jobspy-IsUnique :
    (lower : String → String)
    (scrape_jobs : List String → String → String → String → Option (List Row))
    (enabled : String → Bool) (site : String) (sites roles locations : List String)
    → enabled_sites enabled ≡ site ∷ sites
    → let all_jobs =
        search_roles lower scrape_jobs
          (site ∷ sites)
          (country_for lower locations)
          roles
          locations in
      let unique = scrape_jobspy lower scrape_jobs enabled roles locations in
      IsUnique unique × All (λ j. has_url j.apply_url unique ≡ true) all_jobs
unfolding scrape_jobspy exists
scrape_jobspy-IsUnique lower scrape_jobs enabled site sites roles locations e =
    let all_jobs =
      search_roles lower scrape_jobs (site ∷ sites) (country_for lower locations) roles locations in
    rw e (unique_jobs-IsUnique [] all_jobs, unique_jobs_complete [] all_jobs)
