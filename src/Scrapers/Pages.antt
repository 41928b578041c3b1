-- ===== src/Scrapers/Pages.antt =====
-- The pages of wellfound_scraper.py and the comments of hn_scraper.py.
use recruit_me.Prelude.{
  ℕ, zero, suc, ◌≤◌, ◌≡◌, refl, sym, ap, String, Bool, true, Option, none, some, List, [], ◌∷◌,
  ◌++◌, map, take, length, prefix, All, All-append, Bool-cases, inl, inr, arith, length-append,
  some_inj,
}
use recruit_me.Scrapers.{ScrapedJob, Answer}
use recruit_me.Scrapers.Wellfound.{
  Hit, Card, algolia_search, parse_hit, fallback_html_scrape, page_loop, jobs_of_role,
  scrape_wellfound, page_result, or_fallback,
}
use recruit_me.Scrapers.HackerNews.{
  clean_text, matches_role_and_location, comment_job, comment_jobs, scrape_hn_hiring, kids_of,
}

-- The pages before the first one without a hit.
abbrev pub before_empty : {A : Type 0} → List (List A) → List (List A)
before_empty [] = []
before_empty ([] ∷ pages) = []
before_empty ((x ∷ xs) ∷ pages) = (x ∷ xs) ∷ before_empty pages

abbrev pub joined : {A : Type 0} → List (List A) → List A
joined [] = []
joined (xs ∷ xss) = xs ++ joined xss

abbrev pub or_else : {A : Type 0} → List A → List A → List A
or_else [] ys = ys
or_else (x ∷ xs) ys = x ∷ xs

map-append : {A B : Type 0} (f : A → B) (xs ys : List A) → map f (xs ++ ys) ≡ map f xs ++ map f ys
map-append f [] ys = refl
map-append f (x ∷ xs) ys = ap (λ zs. f x ∷ zs) (map-append f xs ys)

page_result-eq :
    (hits : List Hit) (rest : Bool × List ScrapedJob) (pages : List (List Hit))
    → rest.1 ≡ map parse_hit (joined (before_empty pages))
    → (page_result hits rest).1 ≡ map parse_hit (joined (before_empty (hits ∷ pages)))
page_result-eq [] rest pages h = refl
page_result-eq (hit ∷ hits) rest pages h =
    rw h (sym (map-append parse_hit (hit ∷ hits) (joined (before_empty pages))))

or_fallback-eq :
    (hits : List Hit) (rest : Bool × List ScrapedJob) (jobs fallback : List ScrapedJob)
    → (page_result hits rest).1 ≡ jobs
    → or_fallback (page_result hits rest) fallback ≡ or_else jobs fallback
or_fallback-eq [] rest jobs fallback h = rw (← h) refl
or_fallback-eq (hit ∷ hits) rest jobs fallback h = rw (← h) refl

module _ (search : String → ℕ → Answer (List Hit))
    (html : String → Answer (List (Option Card))) where
  -- What the search gives for `count` pages from `page` on.
  abbrev pub pages_of : String → ℕ → ℕ → List (List Hit)
  pages_of role page zero = []
  pages_of role page (suc count) =
      algolia_search (search role page) ∷ pages_of role (suc page) count

  -- The jobs for a role by the pages, or else by the public page.
  abbrev pub reference_jobs : ℕ → String → List ScrapedJob
  reference_jobs max_pages role =
      or_else (map parse_hit (joined (before_empty (pages_of role 0 max_pages))))
        (fallback_html_scrape role (html role))

  page_loop-eq :
      (role : String) (page count : ℕ)
      → (page_loop search html role page count).1
        ≡ map parse_hit (joined (before_empty (pages_of role page count)))
  unfolding page_loop
  page_loop-eq role page zero = refl
  page_loop-eq role page (suc count) =
      page_result-eq (algolia_search (search role page))
        (page_loop search html role (suc page) count) (pages_of role (suc page) count)
        (page_loop-eq role (suc page) count)

  jobs_of_role-eq :
      (max_pages : ℕ) (role : String)
      → jobs_of_role search html max_pages role ≡ reference_jobs max_pages role
  unfolding jobs_of_role page_loop
  jobs_of_role-eq zero role = refl
  jobs_of_role-eq (suc count) role =
      or_fallback-eq (algolia_search (search role 0)) (page_loop search html role 1 count) _
        (fallback_html_scrape role (html role)) (page_loop-eq role 0 (suc count))

  -- The jobs are, role after role, those of the pages before the first one without a hit, of at most
  -- `max_pages`, and those of the public page for a role whose first page has none.
  pub scrape_wellfound_pages :
      (max_pages : ℕ) (roles : List String)
      → scrape_wellfound search html max_pages roles ≡ joined (map (reference_jobs max_pages) roles)
  unfolding scrape_wellfound
  scrape_wellfound_pages max_pages [] = refl
  scrape_wellfound_pages max_pages (role ∷ roles) =
      rw (jobs_of_role-eq max_pages role, scrape_wellfound_pages max_pages roles) refl

-- A job that was made from a comment that matches a role and a place.
abbrev pub IsMatching : (String → String) → List String → List String → ScrapedJob → Type 0
IsMatching lower roles locations job =
    (text : String) × (matches_role_and_location lower text roles locations ≡ true)
    × (job.description ≡ prefix 3000 text)

module _ (lower : String → String) (today : String) (item_url : ℕ → String)
    (comment : ℕ → Option String) (roles locations : List String) where
  comment_job-bounds :
      (kid : ℕ) (text : Option String)
      → let jobs = comment_job lower today item_url roles locations kid text in
        (length jobs ≤ 1) × All (IsMatching lower roles locations) jobs
  comment_job-bounds kid none = (omega arith, tt)
  comment_job-bounds kid (some text) =
      elim (Bool-cases (matches_role_and_location lower (clean_text text) roles locations)) [
        | inl t ↦ rw t (omega arith, ((clean_text text, t, refl), tt))
        | inr t ↦ rw t (omega arith, tt)
      ]

  comment_jobs-bounds :
      (kids : List ℕ)
      → let jobs = comment_jobs lower today item_url comment roles locations kids in
        (length jobs ≤ length kids) × All (IsMatching lower roles locations) jobs
  comment_jobs-bounds [] = (omega arith, tt)
  comment_jobs-bounds (kid ∷ kids) =
      let (n, a) = comment_job-bounds kid (comment kid) in
      let (m, b) = comment_jobs-bounds kids in
      let one = comment_job lower today item_url roles locations kid (comment kid) in
      let more = comment_jobs lower today item_url comment roles locations kids in
      (
        omega (arith, n, m, length-append one more),
        All-append (IsMatching lower roles locations) one more a b,
      )

  length-take : {A : Type 0} (n : ℕ) (xs : List A) → length (take n xs) ≤ n
  length-take zero xs = omega arith
  length-take (suc n) [] = omega arith
  length-take (suc n) (x ∷ xs) = omega (arith, length-take n xs)

  -- Of a thread at most 200 comments become jobs, each of them made from a text that matches one of
  -- the roles and one of the places.
  pub scrape_hn_hiring_sound :
      (found : Option ℕ) (thread : ℕ → Option (List ℕ)) (jobs : List ScrapedJob)
      → scrape_hn_hiring lower today item_url found thread comment roles locations ≡ some jobs
      → (length jobs ≤ 200) × All (IsMatching lower roles locations) jobs
  unfolding scrape_hn_hiring
  scrape_hn_hiring_sound none thread jobs h = cc
  scrape_hn_hiring_sound (some thread_id) thread jobs h =
      let kids = take 200 (kids_of lower thread thread_id) in
      let (n, a) = comment_jobs-bounds kids in
      rw (← some_inj h) (omega (arith, n, length-take 200 (kids_of lower thread thread_id)), a)
