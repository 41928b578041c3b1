-- ===== src/Scrapers/Tests.antt =====
-- Small answers of the sites.
use recruit_me.Prelude.{
  ℕ, ◌≡◌, refl, String, Bool, true, false, Option, none, some, List, [], ◌∷◌, ◌==◌, if◌then◌else◌,
  map, All, str_eq, strip, split, exists, select,
}
use recruit_me.Scrapers.{ScrapedJob, Answer, answered, broke}
use recruit_me.Scrapers.Jobspy.{Row, search_roles, scrape_jobspy, unique_jobs}
use recruit_me.Scrapers.Wellfound.{Hit, Card, scrape_wellfound, page_loop, jobs_of_role}
use recruit_me.Scrapers.HackerNews.{matches_role_and_location, scrape_hn_hiring}
use recruit_me.Scrapers.Laws.{IsUnique, has_url, scrape_jobspy-IsUnique}
use recruit_me.Scrapers.Pages.{joined, reference_jobs, scrape_wellfound_pages}

abbrev same : String → String
same s = s

abbrev row_of : String → Row
row_of url = record {
  company = "c";
  title = "t";
  location = "";
  description = "";
  job_url = url;
  date_posted = "";
  min_amount = "";
  max_amount = "";
  company_num_employees = "";
  job_type = "";
}

abbrev two_rows : List String → String → String → String → Option (List Row)
two_rows sites role place country = some (row_of "https://indeed.com/1" ∷ row_of "u" ∷ [])

abbrev only_indeed : String → Bool
only_indeed site = str_eq site "indeed"

scrape_jobspy-IsUnique_example :
    let all_jobs = search_roles same two_rows ("indeed" ∷ []) "usa" ("a" ∷ "b" ∷ []) ("x" ∷ []) in
    let unique = scrape_jobspy same two_rows only_indeed ("a" ∷ "b" ∷ []) ("x" ∷ []) in
    IsUnique unique × All (λ j. has_url j.apply_url unique ≡ true) all_jobs
unfolding exists select
scrape_jobspy-IsUnique_example =
    scrape_jobspy-IsUnique same two_rows only_indeed "indeed" [] ("a" ∷ "b" ∷ []) ("x" ∷ []) refl

-- The second role finds the same two links again.
two_links :
    map (λ j. j.source) (scrape_jobspy same two_rows only_indeed ("a" ∷ "b" ∷ []) ("x" ∷ []))
    ≡ "Indeed" ∷ "indeed" ∷ []
unfolding scrape_jobspy search_roles unique_jobs exists select
two_links = refl

abbrev hit_of : String → Hit
hit_of slug = record {
  title = "t";
  startup_name = "s";
  locations = [];
  description = "";
  slug = slug;
  remote = false;
  salary_range = "";
  created_at = "";
  startup_size = "";
}

-- One page for "a", none for any other role.
abbrev search : String → ℕ → Answer (List Hit)
search role page =
    if str_eq role "a" then (if page == 0 then answered 200 (hit_of "x" ∷ []) else broke) else broke

abbrev html : String → Answer (List (Option Card))
html role =
    answered 200 (some (record { title = none; company = none; href = some "/1" }) ∷ none ∷ [])

scrape_wellfound_pages_example :
    scrape_wellfound search html 3 ("a" ∷ "b" ∷ [])
    ≡ joined (map (reference_jobs search html 3) ("a" ∷ "b" ∷ []))
scrape_wellfound_pages_example = scrape_wellfound_pages search html 3 ("a" ∷ "b" ∷ [])

wellfound_urls :
    map (λ j. j.apply_url) (scrape_wellfound search html 3 ("a" ∷ "b" ∷ []))
    ≡ "https://wellfound.com/jobs/x" ∷ "https://wellfound.com/1" ∷ []
unfolding scrape_wellfound jobs_of_role page_loop
wellfound_urls = refl

abbrev item_url : ℕ → String
item_url kid = "https://news.ycombinator.com/item?id=1"

abbrev thread : ℕ → Option (List ℕ)
thread id = some (1 ∷ 2 ∷ [])

abbrev comment : ℕ → Option String
comment kid = if kid == 1 then some "<p>Acme | rust | remote" else none

abbrev hn_job : ScrapedJob
hn_job = record {
  company = "Acme";
  title = "Acme | rust | remote";
  location = "remote";
  description = "Acme | rust | remote";
  apply_url = "https://news.ycombinator.com/item?id=1";
  posted_date = "2026-01-02";
  salary = "";
  company_type = "Startup";
  company_size = "";
  source = "HackerNews";
  job_type = "";
}

one_comment :
    scrape_hn_hiring same "2026-01-02" item_url
      (some 5)
      thread
      comment
      ("rust" ∷ [])
      ("remote" ∷ [])
    ≡ some (hn_job ∷ [])
unfolding scrape_hn_hiring matches_role_and_location exists strip split
one_comment = refl
