-- ===== src/Scrapers/Wellfound.antt =====
-- scrapers/wellfound_scraper.py.
use Prim.Native.String
use recruit_me.Prelude.{
  ℕ, zero, suc, String, Bool, true, false, Option, none, some, List, [], ◌∷◌, ◌++◌, ◌==◌,
  if◌then◌else◌, map, take, join, prefix, str_eq,
}
use recruit_me.Scrapers.{ScrapedJob, Answer, answered, broke}

-- A hit of the search.
pub record Hit : Type 0 where
  pub title : String
  pub startup_name : String
  pub locations : List String
  pub description : String
  pub slug : String
  pub remote : Bool
  pub salary_range : String
  pub created_at : String
  pub startup_size : String

-- A card of the public page: the texts of its elements, and the link of its title.
pub record Card : Type 0 where
  pub title : Option String
  pub company : Option String
  pub href : Option String

-- `_algolia_search`
abbrev pub algolia_search : Answer (List Hit) → List Hit
algolia_search (answered status hits) = if status == 200 then hits else []
algolia_search broke = []

abbrev job_url : String → String
job_url slug =
    if str_eq slug ""
    then "https://wellfound.com/jobs"
    else String.◌++◌ "https://wellfound.com/jobs/" slug

abbrev places : List String → String
places [] = "India"
places (l ∷ ls) = join ", " (l ∷ ls)

-- `_parse_hit`
abbrev pub parse_hit : Hit → ScrapedJob
parse_hit hit = record {
  company = hit.startup_name;
  title = hit.title;
  location = if hit.remote then "Remote" else places hit.locations;
  description = prefix 3000 hit.description;
  apply_url = job_url hit.slug;
  posted_date = prefix 10 hit.created_at;
  salary = hit.salary_range;
  company_type = "Startup";
  company_size = hit.startup_size;
  source = "Wellfound";
  job_type = if hit.remote then "Remote" else "On-site";
}

abbrev text_or : Option String → String → String
text_or none default = default
text_or (some t) default = t

abbrev card_url : String → String
card_url href =
    if str_eq href ""
    then "https://wellfound.com/jobs"
    else String.◌++◌ "https://wellfound.com" href

abbrev card_job : String → Card → ScrapedJob
card_job role card = record {
  company = text_or card.company "";
  title = text_or card.title role;
  location = "India";
  description = "";
  apply_url = card_url (text_or card.href "");
  posted_date = "";
  salary = "";
  company_type = "Startup";
  company_size = "";
  source = "Wellfound";
  job_type = "";
}

-- The cards before the first one whose reading raises, `none`: the handler returns what was built.
abbrev pub readable : List (Option Card) → List Card
readable [] = []
readable (none ∷ cards) = []
readable (some c ∷ cards) = c ∷ readable cards

-- `_fallback_html_scrape`, with the cards that the page has
abbrev pub fallback_html_scrape : String → Answer (List (Option Card)) → List ScrapedJob
fallback_html_scrape role (answered status cards) =
    if status == 200 then map (card_job role) (readable (take 15 cards)) else []
fallback_html_scrape role broke = []

-- One turn of the loop over the pages, with the turns after it.
abbrev pub page_result : List Hit → Bool × List ScrapedJob → Bool × List ScrapedJob
page_result [] rest = (false, [])
page_result (hit ∷ hits) rest = (true, map parse_hit (hit ∷ hits) ++ rest.1)

abbrev pub or_fallback : Bool × List ScrapedJob → List ScrapedJob → List ScrapedJob
or_fallback (true, jobs) fallback = jobs
or_fallback (false, jobs) fallback = jobs ++ fallback

module _ (search : String → ℕ → Answer (List Hit))
    (html : String → Answer (List (Option Card))) where
  -- The loop over the pages, which an empty one ends: whether there was a hit, and the jobs.
  unfoldable pub page_loop : String → ℕ → ℕ → Bool × List ScrapedJob
  page_loop role page zero = (false, [])
  page_loop role page (suc left) =
      page_result (algolia_search (search role page)) (page_loop role (suc page) left)

  unfoldable pub jobs_of_role : ℕ → String → List ScrapedJob
  jobs_of_role max_pages role =
      or_fallback (page_loop role 0 max_pages) (fallback_html_scrape role (html role))

  -- `scrape_wellfound`
  unfoldable pub scrape_wellfound : ℕ → List String → List ScrapedJob
  scrape_wellfound max_pages [] = []
  scrape_wellfound max_pages (role ∷ roles) =
      jobs_of_role max_pages role ++ scrape_wellfound max_pages roles
