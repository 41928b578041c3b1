-- ===== src/Scrapers/Serpapi.antt =====
-- scrapers/serpapi_scraper.py. `search` answers a query from a start on.
use Prim.Native.String
use recruit_me.Prelude.{
  ℕ, zero, suc, ◌*◌, String, List, [], ◌∷◌, ◌++◌, ◌==◌, if◌then◌else◌, map, prefix, str_eq,
}
use recruit_me.Scrapers.{ScrapedJob, Answer, answered, broke, or_default}

-- A result; `via` is `Web` where it is missing, `related_link` the link of the first related one.
pub record GoogleJob : Type 0 where
  pub company_name : String
  pub title : String
  pub location : String
  pub description : String
  pub related_link : String
  pub share_link : String
  pub posted_at : String
  pub salary : String
  pub schedule_type : String
  pub via : String

-- `_parse_job`
abbrev pub parse_google_job : GoogleJob → ScrapedJob
parse_google_job job = record {
  company = job.company_name;
  title = job.title;
  location = job.location;
  description = prefix 3000 job.description;
  apply_url = or_default job.related_link job.share_link;
  posted_date = job.posted_at;
  salary = job.salary;
  company_type = "MNC/Startup";
  company_size = "";
  source = String.◌++◌ "Google Jobs (" (String.◌++◌ job.via ")");
  job_type = job.schedule_type;
}

abbrev results_of : Answer (List GoogleJob) → List GoogleJob
results_of broke = []
results_of (answered status jobs) = if status == 200 then jobs else []

abbrev page_of_results : List GoogleJob → List ScrapedJob → List ScrapedJob
page_of_results [] rest = []
page_of_results (job ∷ jobs) rest = map parse_google_job (job ∷ jobs) ++ rest

module _ (search : String → ℕ → Answer (List GoogleJob)) where
  -- The pages of a query, until one is empty or fails.
  unfoldable pub result_pages : String → ℕ → ℕ → List ScrapedJob
  result_pages query page zero = []
  result_pages query page (suc left) =
      page_of_results (results_of (search query (page * 10))) (result_pages query (suc page) left)

  abbrev search_locations : String → List String → List ScrapedJob
  search_locations role [] = []
  search_locations role (loc ∷ locs) =
      result_pages (String.◌++◌ role (String.◌++◌ " in " loc)) 0 2 ++ search_locations role locs

  abbrev search_all : List String → List String → List ScrapedJob
  search_all [] locations = []
  search_all (role ∷ roles) locations =
      search_locations role locations ++ search_all roles locations

  -- `scrape_serpapi`
  pub scrape_serpapi : List String → List String → String → List ScrapedJob
  scrape_serpapi roles locations api_key =
      if str_eq api_key "" then [] else search_all roles locations
