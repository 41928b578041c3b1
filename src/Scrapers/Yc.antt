-- ===== src/Scrapers/Yc.antt =====
-- scrapers/yc_scraper.py.
use Prim.Native.String
use recruit_me.Prelude.{
  ℕ, String, Bool, ◌||◌, Option, none, some, List, [], ◌∷◌, ◌==◌, if◌then◌else◌, join, prefix,
  str_eq, contains, exists, words,
}
use recruit_me.Scrapers.{ScrapedJob, Answer, answered, broke, or_default}

-- A job of the feed; numbers as `str` writes them.
pub record YcJob : Type 0 where
  pub id : String
  pub company_id : ℕ
  pub title : String
  pub locations : List String
  pub description : String
  pub url : String
  pub created_at : String
  pub min_experience : String
  pub equity_min : String
  pub employment_type : String

pub record YcCompany : Type 0 where
  pub id : ℕ
  pub name : String
  pub team_size : String

pub record Feed : Type 0 where
  pub companies : List YcCompany
  pub jobs : List YcJob

-- `_matches_role`
abbrev pub matches_role : (String → String) → YcJob → List String → Bool
matches_role lower job roles =
    let title = lower job.title in
    exists (λ r. contains (lower r) title || exists (λ w. contains w title) (words (lower r))) roles

abbrev locations_text : List String → String
locations_text [] = "Remote/India"
locations_text (l ∷ ls) = join ", " (l ∷ ls)

abbrev salary_text : YcJob → String
salary_text job =
    if str_eq job.equity_min ""
    then ""
    else String.◌++◌ "$"
        (String.◌++◌ job.min_experience (String.◌++◌ "-" (String.◌++◌ job.equity_min " equity")))

-- `_parse_job`, of a job and its company's name and size
abbrev pub parse_job : YcJob → String → String → ScrapedJob
parse_job job name team_size = record {
  company = name;
  title = job.title;
  location = locations_text job.locations;
  description = prefix 3000 job.description;
  apply_url = or_default job.url (String.◌++◌ "https://www.workatastartup.com/jobs/" job.id);
  posted_date = prefix 10 job.created_at;
  salary = salary_text job;
  company_type = "YC Startup";
  company_size = team_size;
  source = "YC Jobs";
  job_type = job.employment_type;
}

-- `companies_by_id`: of two companies with an id, the later one counts.
abbrev company_by_id : ℕ → Option YcCompany → List YcCompany → Option YcCompany
company_by_id id seen [] = seen
company_by_id id seen (c ∷ cs) = company_by_id id (if c.id == id then some c else seen) cs

abbrev parse_with : YcJob → Option YcCompany → ScrapedJob
parse_with job none = parse_job job "" ""
parse_with job (some c) = parse_job job c.name c.team_size

unfoldable pub matching_jobs :
    (String → String) → List YcCompany → List String → List YcJob → List ScrapedJob
matching_jobs lower companies roles [] = []
matching_jobs lower companies roles (job ∷ jobs) =
    let rest = matching_jobs lower companies roles jobs in
    if matches_role lower job roles
    then parse_with job (company_by_id job.company_id none companies) ∷ rest
    else rest

-- `scrape_yc_jobs`
unfoldable pub scrape_yc_jobs :
    (String → String) → Answer Feed → List String → List String → List ScrapedJob
scrape_yc_jobs lower broke roles locations = []
scrape_yc_jobs lower (answered status feed) roles locations =
    if status == 200 then matching_jobs lower feed.companies roles feed.jobs else []
