-- ===== src/Scrapers/Jobspy.antt =====
-- scrapers/jobspy_scraper.py. The package jobspy is the parameter `scrape_jobs`, which answers the rows
-- of its table, or nothing for an exception.
use Prim.Native.String
use recruit_me.Prelude.{
  String, Bool, Option, none, some, List, [], ◌∷◌, ◌++◌, if◌then◌else◌, map, join, prefix, str_eq,
  contains, exists, select,
}
use recruit_me.Scrapers.{ScrapedJob}

-- A row, each column as `str(... or "")` gives it.
pub record Row : Type 0 where
  pub company : String
  pub title : String
  pub location : String
  pub description : String
  pub job_url : String
  pub date_posted : String
  pub min_amount : String
  pub max_amount : String
  pub company_num_employees : String
  pub job_type : String

-- `LOCATION_MAP.get(key, key)`
abbrev pub search_location : String → String
search_location key =
    if str_eq key "Bengaluru"
    then "Bangalore, Karnataka, India"
    else if str_eq key "Remote"
    then "India"
    else if str_eq key "Hyderabad"
    then "Hyderabad, Telangana, India"
    else if str_eq key "Mumbai"
    then "Mumbai, Maharashtra, India"
    else if str_eq key "Pune"
    then "Pune, Maharashtra, India"
    else key

-- `_normalize_job`
abbrev pub normalize_job : Row → String → ScrapedJob
normalize_job row source = record {
  company = row.company;
  title = row.title;
  location = row.location;
  description = prefix 3000 row.description;
  apply_url = row.job_url;
  posted_date = row.date_posted;
  salary = String.◌++◌ row.min_amount (String.◌++◌ " - " row.max_amount);
  company_type = "MNC/Product";
  company_size = row.company_num_employees;
  source = source;
  job_type = row.job_type;
}

abbrev india_hints : List String
india_hints =
    "india" ∷ "bengaluru" ∷ "bangalore" ∷ "hyderabad" ∷ "mumbai" ∷ "pune" ∷ "delhi" ∷ "chennai" ∷ []

-- `_country_for`
abbrev pub country_for : (String → String) → List String → String
country_for lower locations =
    if exists (λ h. contains h (lower (join " " locations))) india_hints then "India" else "usa"

-- `site.capitalize()` of the three sites
abbrev capitalized : String → String
capitalized site =
    if str_eq site "linkedin"
    then "Linkedin"
    else if str_eq site "indeed"
    then "Indeed"
    else "Glassdoor"

abbrev site_in : List String → String → String → String
site_in [] url default = default
site_in (site ∷ sites) url default =
    if contains site url then capitalized site else site_in sites url default

abbrev job_of : List String → Row → ScrapedJob
job_of sites row = normalize_job row (site_in sites row.job_url (join "," sites))

abbrev jobs_found : List String → Option (List Row) → List ScrapedJob
jobs_found sites none = []
jobs_found sites (some rows) = map (job_of sites) rows

-- The last loop, with the links that were seen.
unfoldable pub unique_jobs : List String → List ScrapedJob → List ScrapedJob
unique_jobs seen [] = []
unique_jobs seen (j ∷ js) =
    let skipped = unique_jobs seen js in
    let kept = j ∷ unique_jobs (j.apply_url ∷ seen) js in
    if exists (λ u. str_eq u j.apply_url) seen then skipped else kept

-- The sites that `enabled` does not switch off.
abbrev pub enabled_sites : (String → Bool) → List String
enabled_sites enabled = select enabled ("linkedin" ∷ "indeed" ∷ "glassdoor" ∷ [])

module _ (lower : String → String)
    (scrape_jobs : List String → String → String → String → Option (List Row)) where
  abbrev search_places : List String → String → String → List String → List ScrapedJob
  search_places sites country role [] = []
  search_places sites country role (loc ∷ locs) =
      jobs_found sites (scrape_jobs sites role (search_location loc) country)
      ++ search_places sites country role locs

  unfoldable pub search_roles : List String → String → List String → List String → List ScrapedJob
  search_roles sites country [] locations = []
  search_roles sites country (role ∷ roles) locations =
      search_places sites country role locations ++ search_roles sites country roles locations

  abbrev pub scrape_sites : List String → List String → List String → List ScrapedJob
  scrape_sites [] roles locations = []
  scrape_sites (s ∷ sites) roles locations =
      unique_jobs [] (search_roles (s ∷ sites) (country_for lower locations) roles locations)

  -- `scrape_jobspy`, of the package that is installed
  unfoldable pub scrape_jobspy : (String → Bool) → List String → List String → List ScrapedJob
  scrape_jobspy enabled roles locations = scrape_sites (enabled_sites enabled) roles locations
