-- ===== src/Scrapers/Adapters.antt =====
-- scrapers/adapters.py. A timeout or an exception of the thread is nothing.
use recruit_me.Prelude.{String, Option, none, some, List, map, if◌then◌else◌, str_eq}
use recruit_me.Engine.Types.{JobPosting}
use recruit_me.Engine.Hunt.{Scrape, no_source, found, broke}
use recruit_me.Scrapers.{ScrapedJob, or_default}

-- `str(value) or None`
abbrev or_none : String → Option String
or_none s = if str_eq s "" then none else some s

-- `_norm`
unfoldable pub norm : ScrapedJob → String → JobPosting
norm d fallback_source = record {
  source = or_default d.source fallback_source;
  company = d.company;
  title = d.title;
  location = d.location;
  description = d.description;
  url = d.apply_url;
  posted_date = or_none d.posted_date;
  salary = or_none d.salary;
  external_hash = "";
}

-- The result of one adapter, as the engine's loop sees it; `failure` is the text of its exception.
abbrev fetched : String → String → Option (List ScrapedJob) → Scrape
fetched fallback_source failure none = broke failure
fetched fallback_source failure (some jobs) = found (map (λ d. norm d fallback_source) jobs)

-- `SCRAPERS`, of what the four scrapers came to.
unfoldable pub scrapers :
    String
    → Option (List ScrapedJob)
    → Option (List ScrapedJob)
    → Option (List ScrapedJob)
    → Option (List ScrapedJob)
    → String
    → Scrape
scrapers failure jobspy wellfound yc hackernews name =
    if str_eq name "jobspy"
    then fetched "LinkedIn/Indeed/Glassdoor" failure jobspy
    else if str_eq name "wellfound"
    then fetched "Wellfound" failure wellfound
    else if str_eq name "yc"
    then fetched "YC Jobs" failure yc
    else if str_eq name "hackernews"
    then fetched "HackerNews" failure hackernews
    else no_source
