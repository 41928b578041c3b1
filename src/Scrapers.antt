-- ===== src/Scrapers.antt =====
-- The scrapers of packages/engine/src/recruit_engine/scrapers. What a site answers is a parameter;
-- `lower` is `str.lower`. A key that an answer lacks has the default that the code gives it.
pub mod Wellfound
pub mod Jobspy
pub mod HackerNews
pub mod Yc
pub mod Serpapi
pub mod Adapters
pub mod Laws
pub mod Pages
mod Tests
use recruit_me.Prelude.{ℕ, String, if◌then◌else◌, str_eq}

-- The standard dictionary of a job.
pub record ScrapedJob : Type 0 where
  pub company : String
  pub title : String
  pub location : String
  pub description : String
  pub apply_url : String
  pub posted_date : String
  pub salary : String
  pub company_type : String
  pub company_size : String
  pub source : String
  pub job_type : String

-- `value or default`
abbrev pub or_default : String → String → String
or_default value default = if str_eq value "" then default else value

-- An answer of a site: the status and the body, or an exception.
pub data Answer (A : Type 0) : Type 0 where
  answered : ℕ → A → Answer A
  broke : Answer A
