-- ===== src/Report/Mail.antt =====
-- packages/engine/src/recruit_engine/email_templates.py: the subject line, and the values that the
-- HTML body shows. `day` is the date as the template formats it.
use Prim.Native.String
use recruit_me.Prelude.{
  text_of, ℕ, String, Bool, List, [], ◌∷◌, Option, none, some, leb, if◌then◌else◌, order_by, take,
  map, length,
}
use recruit_me.Report.{ReportJob, percent_text, best_job, count_where}
use recruit_me.Report.Sheets.{is_high, is_urgent, best_percentage}

abbrev company_of_best : List ReportJob → String
company_of_best [] = ""
company_of_best (j ∷ js) = (best_job j js).company

abbrev infixed : List String → String
infixed [] = ""
infixed (s ∷ ss) = String.◌++◌ s (infixed ss)

-- `build_report_subject`
unfoldable pub build_report_subject : String → List ReportJob → String
build_report_subject day jobs = infixed (
    "🎯 ["
    ∷ day
    ∷ "] "
    ∷ text_of (length jobs)
    ∷ " New Jobs | Top: "
    ∷ company_of_best jobs
    ∷ " ("
    ∷ percent_text (best_percentage jobs)
    ∷ ") | 🔴 "
    ∷ text_of (count_where is_urgent jobs)
    ∷ " Urgent"
    ∷ [])

-- A row of the table of the best matches.
pub record TopRow : Type 0 where
  pub company : String
  pub title : String
  pub color : String
  pub percent : String
  pub location : String
  pub apply : String

abbrev color_of : ℕ → String
color_of pct = if leb 80 pct then "#2e7d32" else if leb 60 pct then "#f57c00" else "#757575"

abbrev pub top_row : ReportJob → TopRow
top_row j = record {
  company = j.company;
  title = j.title;
  color = color_of j.match_percentage;
  percent = percent_text j.match_percentage;
  location = j.location;
  apply = j.apply_url;
}

-- The values in the body of `build_report_email_html`; no callout without a job.
pub record EmailView : Type 0 where
  pub report_date : String
  pub total : ℕ
  pub high_match : ℕ
  pub urgent : ℕ
  pub best : ℕ
  pub callout : Option ReportJob
  pub rows : List TopRow

abbrev callout_of : List ReportJob → Option ReportJob
callout_of [] = none
callout_of (j ∷ js) = some (best_job j js)

abbrev pub by_percentage : ReportJob → ReportJob → Bool
by_percentage a b = leb b.match_percentage a.match_percentage

abbrev pub top_five : List ReportJob → List ReportJob
top_five jobs = take 5 (order_by by_percentage jobs)

unfoldable pub build_report_email : List ReportJob → String → EmailView
build_report_email jobs report_date = record {
  report_date = report_date;
  total = length jobs;
  high_match = count_where is_high jobs;
  urgent = count_where is_urgent jobs;
  best = best_percentage jobs;
  callout = callout_of jobs;
  rows = map top_row (top_five jobs);
}
