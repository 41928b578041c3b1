-- ===== src/Report.antt =====
-- The report of a run: packages/engine/src/recruit_engine/report.py, as the cells of its sheets with
-- their fill and link, and the view that email_templates.py gives. Fonts, widths and borders are left
-- out. A job is the dictionary that report_service.py and persistence.py build, which has every key.
pub mod Laws
pub mod Sheets
pub mod Mail
pub mod Top
mod Tests
use recruit_me.Prelude.{
  text_of, ℕ, zero, suc, String, Bool, true, false, ◌&&◌, ◌||◌, List, [], ◌∷◌, ◌==◌, leb, ltb,
  if◌then◌else◌, str_eq, order_by, ◌/◌, ◌%◌,
}
use Prim.Native.String

pub record ReportJob : Type 0 where
  pub company : String
  pub title : String
  pub match_percentage : ℕ
  pub matched_profile : String
  pub urgency : String
  pub apply_url : String
  pub location : String
  pub salary : String
  pub company_type : String
  pub company_size : String
  pub matched_skills : List String
  pub missing_skills : List String
  pub why_good_fit : String
  pub posted_date : String
  pub source : String

-- `f"{pct}%"`
abbrev pub percent_text : ℕ → String
percent_text pct = String.◌++◌ (text_of pct) "%"

-- `urgency_order.get(urgency, 2)`
abbrev pub urgency_order : String → ℕ
urgency_order urgency =
    if str_eq urgency "HIGH" then 0 else if str_eq urgency "MEDIUM" then 1 else 2

-- The comparison of the sort keys `(urgency_order, -match_percentage)`.
abbrev pub comes_before : ReportJob → ReportJob → Bool
comes_before a b =
    if ltb (urgency_order a.urgency) (urgency_order b.urgency)
    then true
    else (urgency_order a.urgency == urgency_order b.urgency
        && leb b.match_percentage a.match_percentage)

abbrev pub sorted_jobs : List ReportJob → List ReportJob
sorted_jobs jobs = order_by comes_before jobs

abbrev best_from : ReportJob → List ReportJob → ReportJob
best_from best [] = best
best_from best (j ∷ js) =
    best_from (if ltb best.match_percentage j.match_percentage then j else best) js

-- `max(jobs, key=...)`, of a list that starts with `j`: the first of the best
abbrev pub best_job : ReportJob → List ReportJob → ReportJob
best_job j js = best_from j js

abbrev pub count_where : (ReportJob → Bool) → List ReportJob → ℕ
count_where p [] = 0
count_where p (j ∷ js) = let rest = count_where p js in if p j then suc rest else rest
