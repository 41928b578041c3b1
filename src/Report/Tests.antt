-- ===== src/Report/Tests.antt =====
-- A report of three jobs.
use recruit_me.Prelude.{
  ℕ, ◌≡◌, refl, String, List, [], ◌∷◌, map, most_common, order_by, insert_by, count_one, count_all,
}
use mathlib.Core.List.{Perm}
use recruit_me.Report.{ReportJob}
use recruit_me.Report.Sheets.{
  build_report, main_row, header_cell, main_columns, all_missing, skill_counter,
}
use recruit_me.Report.Laws.{build_report_sorted, IsSortedBy, MayStandAbove}
use recruit_me.Report.Mail.{build_report_subject}

abbrev job : String → ℕ → String → List String → ReportJob
job company percentage urgency missing = record {
  company = company;
  title = "t";
  match_percentage = percentage;
  matched_profile = "p";
  urgency = urgency;
  apply_url = "u";
  location = "";
  salary = "";
  company_type = "";
  company_size = "";
  matched_skills = [];
  missing_skills = missing;
  why_good_fit = "";
  posted_date = "2026-01-02T00:00";
  source = "yc";
}

abbrev jobs : List ReportJob
jobs =
    job "a" 35 "LOW" ("sql" ∷ []) ∷ job "b" 85 "LOW" ("go" ∷ "sql" ∷ []) ∷ job "c" 70 "HIGH" [] ∷ []

abbrev same : String → String
same s = s

subject : build_report_subject "Jan 02" jobs ≡ "🎯 [Jan 02] 3 New Jobs | Top: b (85%) | 🔴 1 Urgent"
unfolding build_report_subject
subject = refl

most_missed : most_common 20 (skill_counter jobs) ≡ ("sql", 2) ∷ ("go", 1) ∷ []
unfolding most_common count_all count_one order_by insert_by all_missing
most_missed = refl

build_report_sorted_example :
    (js : List ReportJob) × ((build_report same "today" jobs [] []).todays_jobs
      ≡ map header_cell main_columns ∷ map main_row js)
    × Perm js jobs
    × IsSortedBy MayStandAbove js
build_report_sorted_example = build_report_sorted same "today" jobs [] []
