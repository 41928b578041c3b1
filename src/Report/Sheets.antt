-- ===== src/Report/Sheets.antt =====
-- The four sheets of report.py. `lower` is `str.lower`, `today` the date of the report.
use Prim.Native.String
use recruit_me.Prelude.{
  text_of, ℕ, suc, ◌-◌, String, Bool, ◌&&◌, Option, none, some, List, [], ◌∷◌, ◌++◌, leb, ltb,
  if◌then◌else◌, str_eq, prefix, contains, join, map, take, length, select, exists, min, Tally,
  count_all, most_common,
}
use recruit_me.Report.{ReportJob, percent_text, sorted_jobs, best_job, count_where}

pub record Cell : Type 0 where
  pub value : String
  pub fill : Option String
  pub link : Option String

abbrev plain : String → Cell
plain value = record { value = value; fill = none; link = none }

-- `_get_fill`
abbrev pub get_fill : ℕ → String
get_fill pct =
    if leb 80 pct
    then "C6EFCE"
    else if leb 60 pct
    then "FFEB9C"
    else if leb 40 pct
    then "FFDAB9"
    else "FFFFFF"

-- `_header_style`
abbrev pub header_cell : String → Cell
header_cell name = record { value = name; fill = some "1F3864"; link = none }

-- `_urgency_icon`
abbrev pub urgency_icon : String → String
urgency_icon urgency =
    if str_eq urgency "HIGH"
    then "🔴 Apply Today"
    else if str_eq urgency "MEDIUM"
    then "🟡 This Week"
    else if str_eq urgency "LOW"
    then "🟢 This Month"
    else "⚪"

-- `MAIN_COLUMNS`, without the variation selectors that two of its symbols have
abbrev pub main_columns : List String
main_columns =
    "🏢 Company" ∷ "💼 Role" ∷ "🎯 Match %" ∷ "📄 Profile Used" ∷ "🌟 Urgency" ∷ "🔗 Apply Link"
    ∷ "📍 Location" ∷ "💰 Salary/Stipend" ∷ "🏗 Company Type" ∷ "🏢 Size" ∷ "✅ Matched Skills"
    ∷ "❌ Missing Skills" ∷ "💬 Why Fit" ∷ "📅 Posted Date" ∷ "📌 Source" ∷ "✍ Applied?" ∷ []

-- `cell.hyperlink = val`, if there is a value
abbrev link_of : String → Option String
link_of url = if str_eq url "" then none else some url

abbrev pub main_row : ReportJob → List Cell
main_row job =
    let fill = some (get_fill job.match_percentage) in
    let cell : String → Cell = λ v. record { value = v; fill = fill; link = none } in
    cell job.company
    ∷ cell job.title
    ∷ cell (percent_text job.match_percentage)
    ∷ cell job.matched_profile
    ∷ cell (urgency_icon job.urgency)
    ∷ record { value = job.apply_url; fill = fill; link = link_of job.apply_url }
    ∷ cell job.location
    ∷ cell job.salary
    ∷ cell job.company_type
    ∷ cell job.company_size
    ∷ cell (join ", " (take 8 job.matched_skills))
    ∷ cell (join ", " (take 8 job.missing_skills))
    ∷ cell job.why_good_fit
    ∷ cell (prefix 10 job.posted_date)
    ∷ cell job.source
    ∷ cell ""
    ∷ []

-- `_write_main_sheet`
unfoldable pub main_sheet : List ReportJob → List (List Cell)
main_sheet jobs = map header_cell main_columns ∷ map main_row jobs

-- `all_missing`
unfoldable pub all_missing : List ReportJob → List String
all_missing [] = []
all_missing (j ∷ js) = j.missing_skills ++ all_missing js

abbrev resources : List (String × String)
resources =
    ("docker", "docs.docker.com / FreeCodeCamp")
    ∷ ("kubernetes", "kubernetes.io/docs")
    ∷ ("aws", "AWS Free Tier + CloudQuest")
    ∷ ("react", "react.dev (official)")
    ∷ ("typescript", "typescriptlang.org")
    ∷ ("system design", "Gaurav Sen YouTube")
    ∷ ("sql", "Mode Analytics SQL Tutorial")
    ∷ ("machine learning", "fast.ai / Coursera ML")
    ∷ ("deep learning", "fast.ai Part 1")
    ∷ ("golang", "go.dev/tour")
    ∷ ("rust", "rustlings on GitHub")
    ∷ []

abbrev resource_in : List (String × String) → String → String
resource_in [] skill = "Search Coursera / YouTube"
resource_in ((k, v) ∷ rest) skill = if contains k skill then v else resource_in rest skill

abbrev skill_row : (String → String) → String × ℕ → List Cell
skill_row lower (skill, count) =
    plain skill ∷ plain (text_of count) ∷ plain (resource_in resources (lower skill)) ∷ []

abbrev pub skill_counter : List ReportJob → Tally
skill_counter jobs = count_all (all_missing jobs) []

-- `_write_skills_gap_sheet`
unfoldable pub skills_gap_sheet : (String → String) → List ReportJob → List (List Cell)
skills_gap_sheet lower jobs =
    map header_cell ("Missing Skill" ∷ "Jobs Affected" ∷ "Suggested Resource" ∷ [])
    ∷ map (skill_row lower) (most_common 20 (skill_counter jobs))

-- The last row of the sheet that its chart shows, if it has one.
abbrev pub chart_max_row : List ReportJob → Option ℕ
chart_max_row jobs = elim (skill_counter jobs) [
  | [] ↦ none
  | entry ∷ rest ↦ some (min (suc (suc (length rest))) 16)
]

abbrev pub is_watched : (String → String) → List String → ReportJob → Bool
is_watched lower watchlist j = exists (λ w. str_eq (lower w) (lower j.company)) watchlist

abbrev watchlist_row : ReportJob → List Cell
watchlist_row job =
    plain job.company
    ∷ plain job.title
    ∷ plain (percent_text job.match_percentage)
    ∷ record { value = job.apply_url; fill = none; link = link_of job.apply_url }
    ∷ plain (prefix 10 job.posted_date)
    ∷ []

abbrev watchlist_rows : List ReportJob → List (List Cell)
watchlist_rows [] = (plain "No jobs found from your watchlist companies today." ∷ []) ∷ []
watchlist_rows (j ∷ js) = map watchlist_row (j ∷ js)

-- `_write_watchlist_sheet`
unfoldable pub watchlist_sheet : (String → String) → List String → List ReportJob → List (List Cell)
watchlist_sheet lower watchlist jobs =
    map header_cell ("🏢 Company" ∷ "💼 Role" ∷ "🎯 Match %" ∷ "🔗 Apply" ∷ "📅 Posted" ∷ [])
    ∷ watchlist_rows (select (is_watched lower watchlist) jobs)

abbrev pub is_high : ReportJob → Bool
is_high j = leb 80 j.match_percentage

abbrev pub is_strong : ReportJob → Bool
is_strong j = leb 60 j.match_percentage && ltb j.match_percentage 80

abbrev pub is_fair : ReportJob → Bool
is_fair j = leb 40 j.match_percentage && ltb j.match_percentage 60

abbrev pub is_urgent : ReportJob → Bool
is_urgent j = str_eq j.urgency "HIGH"

abbrev top_of : Tally → String
top_of [] = "-"
top_of ((s, n) ∷ rest) = s

abbrev best_title : List ReportJob → String
best_title [] = "-"
best_title (j ∷ js) = (best_job j js).title

abbrev best_company : List ReportJob → String
best_company [] = "-"
best_company (j ∷ js) = (best_job j js).company

abbrev pub best_percentage : List ReportJob → ℕ
best_percentage [] = 0
best_percentage (j ∷ js) = (best_job j js).match_percentage

-- The list `stats`, each value as `str` writes it.
unfoldable pub summary_stats : List ReportJob → List (String × String)
summary_stats jobs =
    ("Total jobs found today", text_of (length jobs))
    ∷ ("80–100% match (🟢 Apply Now)", text_of (count_where is_high jobs))
    ∷ ("60–79% match (🟡 Strong)", text_of (count_where is_strong jobs))
    ∷ ("40–59% match (🟠 Consider)", text_of (count_where is_fair jobs))
    ∷ ("Urgent (Apply Today 🔴)", text_of (count_where is_urgent jobs))
    ∷ ("Top source", top_of (most_common 1 (count_all (map (λ j. j.source) jobs) [])))
    ∷ ("Best match job", best_title jobs)
    ∷ ("Best match company", best_company jobs)
    ∷ ("Best match %", percent_text (best_percentage jobs))
    ∷ []

abbrev tip_rows : ℕ → List String → List (ℕ × List Cell)
tip_rows i [] = []
tip_rows i (tip ∷ tips) =
    (i, plain (String.◌++◌ "💡 Tip " (text_of (i - 14))) ∷ plain tip ∷ []) ∷ tip_rows (suc i) tips

abbrev stat_rows : ℕ → List (String × String) → List (ℕ × List Cell)
stat_rows i [] = []
stat_rows i ((label, value) ∷ stats) = (i, plain label ∷ plain value ∷ []) ∷ stat_rows (suc i) stats

abbrev tips_part : List String → List (ℕ × List Cell)
tips_part [] = []
tips_part (tip ∷ tips) = (14, plain "🧠 RESUME IMPROVEMENT TIPS" ∷ []) ∷ tip_rows 15 (tip ∷ tips)

-- `_write_summary_sheet`: the rows that are written, with their numbers
unfoldable pub summary_sheet : String → List ReportJob → List String → List (ℕ × List Cell)
summary_sheet today jobs tips =
    (1, plain "📊 DAILY REPORT SUMMARY" ∷ [])
    ∷ (2, plain (String.◌++◌ "Generated: " today) ∷ [])
    ∷ (stat_rows 4 (summary_stats jobs) ++ tips_part tips)

pub record Workbook : Type 0 where
  pub todays_jobs : List (List Cell)
  pub skills_gap : List (List Cell)
  pub watchlist : List (List Cell)
  pub summary : List (ℕ × List Cell)

-- `build_report`
unfoldable pub build_report :
    (String → String) → String → List ReportJob → List String → List String → Workbook
build_report lower today jobs watchlist tips = record {
  todays_jobs = main_sheet (sorted_jobs jobs);
  skills_gap = skills_gap_sheet lower jobs;
  watchlist = watchlist_sheet lower watchlist jobs;
  summary = summary_sheet today jobs tips;
}
