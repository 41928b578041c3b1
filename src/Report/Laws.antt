-- ===== src/Report/Laws.antt =====
-- What report.py's sheets hold.
use recruit_me.Prelude.{
  ◌+◌, ◌≤◌, ◌≡◌, refl, String, Bool, true, false, List, [], ◌∷◌, map, ltb, if◌then◌else◌, length,
  All, Bool-cases, inl, inr, arith, order_by-perm, IsOrdered, order_by-IsOrdered, str_eq, eq_iff,
  ◌||◌, ap, All-imp,
}
use mathlib.Core.List.{Perm}
use recruit_me.Report.{ReportJob, urgency_order, comes_before, sorted_jobs, best_from, count_where}
use recruit_me.Report.Sheets.{
  build_report, main_sheet, main_row, header_cell, main_columns, is_high, is_strong, is_fair,
  best_percentage,
}

comes_before_total : (a b : ReportJob) → comes_before a b ≡ false → comes_before b a ≡ true
comes_before_total a b h = ground arith

comes_before_trans :
    (a b c : ReportJob)
    → comes_before a b ≡ true
    → comes_before b c ≡ true
    → comes_before a c ≡ true
comes_before_trans a b c h k = ground arith

-- Each is above all that come after it.
abbrev pub IsSortedBy : (ReportJob → ReportJob → Type 0) → List ReportJob → Type 0
IsSortedBy R [] = Unit
IsSortedBy R (j ∷ js) = All (R j) js × IsSortedBy R js

-- One job may stand above another: an urgent one above any, a medium one under no other than an urgent
-- or a medium one, and under one of the same urgency only a match that is not better.
pub record MayStandAbove (a b : ReportJob) : Type 0 where
  pub high : str_eq b.urgency "HIGH" ≡ true → str_eq a.urgency "HIGH" ≡ true
  pub medium :
      str_eq b.urgency "MEDIUM" ≡ true
      → (str_eq a.urgency "HIGH" || str_eq a.urgency "MEDIUM") ≡ true
  pub better : a.urgency ≡ b.urgency → b.match_percentage ≤ a.match_percentage

high-ne-medium : (s : String) → str_eq s "HIGH" ≡ true → str_eq s "MEDIUM" ≡ false
high-ne-medium s h = let same : s ≡ "HIGH" = (eq_iff s "HIGH").0 h in rw same refl

comes_before-MayStandAbove : (a b : ReportJob) → comes_before a b ≡ true → MayStandAbove a b
comes_before-MayStandAbove a b h = record {
  high = λ high. ground arith;
  medium = λ medium. ground (arith, high-ne-medium b.urgency);
  better = λ same.
      let ranks : urgency_order a.urgency ≡ urgency_order b.urgency = ap urgency_order same in
      ground (arith, ranks);
}

IsSorted-of_ordered :
    (js : List ReportJob) → IsOrdered comes_before js → IsSortedBy MayStandAbove js
IsSorted-of_ordered [] h = tt
IsSorted-of_ordered (j ∷ js) (first, rest) =
    (All-imp _ _ js (comes_before-MayStandAbove j) first, IsSorted-of_ordered js rest)

-- The first sheet is its header and a row for each job, as often as it was given: first the urgent
-- ones, then the medium ones, then all others, and none of them under a worse match of its urgency.
pub build_report_sorted :
    (lower : String → String) (today : String) (jobs : List ReportJob)
    (watchlist tips : List String)
    → (js : List ReportJob) × ((build_report lower today jobs watchlist tips).todays_jobs
        ≡ map header_cell main_columns ∷ map main_row js)
      × Perm js jobs
      × IsSortedBy MayStandAbove js
unfolding build_report main_sheet
build_report_sorted lower today jobs watchlist tips = (
  sorted_jobs jobs,
  refl,
  order_by-perm comes_before jobs,
  IsSorted-of_ordered (sorted_jobs jobs)
      (order_by-IsOrdered comes_before comes_before_total comes_before_trans jobs),
)

abbrev pub is_low : ReportJob → Bool
is_low j = ltb j.match_percentage 40

-- The three ranges of the summary and the jobs under 40 % are all jobs, each in one of them.
pub summary_ranges :
    (jobs : List ReportJob)
    → count_where is_high jobs
        + (count_where is_strong jobs + (count_where is_fair jobs + count_where is_low jobs))
      ≡ length jobs
summary_ranges [] = omega arith
summary_ranges (j ∷ js) = let rest = summary_ranges js in ground (arith, rest)

better_of :
    (best j : ReportJob)
    → let k = if ltb best.match_percentage j.match_percentage then j else best in
      (best.match_percentage ≤ k.match_percentage) × (j.match_percentage ≤ k.match_percentage)
better_of best j = elim (Bool-cases (ltb best.match_percentage j.match_percentage)) [
  | inl t ↦ rw t (ground arith, omega arith)
  | inr t ↦ rw t (omega arith, ground arith)
]

best_from-ge :
    (best : ReportJob) (js : List ReportJob)
    → (best.match_percentage ≤ (best_from best js).match_percentage)
      × All (λ j. j.match_percentage ≤ (best_from best js).match_percentage) js
best_from-ge best [] = (omega arith, tt)
best_from-ge best (j ∷ js) =
    let k = if ltb best.match_percentage j.match_percentage then j else best in
    let (p, q) = better_of best j in
    let (h, a) = best_from-ge k js in (omega (arith, p, h), (omega (arith, q, h), a))

-- No job is better than the percentage that the summary and the subject give as the best.
pub best_percentage_best :
    (jobs : List ReportJob) → All (λ j. j.match_percentage ≤ best_percentage jobs) jobs
best_percentage_best [] = tt
best_percentage_best (j ∷ js) = best_from-ge j js
