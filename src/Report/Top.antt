-- ===== src/Report/Top.antt =====
-- The best matches of email_templates.py.
use recruit_me.Prelude.{
  ◌≤◌, ◌≡◌, true, false, List, ◌++◌, All, All-imp, take, drop, arith, order_by, order_by-perm,
  order_by-IsOrdered, take_before_drop, take-drop,
}
use mathlib.Core.List.{Perm}
use recruit_me.Report.{ReportJob}
use recruit_me.Report.Mail.{by_percentage, top_five}

by_percentage_total : (a b : ReportJob) → by_percentage a b ≡ false → by_percentage b a ≡ true
by_percentage_total a b h = ground arith

by_percentage_trans :
    (a b c : ReportJob)
    → by_percentage a b ≡ true
    → by_percentage b c ≡ true
    → by_percentage a c ≡ true
by_percentage_trans a b c h k = ground arith

by_percentage-le :
    (a b : ReportJob) → by_percentage a b ≡ true → b.match_percentage ≤ a.match_percentage
by_percentage-le a b h = ground arith

-- The jobs in the mail's table and the others together are the jobs of the report, and none of the
-- others is a better match than one in the table.
pub top_five_best :
    (jobs : List ReportJob)
    → (others : List ReportJob) × Perm (top_five jobs ++ others) jobs
      × All (λ a. All (λ b. b.match_percentage ≤ a.match_percentage) others) (top_five jobs)
top_five_best jobs =
    let sorted = order_by by_percentage jobs in
    let others = drop 5 sorted in
    let ordered = order_by-IsOrdered by_percentage by_percentage_total by_percentage_trans jobs in
    (
      others,
      rw (take-drop 5 sorted) (order_by-perm by_percentage jobs),
      All-imp (λ a. All (λ b. by_percentage a b ≡ true) others)
          (λ a. All (λ b. b.match_percentage ≤ a.match_percentage) others) (take 5 sorted)
          (λ a h.
            All-imp (λ b. by_percentage a b ≡ true) (λ b. b.match_percentage ≤ a.match_percentage)
              others (by_percentage-le a) h)
          (take_before_drop by_percentage 5 sorted ordered),
    )
