-- ===== src/Dashboard/Laws.antt =====
-- The dashboard of a user: dashboard_service.py.
use native.Mathlib.Nat.{div-le_of_le-mul, div-add-mod'}
use recruit_me.Prelude.{
  ℕ, zero, suc, ◌+◌, ◌*◌, ◌/◌, ◌%◌, ◌≤◌, ◌<◌, ◌≡◌, refl, ap, Bool, true, ◌&&◌, List, [], ◌∷◌, ◌==◌,
  leb, select, length, All, select-select, arith, ltb, Bool-cases, inl, inr,
}
use recruit_me.Runs.State.{Run, MatchStatus}
use recruit_me.Matches.{MatchRow}
use recruit_me.Dashboard.{
  day_of, before_now, series_from, of_user, since, is_status, rounded, sum_of, mean_of, summary,
}

own_and : (b c : Bool) → (b && c) ≡ true → b ≡ true
own_and b c h = ground arith

-- A user's summary is that of the tables without the runs and matches of all other users.
pub summary_isolated :
    (now user_id : ℕ) (runs : List Run) (matches : List MatchRow)
    → summary now user_id
        (select (λ r. r.user_id == user_id) runs)
        (select (of_user user_id) matches)
      ≡ summary now user_id runs matches
unfolding summary
summary_isolated now user_id runs matches =
    let mine = of_user user_id in
    let of_run = λ (r : Run). r.user_id == user_id in
    let matches_kept = λ (extra : MatchRow → Bool).
      select-select (λ m. mine m && extra m) mine matches (λ m h. own_and (mine m) (extra m) h) in
    let runs_kept = λ (extra : Run → Bool).
      select-select (λ r. of_run r && extra r) of_run runs
        (λ r h. own_and (of_run r) (extra r) h) in
    rw
      (
        runs_kept (λ r. leb (before_now 30 now) r.created_at),
        select-select of_run of_run runs (λ r h. h),
        matches_kept (λ m. true),
        matches_kept (is_status MatchStatus.new),
        matches_kept (is_status MatchStatus.applied),
        matches_kept (since (before_now 14 now)),
        matches_kept (since (before_now 30 now)),
      )
      refl

-- An average of numbers that are at most 100 is rounded to one.
rounded-le : (total n : ℕ) → 0 < n → total ≤ n * 100 → rounded total n ≤ 100
rounded-le total n pos h =
    let q-le : total / n ≤ 100 = div-le_of_le-mul n h in
    let parts : total / n * n + total % n ≡ total = div-add-mod' total n in
    elim (Bool-cases (ltb (2 * (total % n)) n)) [
      | inl t ↦ rw t q-le
      | inr t ↦
          let q-lt : total / n < 100 = below (total / n) (total % n) q-le parts (ground arith) in
          ground arith
    ]
  where
    below : (q r : ℕ) → q ≤ 100 → q * n + r ≡ total → n ≤ 2 * r → q < 100
    below q r le e big = elim (Bool-cases (q == 100)) [
      | inl u ↦
          let same : q ≡ 100 = ground arith in
          let e' : 100 * n + r ≡ total = rw same at e in absurd (omega (arith, e', h, big, pos))
      | inr u ↦ ground arith
    ]

sum_of-le :
    (ms : List MatchRow) → All (λ m. m.row.match_percentage ≤ 100) ms → sum_of ms ≤ length ms * 100
sum_of-le [] a = omega arith
sum_of-le (m ∷ ms) (h, a) = omega (arith, h, sum_of-le ms a)

mean_of-le : (ms : List MatchRow) → All (λ m. m.row.match_percentage ≤ 100) ms → mean_of ms ≤ 100
mean_of-le [] a = omega arith
mean_of-le (m ∷ ms) a =
    rounded-le (sum_of (m ∷ ms)) (length (m ∷ ms)) (omega arith) (sum_of-le (m ∷ ms) a)

All-select :
    (P : MatchRow → Type 0) (p : MatchRow → Bool) (ms : List MatchRow)
    → All P ms
    → All P (select p ms)
unfolding select
All-select P p [] a = tt
All-select P p (m ∷ ms) (h, a) = elim (Bool-cases (p m)) [
  | inl t ↦ rw t (h, All-select P p ms a)
  | inr t ↦ rw t (All-select P p ms a)
]

-- `n` points, of the days that end with today.
series_from-bounds :
    (n now : ℕ) (recent : List MatchRow)
    → All (λ m. m.row.match_percentage ≤ 100) recent
    → (length (series_from n recent now) ≡ n) × All (λ p. p.pct ≤ 100) (series_from n recent now)
unfolding series_from
series_from-bounds zero now recent a = (refl, tt)
series_from-bounds (suc n) now recent a =
    let (len, rest) = series_from-bounds n now recent a in
    (
      ap suc len,
      (
        mean_of-le _ (
            All-select (λ m. m.row.match_percentage ≤ 100)
              (λ m. day_of m.created_at == day_of (before_now n now)) recent a),
        rest,
      ),
    )

-- The series has a point for each of 14 days, with or without matches, and no average over 100 as
-- long as no match has more.
pub summary_series :
    (now user_id : ℕ) (runs : List Run) (matches : List MatchRow)
    → All (λ m. m.row.match_percentage ≤ 100) matches
    → let series = (summary now user_id runs matches).match_rate_series in
      (length series ≡ 14) × All (λ p. p.pct ≤ 100) series
unfolding summary
summary_series now user_id runs matches a =
    series_from-bounds 14 now _ (All-select (λ m. m.row.match_percentage ≤ 100) _ matches a)
