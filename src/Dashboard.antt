-- ===== src/Dashboard.antt =====
-- backend/src/recruit_api/services/dashboard_service.py. Times are in seconds since the epoch, days
-- are those of UTC, counted from the epoch.
pub mod Laws
mod Tests
use recruit_me.Prelude.{
  ℕ, zero, suc, ◌+◌, ◌-◌, ◌*◌, ◌/◌, ◌%◌, String, Bool, true, false, ◌&&◌, not, Option, none, some,
  List, [], ◌∷◌, ◌++◌, ◌==◌, leb, ltb, if◌then◌else◌, select, length, map, str_eq, order_by, Tally,
  count_all, most_common,
}
use recruit_me.Runs.State.{Run, RunStatus, MatchStatus}
use recruit_me.Matches.{MatchRow, status_name}

abbrev pub day_seconds : ℕ
day_seconds = 86400

-- `date_trunc('day', ...)`
abbrev pub day_of : ℕ → ℕ
day_of at = at / day_seconds

-- The time `days` before now.
abbrev pub before_now : ℕ → ℕ → ℕ
before_now days now = now - days * day_seconds

abbrev pub sum_of : List MatchRow → ℕ
sum_of [] = 0
sum_of (m ∷ ms) = m.row.match_percentage + sum_of ms

-- `round(float(avg))`: the nearest number, and the even one of two that are as near.
abbrev pub rounded : ℕ → ℕ → ℕ
rounded total n =
    let q = total / n in
    let twice = 2 * (total % n) in
    if ltb twice n then q else if ltb n twice then suc q else if q % 2 == 0 then q else suc q

abbrev pub mean_of : List MatchRow → ℕ
mean_of [] = 0
mean_of (m ∷ ms) = rounded (sum_of (m ∷ ms)) (length (m ∷ ms))

-- One point of the series.
pub record Point : Type 0 where
  pub date : ℕ
  pub pct : ℕ
  pub count : ℕ

-- The row of the query for one day, or `(0, 0)`.
abbrev pub point_of : List MatchRow → ℕ → Point
point_of recent day =
    let here = select (λ m. day_of m.created_at == day) recent in
    record { date = day; pct = mean_of here; count = length here }

-- `range(13, -1, -1)` and on
unfoldable pub series_from : ℕ → List MatchRow → ℕ → List Point
series_from zero recent now = []
series_from (suc i) recent now =
    point_of recent (day_of (before_now i now)) ∷ series_from i recent now

abbrev pub of_user : ℕ → MatchRow → Bool
of_user user_id m = m.row.user_id == user_id

abbrev pub since : ℕ → MatchRow → Bool
since at m = leb at m.created_at

abbrev pub match_count : ℕ → (MatchRow → Bool) → List MatchRow → ℕ
match_count user_id extra matches = length (select (λ m. of_user user_id m && extra m) matches)

abbrev pub is_status : MatchStatus → MatchRow → Bool
is_status s m = str_eq (status_name m.row.status) (status_name s)

-- `s for s in arr if s`
abbrev pub skills_missing : List MatchRow → List String
skills_missing [] = []
skills_missing (m ∷ ms) = select (λ s. not (str_eq s "")) m.row.missing_skills ++ skills_missing ms

abbrev newest_first : Run → Run → Bool
newest_first a b = leb b.created_at a.created_at

abbrev first : {A : Type 0} → List A → Option A
first [] = none
first (x ∷ xs) = some x

abbrev last_seen : Option Run → Option (RunStatus × ℕ)
last_seen none = none
last_seen (some r) = some (r.status, r.created_at)

pub record Summary : Type 0 where
  pub runs_30d : ℕ
  pub last_run : Option (RunStatus × ℕ)
  pub matches_total : ℕ
  pub matches_new : ℕ
  pub applied_count : ℕ
  pub match_rate_series : List Point
  pub top_missing_skills : Tally

abbrev pub recent_matches : ℕ → ℕ → List MatchRow → ℕ → List MatchRow
recent_matches days user_id matches now =
    select (λ m. of_user user_id m && since (before_now days now) m) matches

-- `DashboardService.summary`
unfoldable pub summary : ℕ → ℕ → List Run → List MatchRow → Summary
summary now user_id runs matches = record {
  runs_30d =
      length (select (λ r. r.user_id == user_id && leb (before_now 30 now) r.created_at) runs);
  last_run = last_seen (first (order_by newest_first (select (λ r. r.user_id == user_id) runs)));
  matches_total = match_count user_id (λ m. true) matches;
  matches_new = match_count user_id (is_status MatchStatus.new) matches;
  applied_count = match_count user_id (is_status MatchStatus.applied) matches;
  match_rate_series = series_from 14 (recent_matches 14 user_id matches now) now;
  top_missing_skills =
      most_common 8 (count_all (skills_missing (recent_matches 30 user_id matches now)) []);
}
