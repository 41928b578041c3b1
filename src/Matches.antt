-- ===== src/Matches.antt =====
-- The matches of a user: backend/src/recruit_api/routers/matches.py and the query of
-- services/report_service.py. `ilike` is PostgreSQL's `ILIKE`.
pub mod Laws
pub mod Pages
mod Tests
use Prim.Native.String
use recruit_me.Prelude.{
  ℕ, ◌-◌, ◌*◌, ◌+◌, String, Bool, true, false, ◌&&◌, ◌||◌, not, Option, none, some, List, [], ◌∷◌,
  ◌==◌, leb, ltb, if◌then◌else◌, find, select, update_where, length, take, drop, order_by, str_eq,
}
use recruit_me.Errors.{not_found_error, Exec, pure, gets, or_raise, modify, ◌>>=◌, ◌>>◌}
use recruit_me.Runs.State.{JobMatch, MatchStatus, is_ref}

-- A row of `job_matches`, with the columns that every table has.
pub record MatchRow : Type 0 where
  pub id : ℕ
  pub created_at : ℕ
  pub row : JobMatch

abbrev pub status_name : MatchStatus → String
status_name MatchStatus.new = "new"
status_name MatchStatus.saved = "saved"
status_name MatchStatus.applied = "applied"
status_name MatchStatus.dismissed = "dismissed"

-- The query's filters.
pub record MatchQuery : Type 0 where
  pub run : Option ℕ
  pub profile : Option ℕ
  pub match_status : Option MatchStatus
  pub min_match : ℕ
  pub q : Option String

abbrev is_id : Option ℕ → Option ℕ → Bool
is_id none n = true
is_id (some m) n = is_ref n m

abbrev has_status : Option MatchStatus → MatchStatus → Bool
has_status none s = true
has_status (some t) s = str_eq (status_name s) (status_name t)

abbrev pub is_like : (String → String → Bool) → Option String → JobMatch → Bool
is_like ilike none m = true
is_like ilike (some q) m =
    let like = String.◌++◌ "%" (String.◌++◌ q "%") in
    if str_eq q "" then true else ilike m.company like || ilike m.title like

-- The list `where` of both functions.
abbrev pub is_wanted : (String → String → Bool) → ℕ → MatchQuery → MatchRow → Bool
is_wanted ilike user_id query m =
    m.row.user_id == user_id
    && (leb query.min_match m.row.match_percentage
        && (is_id query.run m.row.run_id
            && (is_id query.profile m.row.job_profile_id
                && (has_status query.match_status m.row.status && is_like ilike query.q m.row))))

-- `ORDER BY match_percentage DESC, created_at DESC`
abbrev pub by_match : MatchRow → MatchRow → Bool
by_match a b =
    if ltb b.row.match_percentage a.row.match_percentage
    then true
    else a.row.match_percentage == b.row.match_percentage && leb b.created_at a.created_at

pub record Page : Type 0 where
  pub items : List MatchRow
  pub total : ℕ
  pub page : ℕ
  pub page_size : ℕ

-- `list_matches`; `sort` is the order in which the database takes the rows for this query.
unfoldable pub list_matches :
    (List MatchRow → List MatchRow)
    → (String → String → Bool)
    → ℕ
    → MatchQuery
    → ℕ
    → ℕ
    → List MatchRow
    → Page
list_matches sort ilike user_id query page page_size rows =
    let wanted = select (is_wanted ilike user_id query) rows in
    record {
      items = take page_size (drop ((page - 1) * page_size) (sort wanted));
      total = length wanted;
      page = page;
      page_size = page_size;
    }

-- `ORDER BY match_percentage DESC`
abbrev pub by_percentage : MatchRow → MatchRow → Bool
by_percentage a b = leb b.row.match_percentage a.row.match_percentage

-- The rows of `build_matches_xlsx`.
unfoldable pub exported : (String → String → Bool) → ℕ → MatchQuery → List MatchRow → List MatchRow
exported ilike user_id query rows =
    order_by by_percentage (select (is_wanted ilike user_id query) rows)

abbrev pub owned_match : ℕ → Option MatchRow → Option MatchRow
owned_match user_id none = none
owned_match user_id (some m) = if m.row.user_id == user_id then some m else none

abbrev is_applied : MatchStatus → Bool
is_applied MatchStatus.applied = true
is_applied _ = false

abbrev pub patched : ℕ → MatchStatus → MatchRow → MatchRow
patched now status m = record m {
  row = record m.row {
    status = status;
    applied_at = if is_applied status then some now else m.row.applied_at;
  };
}

-- `patch_match`
unfoldable pub patch_match : ℕ → ℕ → ℕ → MatchStatus → Exec (List MatchRow) MatchRow
patch_match now user_id match_id status = do
  found ← gets (λ rows. find (λ m. m.id == match_id) rows)
  m ← or_raise (owned_match user_id found) (not_found_error "match not found")
  modify (λ rows. update_where (λ x. x.id == m.id) (patched now status) rows)
  pure (patched now status m)
