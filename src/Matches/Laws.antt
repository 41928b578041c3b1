-- ===== src/Matches/Laws.antt =====
-- The matches of a user: routers/matches.py and the export of services/report_service.py.
use recruit_me.Prelude.{
  ℕ, ◌≡◌, refl, Bool, false, Option, none, some, List, ◌==◌, find, select, Option-cases, inl, inr,
  arith, not, IsKeyed, select-update_where, key_of_found,
}
use recruit_me.Errors.{◌>>=◌}
use recruit_me.Runs.State.{MatchStatus}
use recruit_me.Matches.{MatchRow, owned_match, patched, patch_match}

abbrev pub of_others : ℕ → MatchRow → Bool
of_others user_id m = not (m.row.user_id == user_id)

owned_match-eq :
    (user_id : ℕ) (o : Option MatchRow) (m : MatchRow)
    → owned_match user_id o ≡ some m
    → (o ≡ some m) × (of_others user_id m ≡ false)
owned_match-eq user_id none m e = cc
owned_match-eq user_id (some x) m e = ground arith

-- Whatever a user asks of a match, and whichever match it is, the rows of all other users stay as
-- they are and in their order, if the ids are a key.
pub patch_match_isolated :
    (now user_id match_id : ℕ) (status : MatchStatus) (rows : List MatchRow)
    → IsKeyed (λ m. m.id) rows
    → select (of_others user_id) (patch_match now user_id match_id status rows).1
      ≡ select (of_others user_id) rows
unfolding patch_match ◌>>=◌
patch_match_isolated now user_id match_id status rows keyed =
    elim (Option-cases (owned_match user_id (find (λ m. m.id == match_id) rows))) [
      | inl absent ↦ rw absent refl
      | inr (m, e) ↦
          let (found, out) = owned_match-eq user_id (find (λ m. m.id == match_id) rows) m e in
          let same : m.id ≡ match_id = key_of_found (λ x. x.id) match_id rows m found in
          rw e (
            rw same (
              select-update_where (λ m. m.id) (of_others user_id) match_id (patched now status) rows
                m (λ x. refl) keyed found out))
    ]
