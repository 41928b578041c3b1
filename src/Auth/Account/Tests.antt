-- ===== src/Auth/Account/Tests.antt =====
-- Runs of the account service on small tables, and its theorems there.
use recruit_me.Prelude.{ℕ, ◌≡◌, refl, true, some, [], ◌∷◌, find, update_where, str_eq, delete_where}
use recruit_me.Errors.{Result, ok, ◌>>=◌}
use recruit_me.Auth.State.{World, OwnedRow, OwnedTable}
use recruit_me.Auth.Rows.{user_by_id, revoke_all_refresh_tokens}
use recruit_me.Auth.Samples.{sample_platform, ada, bob, two_users, draw}
use recruit_me.Auth.Account.{change_password, delete_account, delete_prefix, delete_user}
use recruit_me.Auth.Account.Laws.{delete_account_erases, IsErased, IsKept}

abbrev changed : Result {0} Unit × World
changed = change_password sample_platform 100 (draw 9 "") ada "pw" "new" two_users

change_run : changed ≡ (ok tt, changed.1)
unfolding change_password revoke_all_refresh_tokens ◌>>=◌ find update_where
change_run = refl

found_ada_by_id : user_by_id 1 two_users ≡ some ada
unfolding find
found_ada_by_id = refl

abbrev owned_by : ℕ → OwnedRow
owned_by user_id = record { table = OwnedTable.runs; id = user_id; user_id = user_id }

abbrev with_objects : World
with_objects = record two_users {
  objects = "resumes/ii./a" ∷ "reports/i./b" ∷ "reports/ii./c" ∷ [];
  db = record two_users.db { owned = owned_by 1 ∷ owned_by 2 ∷ [] };
}

abbrev deleted : Result {0} Unit × World
deleted = delete_account sample_platform bob "pb" "bob" with_objects

delete_run : deleted ≡ (ok tt, deleted.1)
unfolding delete_account delete_prefix delete_user ◌>>=◌ delete_where
delete_run = refl

delete_account_erases_example :
    (str_eq "pb" "pb" ≡ true)
    × IsErased sample_platform 2 deleted.1
    × IsKept sample_platform 2 with_objects deleted.1
delete_account_erases_example =
    delete_account_erases sample_platform bob "pb" "bob" with_objects deleted.1 delete_run
