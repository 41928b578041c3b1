-- ===== src/Auth/Rows.antt =====
-- Reads and writes of rows that the account services share: `db.get`, `db.scalar`, `db.add` with the
-- flush that checks unique columns, the ORM's writes to a row, and `revoke_all_refresh_tokens`.
use recruit_me.Prelude.{
  ℕ, String, Bool, true, false, ◌&&◌, not, ◌||◌, leb, Option, none, some, [], ◌∷◌, ◌++◌, ◌==◌, find,
  exists, update_where, str_eq,
}
use recruit_me.Errors.{unless_taken, Exec, modify}
use recruit_me.Auth.State.{
  User, UserStatus, RefreshToken, OneTimeToken, World, Mail, Platform, same_email, is_set,
}

abbrev pub some_row {ℓ} : {A : Type ℓ} → Option A → Bool
some_row none = false
some_row (some _) = true

-- `db.get(User, id)`
abbrev pub user_by_id : ℕ → World → Option User
user_by_id id w = find (λ u. u.id == id) w.db.users

abbrev pub is_pending : UserStatus → Bool
is_pending UserStatus.pending_verification = true
is_pending _ = false

-- The ORM's write to the columns of one user.
abbrev pub write_user : ℕ → (User → User) → World → World
write_user id f w = record w {
  db = record w.db { users = update_where (λ u. u.id == id) f w.db.users };
}

abbrev pub write_refresh_token : ℕ → (RefreshToken → RefreshToken) → World → World
write_refresh_token id f w = record w {
  db = record w.db { refresh_tokens = update_where (λ t. t.id == id) f w.db.refresh_tokens };
}

-- the `where` of `revoke_all_refresh_tokens`
abbrev pub is_live_of : ℕ → RefreshToken → Bool
is_live_of user_id t = t.user_id == user_id && not (is_set t.revoked_at)

abbrev pub revoke_at : ℕ → RefreshToken → RefreshToken
revoke_at now t = record t { revoked_at = some now }

unfoldable pub revoke_all_refresh_tokens : ℕ → ℕ → Exec World Unit
revoke_all_refresh_tokens now user_id = modify λ w. record w {
  db = record w.db {
    refresh_tokens = update_where (is_live_of user_id) (revoke_at now) w.db.refresh_tokens;
  };
}

unfoldable pub send : Mail → Exec World Unit
send m = modify λ w. record w { sent = w.sent ++ m ∷ [] }

unfoldable pub add_verification_token : OneTimeToken → Exec World Unit
add_verification_token t w =
    unless_taken (exists (λ s. str_eq s.token_hash t.token_hash) w.db.verification_tokens)
      (record w { db = record w.db { verification_tokens = w.db.verification_tokens ++ t ∷ [] } }) w

unfoldable pub add_reset_token : OneTimeToken → Exec World Unit
add_reset_token t w =
    unless_taken (exists (λ s. str_eq s.token_hash t.token_hash) w.db.reset_tokens)
      (record w { db = record w.db { reset_tokens = w.db.reset_tokens ++ t ∷ [] } }) w

unfoldable pub add_refresh_token : RefreshToken → Exec World Unit
add_refresh_token t w =
    unless_taken (exists (λ s. str_eq s.token_hash t.token_hash) w.db.refresh_tokens)
      (record w { db = record w.db { refresh_tokens = w.db.refresh_tokens ++ t ∷ [] } }) w

-- `row is None or row.used_at is not None or row.expires_at <= _now()`
abbrev pub is_spent : ℕ → OneTimeToken → Bool
is_spent now t = is_set t.used_at || leb t.expires_at now

abbrev pub mark_used : ℕ → OneTimeToken → OneTimeToken
mark_used now t = record t { used_at = some now }

module _ (pf : Platform) where
  abbrev pub user_by_email : String → World → Option User
  user_by_email email w = find (λ u. same_email pf u.email email) w.db.users

  -- `db.add` and the flush that checks the unique columns
  unfoldable pub add_user : User → Exec World Unit
  add_user u w =
      unless_taken (exists (λ v. same_email pf v.email u.email) w.db.users)
        (record w { db = record w.db { users = w.db.users ++ u ∷ [] } }) w

  unfoldable pub refresh_token_by_raw : String → World → Option RefreshToken
  refresh_token_by_raw raw w = find (λ t. str_eq t.token_hash (pf.sha256 raw)) w.db.refresh_tokens
