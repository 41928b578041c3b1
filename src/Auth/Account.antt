-- ===== src/Auth/Account.antt =====
-- backend/src/recruit_api/services/account_service.py. The methods take the `User` row that
-- `get_current_user` loaded. Of the tables that the deletion of a user cascades to, those of the
-- account services are here.
pub mod Emails
pub mod Laws
mod Tests
use Prim.Native.String
use text.Mathlib.Text.{starts_with}
use recruit_me.Prelude.{
  ℕ, ◌+◌, ◌*◌, String, Bool, true, false, ◌&&◌, ◌||◌, not, Option, none, some, List, [], ◌∷◌, ◌++◌,
  ◌==◌, leb, if◌then◌else◌, find, exists, update_where, delete_where, str_eq,
}
use recruit_me.Errors.{
  auth_error, conflict_error, email_taken, unless_taken, Result, Exec, pure, gets, or_raise,
  raise_if, modify, ◌>>=◌, ◌>>◌,
}
use recruit_me.Auth.State.{User, EmailChangeToken, World, Mail, Fresh, Platform, same_email, is_set}
use recruit_me.Auth.Rows.{
  some_row, user_by_id, user_by_email, write_user, revoke_all_refresh_tokens, send,
}

abbrev pub set_password : String → User → User
set_password hash u = record u { password_hash = hash }

abbrev pub set_email : String → User → User
set_email email u = record u { email = email }

abbrev pub change_is_spent : ℕ → EmailChangeToken → Bool
change_is_spent now t = is_set t.used_at || leb t.expires_at now

abbrev pub mark_change_used : ℕ → EmailChangeToken → EmailChangeToken
mark_change_used now t = record t { used_at = some now }

pub add_change_token : EmailChangeToken → Exec World Unit
add_change_token t w =
    unless_taken (exists (λ s. str_eq s.token_hash t.token_hash) w.db.change_tokens)
      (record w { db = record w.db { change_tokens = w.db.change_tokens ++ t ∷ [] } }) w

-- The test of `confirm_email_change`: another account holds the address.
abbrev pub taken_by_other : Option User → ℕ → Bool
taken_by_other none user_id = false
taken_by_other (some u) user_id = not (u.id == user_id)

-- `store.delete_prefix`
pub delete_prefix : String → Exec World Unit
delete_prefix start =
    modify λ w. record w { objects = delete_where (λ key. starts_with key start) w.objects }

-- `db.delete(user)`, with its cascades
pub delete_user : ℕ → Exec World Unit
delete_user id = modify λ w. record w {
  db = record {
    users = delete_where (λ u. u.id == id) w.db.users;
    refresh_tokens = delete_where (λ t. t.user_id == id) w.db.refresh_tokens;
    verification_tokens = delete_where (λ t. t.user_id == id) w.db.verification_tokens;
    reset_tokens = delete_where (λ t. t.user_id == id) w.db.reset_tokens;
    change_tokens = delete_where (λ t. t.user_id == id) w.db.change_tokens;
    owned = delete_where (λ r. r.user_id == id) w.db.owned;
  };
}

module _ (pf : Platform) where
  open pf use {sha256, hash_password, verify_password, lower, uuid_text}

  -- The flush after a write to `users.email` checks that the address is still unique.
  pub write_email : ℕ → String → Exec World Unit
  write_email id email w =
      unless_taken (exists (λ u. not (u.id == id) && same_email pf u.email email) w.db.users)
        (write_user id (set_email email) w) w

  pub change_password : ℕ → Fresh → User → String → String → Exec World Unit
  change_password now fr u current new = do
    raise_if (not (verify_password current u.password_hash))
        (auth_error "current password is incorrect")
    modify (write_user u.id (set_password (hash_password fr.salt new)))
    revoke_all_refresh_tokens now u.id

  pub request_email_change : ℕ → Fresh → User → String → String → Exec World Unit
  request_email_change now fr u new_email current_password = do
    raise_if (not (verify_password current_password u.password_hash))
        (auth_error "current password is incorrect")
    raise_if (str_eq (lower new_email) (lower u.email))
        (conflict_error "that is already your email address")
    taken ← gets (user_by_email pf new_email)
    raise_if (some_row taken) email_taken
    add_change_token (record {
      id = fr.token_id;
      user_id = u.id;
      new_email = new_email;
      token_hash = sha256 fr.raw;
      expires_at = now + 2 * 3600;
      used_at = none;
    })
    send (record {
      to = new_email;
      subject = "Confirm your new Recruit-ME email";
      link_path = "/email-change/confirm?token=";
      token = fr.raw;
    })

  abbrev pub change_by_raw : String → World → Option EmailChangeToken
  change_by_raw raw w = find (λ t. str_eq t.token_hash (sha256 raw)) w.db.change_tokens

  pub confirm_email_change : ℕ → String → Exec World Unit
  confirm_email_change now token = do
    found ← gets (change_by_raw token)
    row ← or_raise found (auth_error "invalid or expired email-change token")
    raise_if (change_is_spent now row) (auth_error "invalid or expired email-change token")
    taken ← gets (user_by_email pf row.new_email)
    raise_if (taken_by_other taken row.user_id) email_taken
    owner ← gets (user_by_id row.user_id)
    u ← or_raise owner (auth_error "invalid or expired email-change token")
    write_email u.id row.new_email
    modify λ w. record w {
      db = record w.db {
        change_tokens =
            update_where (λ t. t.id == row.id) (mark_change_used now) w.db.change_tokens;
      };
    }
    revoke_all_refresh_tokens now u.id

  -- f"resumes/{user_id}/" and f"reports/{user_id}/"
  abbrev pub resumes_prefix : ℕ → String
  resumes_prefix id = String.◌++◌ "resumes/" (String.◌++◌ (uuid_text id) "/")

  abbrev pub reports_prefix : ℕ → String
  reports_prefix id = String.◌++◌ "reports/" (String.◌++◌ (uuid_text id) "/")

  pub delete_account : User → String → String → Exec World Unit
  delete_account u password confirm_email = do
    raise_if (not (verify_password password u.password_hash)) (auth_error "password is incorrect")
    raise_if (not (str_eq (lower confirm_email) (lower u.email)))
        (auth_error "confirmation email does not match this account")
    delete_prefix (resumes_prefix u.id)
    delete_prefix (reports_prefix u.id)
    delete_user u.id
