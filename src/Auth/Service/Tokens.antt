-- ===== src/Auth/Service/Tokens.antt =====
-- One-time tokens: email verification and password reset.
use mathlib.Core.Option
use recruit_me.Prelude.{
  ℕ, ◌≢◌, ◌≡◌, refl, sym, ap, String, true, false, Option, some, ◌==◌, arith, find, update_where,
  str_eq, All, All-of_update_where, find_holds, find-update_where_other, find-update_where-some,
  ==-refl, find-update_where, if◌then◌else◌,
}
use recruit_me.Errors.{auth_error, Result, ok, err, ◌>>=◌}
use recruit_me.Errors.Inversion.{or_raise-eq-ok, raise_if-eq-ok, modify-eq-ok, gets-eq}
use recruit_me.Auth.State.{User, UserStatus, OneTimeToken, World, Fresh, Platform, Settings, is_set}
use recruit_me.Auth.Rows.{
  user_by_id, is_pending, is_live_of, revoke_at, revoke_all_refresh_tokens, is_spent, mark_used,
}
use recruit_me.Auth.Service.{verify_email, finish_password_reset}

abbrev pub verification_by_raw : Platform → String → World → Option OneTimeToken
verification_by_raw pf raw w =
    find (λ t. str_eq t.token_hash (pf.sha256 raw)) w.db.verification_tokens

abbrev pub reset_by_raw : Platform → String → World → Option OneTimeToken
reset_by_raw pf raw w = find (λ t. str_eq t.token_hash (pf.sha256 raw)) w.db.reset_tokens

-- What verification does to the status of an account: only a pending one becomes active.
abbrev pub activate : User → User
activate u = if is_pending u.status then record u { status = UserStatus.active } else u

-- What a successful verification found and changed.
pub record IsVerified (pf : Platform) (now : ℕ) (raw : String) (w w' : World) : Type 0 where
  pub row : OneTimeToken
  pub found : verification_by_raw pf raw w ≡ some row
  pub fresh : is_spent now row ≡ false
  pub users : w'.db.users ≡ update_where (λ u. u.id == row.user_id) activate w.db.users
  pub tokens :
      w'.db.verification_tokens
      ≡ update_where (λ t. t.id == row.id) (mark_used now) w.db.verification_tokens

verify_email_changes :
    (pf : Platform) (settings : Settings) (now : ℕ) (raw : String) (w w' : World)
    → verify_email pf settings now raw w ≡ (ok tt, w')
    → IsVerified pf now raw w w'
unfolding verify_email
verify_email_changes pf settings now raw w w' h =
    let (row, found, h1) = or_raise-eq-ok _ _ _ (gets-eq (verification_by_raw pf raw) _ h) in
    let (fresh, h2) = raise_if-eq-ok _ _ _ h1 in
    let h3 = modify-eq-ok _ _ h2 in
    record {
      row = row;
      found = found;
      fresh = fresh;
      users = ap (λ (z : Result Unit × World). z.1.db.users) (sym h3);
      tokens = ap (λ (z : Result Unit × World). z.1.db.verification_tokens) (sym h3);
    }

-- A verification token works once: a second call with it is refused.
pub verify_email_once :
    (pf : Platform) (settings : Settings) (now later : ℕ) (raw : String) (w w' : World)
    → verify_email pf settings now raw w ≡ (ok tt, w')
    → verify_email pf settings later raw w'
      ≡ (err (auth_error "invalid or expired verification token"), w')
unfolding verify_email ◌>>=◌
verify_email_once pf settings now later raw w w' h =
    let done = verify_email_changes pf settings now raw w w' h in
    let row = done.row in
    let used : verification_by_raw pf raw w' ≡ some (mark_used now row) = rw done.tokens (
      find-update_where-some _ (λ t. t.id == row.id) (mark_used now) w.db.verification_tokens row
        (λ x. refl) done.found (==-refl row.id)) in
    rw used refl

-- Verification changes the account of the token alone: a pending account becomes active, and a
-- suspended one stays suspended.
pub verify_email_activates :
    (pf : Platform) (settings : Settings) (now : ℕ) (raw : String) (w w' : World)
    → verify_email pf settings now raw w ≡ (ok tt, w')
    → (row : OneTimeToken) × (verification_by_raw pf raw w ≡ some row)
      × ((id : ℕ)
          → user_by_id id w'
            ≡ Option.map (λ u. if u.id == row.user_id then activate u else u) (user_by_id id w))
verify_email_activates pf settings now raw w w' h =
    let done = verify_email_changes pf settings now raw w w' h in
    (
      done.row,
      done.found,
      λ id. rw done.users (
          find-update_where (λ u. u.id == id) (λ u. u.id == done.row.user_id) activate w.db.users
            (λ u. ground arith)),
    )

user_by_id-id : (id : ℕ) (w : World) (u : User) → user_by_id id w ≡ some u → u.id ≡ id
user_by_id-id id w u e =
    let same = find_holds (λ (v : User). v.id == id) w.db.users u e in ground arith

-- What a successful password reset found and changed.
pub record IsReset (pf : Platform) (now : ℕ) (fr : Fresh) (raw password : String) (w w' : World)
    : Type 0 where
  pub row : OneTimeToken
  pub user : User
  pub found : reset_by_raw pf raw w ≡ some row
  pub fresh : is_spent now row ≡ false
  pub owner : user_by_id row.user_id w ≡ some user
  pub users :
      w'.db.users
      ≡ update_where
          (λ u. u.id == user.id)
          (λ u. record u { password_hash = pf.hash_password fr.salt password })
          w.db.users
  pub tokens :
      w'.db.reset_tokens ≡ update_where (λ t. t.id == row.id) (mark_used now) w.db.reset_tokens
  pub sessions :
      w'.db.refresh_tokens ≡ update_where (is_live_of user.id) (revoke_at now) w.db.refresh_tokens

finish_password_reset_changes :
    (pf : Platform) (settings : Settings) (now : ℕ) (fr : Fresh) (raw password : String)
    (w w' : World)
    → finish_password_reset pf settings now fr raw password w ≡ (ok tt, w')
    → IsReset pf now fr raw password w w'
unfolding finish_password_reset revoke_all_refresh_tokens
finish_password_reset_changes pf settings now fr raw password w w' h =
    let (row, found, h1) = or_raise-eq-ok _ _ _ (gets-eq (reset_by_raw pf raw) _ h) in
    let (fresh, h2) = raise_if-eq-ok _ _ _ h1 in
    let (user, owner, h3) = or_raise-eq-ok _ _ _ (gets-eq (user_by_id row.user_id) _ h2) in
    let h4 = modify-eq-ok _ _ (modify-eq-ok _ _ h3) in
    record {
      row = row;
      user = user;
      found = found;
      fresh = fresh;
      owner = owner;
      users = ap (λ (z : Result Unit × World). z.1.db.users) (sym h4);
      tokens = ap (λ (z : Result Unit × World). z.1.db.reset_tokens) (sym h4);
      sessions = ap (λ (z : Result Unit × World). z.1.db.refresh_tokens) (sym h4);
    }

-- A reset token works once: a second call with it is refused.
pub finish_password_reset_once :
    (pf : Platform) (settings : Settings) (now later : ℕ) (fr fr' : Fresh)
    (raw password password' : String) (w w' : World)
    → finish_password_reset pf settings now fr raw password w ≡ (ok tt, w')
    → finish_password_reset pf settings later fr' raw password' w'
      ≡ (err (auth_error "invalid or expired reset token"), w')
unfolding finish_password_reset ◌>>=◌
finish_password_reset_once pf settings now later fr fr' raw password password' w w' h =
    let done = finish_password_reset_changes pf settings now fr raw password w w' h in
    let used : reset_by_raw pf raw w' ≡ some (mark_used now done.row) = rw done.tokens (
      find-update_where-some _ (λ t. t.id == done.row.id) (mark_used now) w.db.reset_tokens done.row
        (λ x. refl) done.found (==-refl done.row.id)) in
    rw used refl

-- After a reset the account of the token has the new password, the old sessions of its user are
-- all revoked, and every other account is as it was.
pub finish_password_reset_resets :
    (pf : Platform) (settings : Settings) (now : ℕ) (fr : Fresh) (raw password : String)
    (w w' : World)
    → finish_password_reset pf settings now fr raw password w ≡ (ok tt, w')
    → (row : OneTimeToken) × (user : User) × (reset_by_raw pf raw w ≡ some row)
      × (user_by_id row.user_id w' ≡ some user)
      × (pf.verify_password password user.password_hash ≡ true)
      × All
          (λ t. (t.user_id == row.user_id) ≡ true → is_set t.revoked_at ≡ true)
          w'.db.refresh_tokens
      × ((id : ℕ) → id ≢ row.user_id → user_by_id id w' ≡ user_by_id id w)
finish_password_reset_resets pf settings now fr raw password w w' h =
    let done = finish_password_reset_changes pf settings now fr raw password w w' h in
    let rename = λ (u : User). record u { password_hash = pf.hash_password fr.salt password } in
    let same = user_by_id-id done.row.user_id w done.user done.owner in
    (
      done.row,
      rename done.user,
      done.found,
      rw done.users (
          find-update_where-some _ (λ u. u.id == done.user.id) rename w.db.users done.user
            (λ u. refl) done.owner (==-refl done.user.id)),
      pf.verify-hash fr.salt password,
      rw (done.sessions, same)
          (All-of_update_where _ (is_live_of done.row.user_id) (revoke_at now) w.db.refresh_tokens
            λ x t. ground arith),
      λ id ne.
          rw done.users
            (find-update_where_other _ _ rename w.db.users (λ u. refl) (λ u e. ground arith)),
    )
