-- ===== src/Auth/Account/Laws.antt =====
-- The password change and the deletion of account_service.py.
use text.Mathlib.Text.{starts_with}
use recruit_me.Prelude.{
  ℕ, ◌≡◌, refl, sym, ap, ◌∙◌, String, true, false, none, some, ◌==◌, arith, All,
  All-of_update_where, All-delete_where, All-delete_where_kept, find-update_where-some,
  find-delete_where, select-delete_where_other, select, Bool, not, ◌&&◌, ==-refl,
}
use recruit_me.Errors.{auth_error, Result, ok, err}
use recruit_me.Errors.Inversion.{
  bind-ok, raise_if-eq-ok, modify-eq-ok, gets-bind, or_raise-some, or_raise-none,
}
use recruit_me.Auth.State.{User, World, Fresh, Platform, is_set}
use recruit_me.Auth.Rows.{user_by_id, is_live_of, revoke_at, revoke_all_refresh_tokens}
use recruit_me.Security.Jwt.{AccessClaims, decode_access_token}
use recruit_me.Auth.Access.{from_result, get_current_user}
use recruit_me.Auth.Account.{
  set_password, delete_prefix, delete_user, change_password, resumes_prefix, reports_prefix,
  delete_account,
}

-- A password change asks for the current password. Afterwards the account has the new one, and all
-- its sessions are revoked.
pub change_password_resets :
    (pf : Platform) (now : ℕ) (fr : Fresh) (u : User) (current new : String) (w w' : World)
    → user_by_id u.id w ≡ some u
    → change_password pf now fr u current new w ≡ (ok tt, w')
    → (pf.verify_password current u.password_hash ≡ true)
      × (v : User) × (user_by_id u.id w' ≡ some v)
      × (pf.verify_password new v.password_hash ≡ true)
      × All (λ t. (t.user_id == u.id) ≡ true → is_set t.revoked_at ≡ true) w'.db.refresh_tokens
unfolding change_password revoke_all_refresh_tokens
change_password_resets pf now fr u current new w w' found h =
    let (matches, h1) = raise_if-eq-ok _ _ _ h in
    let h2 = modify-eq-ok _ _ h1 in
    let users = ap (λ (z : Result Unit × World). z.1.db.users) (sym h2) in
    let tokens = ap (λ (z : Result Unit × World). z.1.db.refresh_tokens) (sym h2) in
    let v = set_password (pf.hash_password fr.salt new) u in
    (
      ground arith,
      v,
      rw users (
          find-update_where-some _ (λ x. x.id == u.id) (set_password (pf.hash_password fr.salt new))
            w.db.users u (λ x. refl) found (==-refl u.id)),
      pf.verify-hash fr.salt new,
      rw tokens (
          All-of_update_where _ (is_live_of u.id) (revoke_at now) w.db.refresh_tokens
            λ x t. ground arith),
    )

-- Nothing of the account is left in the tables or in the object store.
pub record IsErased (pf : Platform) (id : ℕ) (w : World) : Type 0 where
  pub user : user_by_id id w ≡ none
  pub refresh_tokens : All (λ t. (t.user_id == id) ≡ false) w.db.refresh_tokens
  pub verification_tokens : All (λ t. (t.user_id == id) ≡ false) w.db.verification_tokens
  pub reset_tokens : All (λ t. (t.user_id == id) ≡ false) w.db.reset_tokens
  pub change_tokens : All (λ t. (t.user_id == id) ≡ false) w.db.change_tokens
  pub owned : All (λ r. (r.user_id == id) ≡ false) w.db.owned
  pub resumes : All (λ key. starts_with key (resumes_prefix pf id) ≡ false) w.objects
  pub reports : All (λ key. starts_with key (reports_prefix pf id) ≡ false) w.objects

-- An object's key under neither of the user's prefixes.
abbrev pub is_foreign : Platform → ℕ → String → Bool
is_foreign pf id key =
    not (starts_with key (resumes_prefix pf id)) && not (starts_with key (reports_prefix pf id))

of_negated : (b : Bool) → not b ≡ true → b ≡ false
of_negated b h = ground arith

not_left : (a b : Bool) → (not a && not b) ≡ true → a ≡ false
not_left a b h = ground arith

not_right : (a b : Bool) → (not a && not b) ≡ true → b ≡ false
not_right a b h = ground arith

-- Nothing of the other accounts is gone: neither their rows, nor an object outside the two prefixes.
pub record IsKept (pf : Platform) (id : ℕ) (w w' : World) : Type 0 where
  pub users : select (λ v. not (v.id == id)) w'.db.users ≡ select (λ v. not (v.id == id)) w.db.users
  pub refresh_tokens :
      select (λ t. not (t.user_id == id)) w'.db.refresh_tokens
      ≡ select (λ t. not (t.user_id == id)) w.db.refresh_tokens
  pub verification_tokens :
      select (λ t. not (t.user_id == id)) w'.db.verification_tokens
      ≡ select (λ t. not (t.user_id == id)) w.db.verification_tokens
  pub reset_tokens :
      select (λ t. not (t.user_id == id)) w'.db.reset_tokens
      ≡ select (λ t. not (t.user_id == id)) w.db.reset_tokens
  pub change_tokens :
      select (λ t. not (t.user_id == id)) w'.db.change_tokens
      ≡ select (λ t. not (t.user_id == id)) w.db.change_tokens
  pub owned :
      select (λ r. not (r.user_id == id)) w'.db.owned
      ≡ select (λ r. not (r.user_id == id)) w.db.owned
  pub objects : select (is_foreign pf id) w'.objects ≡ select (is_foreign pf id) w.objects
  pub mails : w'.sent ≡ w.sent

-- Deleting an account takes its password. Afterwards the user, the tokens, every row of the other
-- tables that names the user and the objects under the user's two prefixes are gone, and all rows of
-- other accounts, all other objects and the mails are as before.
pub delete_account_erases :
    (pf : Platform) (u : User) (password confirm_email : String) (w w' : World)
    → delete_account pf u password confirm_email w ≡ (ok tt, w')
    → (pf.verify_password password u.password_hash ≡ true)
      × IsErased pf u.id w'
      × IsKept pf u.id w w'
unfolding delete_account delete_prefix delete_user
delete_account_erases pf u password confirm_email w w' h =
    let (matches, h1) = raise_if-eq-ok _ _ _ h in
    let (_, h2) = raise_if-eq-ok _ _ _ h1 in
    let h3 = modify-eq-ok _ _ (modify-eq-ok _ _ h2) in
    let world = ap (λ (z : Result Unit × World). z.1) (sym h3) in
    (
      ground arith,
      rw world (record {
        user = find-delete_where _ (λ x. x.id == u.id) w.db.users (λ x e. e);
        refresh_tokens = All-delete_where _ _ w.db.refresh_tokens (λ x e. e);
        verification_tokens = All-delete_where _ _ w.db.verification_tokens (λ x e. e);
        reset_tokens = All-delete_where _ _ w.db.reset_tokens (λ x e. e);
        change_tokens = All-delete_where _ _ w.db.change_tokens (λ x e. e);
        owned = All-delete_where _ _ w.db.owned (λ x e. e);
        resumes = All-delete_where_kept _ _ _ (All-delete_where _ _ w.objects (λ x e. e));
        reports = All-delete_where _ _ _ (λ x e. e);
      }),
      rw world (record {
        users = select-delete_where_other _ _ w.db.users (λ x e. of_negated _ e);
        refresh_tokens = select-delete_where_other _ _ w.db.refresh_tokens (λ x e. of_negated _ e);
        verification_tokens =
            select-delete_where_other _ _ w.db.verification_tokens (λ x e. of_negated _ e);
        reset_tokens = select-delete_where_other _ _ w.db.reset_tokens (λ x e. of_negated _ e);
        change_tokens = select-delete_where_other _ _ w.db.change_tokens (λ x e. of_negated _ e);
        owned = select-delete_where_other _ _ w.db.owned (λ x e. of_negated _ e);
        objects =
            select-delete_where_other _ _ _ (λ x e. not_right _ _ e)
            ∙ select-delete_where_other _ _ w.objects (λ x e. not_left _ _ e);
        mails = refl;
      }),
    )

-- The access token of a deleted account is refused, though it has not expired.
pub deleted_is_unknown :
    (pf : Platform) (later : ℕ) (u : User) (password confirm_email token : String)
    (claims : AccessClaims) (w w' : World)
    → delete_account pf u password confirm_email w ≡ (ok tt, w')
    → decode_access_token pf.jwt pf.keys later token ≡ ok claims
    → pf.parse_uuid claims.sub ≡ some u.id
    → get_current_user pf later (some token) w' ≡ (err (auth_error "account no longer exists"), w')
unfolding get_current_user
deleted_is_unknown pf later u password confirm_email token claims w w' h decoded subject =
    let (_, erased, _) = delete_account_erases pf u password confirm_email w w' h in
    or_raise-some (some token) (auth_error "not authenticated") _ token refl
    ∙ bind-ok {v = w'} (from_result (decode_access_token pf.jwt pf.keys later token)) _ claims
        (ap (λ r. (r, w')) decoded)
    ∙ or_raise-some (pf.parse_uuid claims.sub) _ _ u.id subject
    ∙ gets-bind (user_by_id u.id) _
    ∙ or_raise-none (user_by_id u.id w') _ _ erased.user
