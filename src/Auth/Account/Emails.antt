-- ===== src/Auth/Account/Emails.antt =====
-- The methods of account_service.py and the unique columns of the accounts.
use recruit_me.Prelude.{ℕ, refl, String, ◌==◌, ◌&&◌, not, exists, inl, inr, Bool-cases}
use recruit_me.Errors.{unless_taken}
use recruit_me.Errors.Keeps.{Keeps, Keeps-bind, Keeps-or_raise, Keeps-raise_if, keeps_unless_taken}
use recruit_me.Auth.State.{User, EmailChangeToken, World, Platform, Fresh, same_email}
use recruit_me.Auth.Rows.{revoke_all_refresh_tokens, send}
use recruit_me.Auth.Emails.{
  HasDistinctUsers, IsDistinct-update_where, IsDistinct-delete_where, IsDistinct-set_email,
}
use recruit_me.Auth.Account.{
  add_change_token, delete_prefix, delete_user, write_email, change_password, request_email_change,
  confirm_email_change, delete_account,
}

module _ (pf : Platform) where
  abbrev P : World → Type 0
  P = HasDistinctUsers pf

  add_change_token-Keeps : (t : EmailChangeToken) → Keeps P (add_change_token t)
  unfolding add_change_token
  add_change_token-Keeps t w p = keeps_unless_taken P _ _ w p p

  write_email-Keeps : (id : ℕ) (email : String) → Keeps P (write_email pf id email)
  unfolding write_email unless_taken
  write_email-Keeps id email w p =
      elim (Bool-cases (exists (λ u. not (u.id == id) && same_email pf u.email email) w.db.users)) [
        | inl t ↦ rw t p
        | inr t ↦ rw t (IsDistinct-set_email pf id email w.db.users t p)
      ]

  revoke-Keeps : (now user_id : ℕ) → Keeps P (revoke_all_refresh_tokens now user_id)
  unfolding revoke_all_refresh_tokens
  revoke-Keeps now user_id w p = p

  pub change_password-Keeps :
      (now : ℕ) (fr : Fresh) (u : User) (current new : String)
      → Keeps P (change_password pf now fr u current new)
  unfolding change_password
  change_password-Keeps now fr u current new = Keeps-bind P _ _ (Keeps-raise_if P _ _) (λ _.
      Keeps-bind P _ _
        (λ w p. IsDistinct-update_where pf (λ v. v.id == u.id) _ w.db.users (λ v. (refl, refl)) p)
        (λ _. revoke-Keeps now u.id))

  pub request_email_change-Keeps :
      (now : ℕ) (fr : Fresh) (u : User) (new_email current_password : String)
      → Keeps P (request_email_change pf now fr u new_email current_password)
  unfolding request_email_change send
  request_email_change-Keeps now fr u new_email current_password =
      Keeps-bind P _ _ (Keeps-raise_if P _ _) (λ _. Keeps-bind P _ _ (Keeps-raise_if P _ _) (λ _.
        Keeps-bind P _ _ (λ w p. p)
          (λ taken.
            Keeps-bind P _ _ (Keeps-raise_if P _ _)
              (λ _. Keeps-bind P _ _ (add_change_token-Keeps _) (λ _ w p. p)))))

  pub confirm_email_change-Keeps :
      (now : ℕ) (token : String) → Keeps P (confirm_email_change pf now token)
  unfolding confirm_email_change
  confirm_email_change-Keeps now token =
      Keeps-bind P _ _ (λ w p. p)
        (λ found. Keeps-bind P _ _ (Keeps-or_raise P found _) (λ row.
          Keeps-bind P _ _ (Keeps-raise_if P _ _) (λ _.
            Keeps-bind P _ _ (λ w p. p)
              (λ taken. Keeps-bind P _ _ (Keeps-raise_if P _ _) (λ _.
                Keeps-bind P _ _ (λ w p. p)
                  (λ owner. Keeps-bind P _ _ (Keeps-or_raise P owner _) (λ u.
                    Keeps-bind P _ _ (write_email-Keeps u.id row.new_email)
                      (λ _. Keeps-bind P _ _ (λ w p. p) (λ _. revoke-Keeps now u.id)))))))))

  pub delete_account-Keeps :
      (u : User) (password confirm_email : String)
      → Keeps P (delete_account pf u password confirm_email)
  unfolding delete_account delete_prefix delete_user
  delete_account-Keeps u password confirm_email = Keeps-bind P _ _ (Keeps-raise_if P _ _) (λ _.
      Keeps-bind P _ _ (Keeps-raise_if P _ _) (λ _.
        Keeps-bind P _ _ (λ w p. p)
          (λ _.
            Keeps-bind P _ _ (λ w p. p)
              (λ _ w p. IsDistinct-delete_where pf (λ v. v.id == u.id) w.db.users p))))
