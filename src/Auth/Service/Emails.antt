-- ===== src/Auth/Service/Emails.antt =====
-- The methods of auth_service.py and the unique columns of the accounts.
use recruit_me.Prelude.{
  ℕ, ◌≡◌, refl, String, false, Option, none, some, ◌==◌, exists, inl, inr, Bool-cases, Option-cases,
  if◌then◌else◌, str_eq,
}
use recruit_me.Errors.{Exec, unless_taken, ◌>>=◌, ◌>>◌}
use recruit_me.Errors.Keeps.{
  Keeps, Keeps-bind, Keeps-or_raise, Keeps-raise_if, keeps_gets_at, keeps_raise_if_at,
  keeps_unless_taken,
}
use recruit_me.Auth.State.{
  User, RefreshToken, World, Platform, Settings, Fresh, Mail, OneTimeToken, UserStatus, is_set,
  same_email,
}
use recruit_me.Auth.Rows.{
  revoke_all_refresh_tokens, send, add_refresh_token, add_verification_token, add_reset_token,
  add_user, is_pending, write_refresh_token, revoke_at, user_by_email,
}
use recruit_me.Auth.Emails.{HasDistinctUsers, IsDistinct-update_where, IsDistinct-append}
use recruit_me.Auth.Service.{
  signup, verify_email, issue_refresh, login, rotate, reuse_detected, refresh, logout,
  start_password_reset, new_user, finish_password_reset,
}

module _ (pf : Platform) (settings : Settings) where
  abbrev pub P : World → Type 0
  P = HasDistinctUsers pf

  pub revoke_all-Keeps : (now user_id : ℕ) → Keeps P (revoke_all_refresh_tokens now user_id)
  unfolding revoke_all_refresh_tokens
  revoke_all-Keeps now user_id w p = p

  pub send-Keeps : (m : Mail) → Keeps P (send m)
  unfolding send
  send-Keeps m w p = p

  pub add_refresh_token-Keeps : (t : RefreshToken) → Keeps P (add_refresh_token t)
  unfolding add_refresh_token
  add_refresh_token-Keeps t w p = keeps_unless_taken P _ _ w p p

  pub issue_refresh-Keeps :
      (now : ℕ) (fr : Fresh) (u : User) (user_agent ip : String) (o : Option ℕ)
      → Keeps P (issue_refresh pf settings now fr u user_agent ip o)
  unfolding issue_refresh
  issue_refresh-Keeps now fr u user_agent ip o =
      Keeps-bind P _ _ (add_refresh_token-Keeps _) (λ _ w p. p)

  pub login-Keeps :
      (now : ℕ) (fr : Fresh) (email password user_agent ip : String)
      → Keeps P (login pf settings now fr email password user_agent ip)
  unfolding login
  login-Keeps now fr email password user_agent ip =
      Keeps-bind P _ _ (λ w p. p)
        (λ found. Keeps-bind P _ _ (Keeps-or_raise P found _) (λ u.
          Keeps-bind P _ _ (Keeps-raise_if P _ _) (λ _.
            Keeps-bind P _ _ (Keeps-raise_if P _ _) (λ _.
              Keeps-bind P _ _ (issue_refresh-Keeps now fr u user_agent ip none) (λ raw w p. p)))))

  pub rotate-Keeps :
      (now : ℕ) (fr : Fresh) (row : RefreshToken) (user_agent ip : String)
      → Keeps P (rotate pf settings now fr row user_agent ip)
  unfolding rotate
  rotate-Keeps now fr row user_agent ip = Keeps-bind P _ _ (Keeps-raise_if P _ _) (λ _.
      Keeps-bind P _ _ (λ w p. p)
        (λ found. Keeps-bind P _ _ (Keeps-or_raise P found _) (λ u.
          Keeps-bind P _ _ (Keeps-raise_if P _ _) (λ _.
            Keeps-bind P _ _ (λ w p. p)
              (λ _.
                Keeps-bind P _ _ (issue_refresh-Keeps now fr u user_agent ip (some row.id))
                  (λ raw w p. p))))))

  pub reuse_detected-Keeps :
      (now : ℕ) (row : RefreshToken) → Keeps P (reuse_detected pf settings now row)
  unfolding reuse_detected
  reuse_detected-Keeps now row = Keeps-bind P _ _ (revoke_all-Keeps now row.user_id) (λ _ w p. p)

  pub refresh-Keeps :
      (now : ℕ) (fr : Fresh) (raw user_agent ip : String)
      → Keeps P (refresh pf settings now fr raw user_agent ip)
  unfolding refresh
  refresh-Keeps now fr raw user_agent ip =
      Keeps-bind P _ _ (λ w p. p)
        (λ found. Keeps-bind P _ _ (Keeps-or_raise P found _) (λ row.
          elim (Bool-cases (is_set row.revoked_at)) [
            | inl t ↦ rw t (reuse_detected-Keeps now row)
            | inr t ↦ rw t (rotate-Keeps now fr row user_agent ip)
          ]))

  pub verify_email-Keeps : (now : ℕ) (token : String) → Keeps P (verify_email pf settings now token)
  unfolding verify_email
  verify_email-Keeps now token =
      Keeps-bind P _ _ (λ w p. p)
        (λ found. Keeps-bind P _ _ (Keeps-or_raise P found _) (λ row.
          Keeps-bind P _ _ (Keeps-raise_if P _ _) (λ _.
            Keeps-bind P _ _
              (λ w p.
                IsDistinct-update_where pf (λ u. u.id == row.user_id) _ w.db.users activates p)
              (λ _ w p. p))))
    where
      activates :
          (u : User)
          → ((if is_pending u.status then record u { status = UserStatus.active } else u).id ≡ u.id)
            × ((if is_pending u.status then record u { status = UserStatus.active } else u).email
                ≡ u.email)
      activates u = elim (Bool-cases (is_pending u.status)) [
        | inl t ↦ rw t (refl, refl)
        | inr t ↦ rw t (refl, refl)
      ]

  pub add_verification_token-Keeps : (t : OneTimeToken) → Keeps P (add_verification_token t)
  unfolding add_verification_token
  add_verification_token-Keeps t w p = keeps_unless_taken P _ _ w p p

  -- A new account, and what comes after it.
  after_add :
      {A : Type 0} (u : User) (rest : Exec World A) (w : World)
      → Keeps P rest
      → exists (λ v. v.id == u.id) w.db.users ≡ false
      → P w
      → P ((add_user pf u >> rest) w).1
  unfolding add_user unless_taken ◌>>=◌
  after_add u rest w h new p =
      elim (Bool-cases (exists (λ v. same_email pf v.email u.email) w.db.users)) [
        | inl t ↦ rw t p
        | inr t ↦ rw t (h _ (IsDistinct-append pf w.db.users u new t p))
      ]

  pub signup-keeps :
      (now : ℕ) (fr : Fresh) (email password full_name : String) (w : World)
      → exists (λ v. v.id == fr.user_id) w.db.users ≡ false
      → P w
      → P (signup pf settings now fr email password full_name w).1
  unfolding signup
  signup-keeps now fr email password full_name w new p = keeps_gets_at P _ _ w (
      keeps_raise_if_at P _ _ _ w p (
        after_add (new_user pf settings fr email password full_name) _ w
          (Keeps-bind P _ _ (add_verification_token-Keeps _)
            (λ _. Keeps-bind P _ _ (send-Keeps _) (λ _ v q. q)))
          new p))

  pub finish_password_reset-Keeps :
      (now : ℕ) (fr : Fresh) (token new_password : String)
      → Keeps P (finish_password_reset pf settings now fr token new_password)
  unfolding finish_password_reset
  finish_password_reset-Keeps now fr token new_password =
      Keeps-bind P _ _ (λ w p. p)
        (λ found. Keeps-bind P _ _ (Keeps-or_raise P found _) (λ row.
          Keeps-bind P _ _ (Keeps-raise_if P _ _) (λ _.
            Keeps-bind P _ _ (λ w p. p)
              (λ owner. Keeps-bind P _ _ (Keeps-or_raise P owner _) (λ u.
                Keeps-bind P _ _
                  (λ w p.
                    IsDistinct-update_where pf (λ v. v.id == u.id) _ w.db.users (λ v. (refl, refl))
                      p)
                  (λ _. Keeps-bind P _ _ (λ w p. p) (λ _. revoke_all-Keeps now u.id)))))))

  revoke_found :
      (now : ℕ) (found : Option RefreshToken) (w : World)
      → P w
      → P (elim found [
        | none ↦ w
        | some row ↦
            if is_set row.revoked_at then w else write_refresh_token row.id (revoke_at now) w
      ])
  revoke_found now none w p = p
  revoke_found now (some row) w p = elim (Bool-cases (is_set row.revoked_at)) [
    | inl t ↦ rw t p
    | inr t ↦ rw t p
  ]

  pub add_reset_token-Keeps : (t : OneTimeToken) → Keeps P (add_reset_token t)
  unfolding add_reset_token
  add_reset_token-Keeps t w p = keeps_unless_taken P _ _ w p p

  pub logout-Keeps : (now : ℕ) (raw : Option String) → Keeps P (logout pf settings now raw)
  unfolding logout
  logout-Keeps now none w p = p
  logout-Keeps now (some raw) w p = elim (Bool-cases (str_eq raw "")) [
    | inl t ↦ rw t p
    | inr t ↦ rw t (Keeps-bind P _ _ (λ v q. q) (λ found v q. revoke_found now found v q) w p)
  ]

  pub start_password_reset-Keeps :
      (now : ℕ) (fr : Fresh) (email : String)
      → Keeps P (start_password_reset pf settings now fr email)
  unfolding start_password_reset
  start_password_reset-Keeps now fr email w p =
      keeps_gets_at P _ _ w (elim (Option-cases (user_by_email pf email w)) [
        | inl e ↦ rw e p
        | inr (u, e) ↦ rw e (Keeps-bind P _ _ (add_reset_token-Keeps _) (λ _. send-Keeps _) w p)
      ])
