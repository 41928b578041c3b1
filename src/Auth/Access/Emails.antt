-- ===== src/Auth/Access/Emails.antt =====
-- The suspension of routers/admin.py and the unique columns of the accounts.
use recruit_me.Prelude.{ℕ, refl, String, Option, [], ◌∷◌, ◌==◌}
use recruit_me.Errors.Keeps.{Keeps, Keeps-bind, Keeps-or_raise, Keeps-raise_if}
use recruit_me.Auth.State.{admin, World, Platform}
use recruit_me.Auth.Emails.{HasDistinctUsers, IsDistinct-update_where}
use recruit_me.Auth.Access.{get_current_user, require_role, suspend_user}

module _ (pf : Platform) where
  abbrev P : World → Type 0
  P = HasDistinctUsers pf

  get_current_user-Keeps :
      (now : ℕ) (creds : Option String) → Keeps P (get_current_user pf now creds)
  unfolding get_current_user
  get_current_user-Keeps now creds = Keeps-bind P _ _ (Keeps-or_raise P creds _) (λ token.
      Keeps-bind P _ _ (λ w p. p)
        (λ claims. Keeps-bind P _ _ (Keeps-or_raise P _ _) (λ id.
          Keeps-bind P _ _ (λ w p. p)
            (λ found.
              Keeps-bind P _ _ (Keeps-or_raise P found _)
                (λ u. Keeps-bind P _ _ (Keeps-raise_if P _ _) (λ _ w p. p))))))

  require_admin-Keeps :
      (now : ℕ) (creds : Option String) → Keeps P (require_role pf (admin ∷ []) now creds)
  unfolding require_role
  require_admin-Keeps now creds =
      Keeps-bind P _ _ (get_current_user-Keeps now creds)
        (λ u. Keeps-bind P _ _ (Keeps-raise_if P _ _) (λ _ w p. p))

  pub suspend_user-Keeps :
      (now : ℕ) (creds : Option String) (id : ℕ) → Keeps P (suspend_user pf now creds id)
  unfolding suspend_user
  suspend_user-Keeps now creds id = Keeps-bind P _ _ (require_admin-Keeps now creds) (λ _.
      Keeps-bind P _ _ (λ w p. p)
        (λ found. Keeps-bind P _ _ (Keeps-or_raise P found _) (λ u.
          Keeps-bind P _ _
            (λ w p. IsDistinct-update_where pf (λ v. v.id == id) _ w.db.users (λ v. (refl, refl)) p)
            (λ _ w p. p))))
