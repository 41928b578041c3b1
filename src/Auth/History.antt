-- ===== src/Auth/History.antt =====
-- The requests that the account services answer, one after the other, each in a session of its own:
-- backend/src/recruit_api/routers/{auth,account,admin}.py over db.py's `get_db`.
mod Tests
use recruit_me.Prelude.{ℕ, ◌≡◌, String, Bool, true, false, Option, ◌==◌, exists}
use recruit_me.Errors.{Result, ok, err, Exec}
use recruit_me.Errors.Keeps.{Keeps}
use recruit_me.Auth.State.{User, World, Platform, Settings, Fresh, in_session}
use recruit_me.Auth.Emails.{HasDistinctUsers}
use recruit_me.Auth.Service.{
  signup, verify_email, login, refresh, logout, start_password_reset, finish_password_reset,
}
use recruit_me.Auth.Service.Emails.{
  signup-keeps, verify_email-Keeps, login-Keeps, refresh-Keeps, logout-Keeps,
  start_password_reset-Keeps, finish_password_reset-Keeps,
}
use recruit_me.Auth.Account.{
  change_password, request_email_change, confirm_email_change, delete_account,
}
use recruit_me.Auth.Account.Emails.{
  change_password-Keeps, request_email_change-Keeps, confirm_email_change-Keeps,
  delete_account-Keeps,
}
use recruit_me.Auth.Access.{suspend_user}
use recruit_me.Auth.Access.Emails.{suspend_user-Keeps}

module _ (pf : Platform) (settings : Settings) where
  -- One request. The id that a signup draws is new; `u` is the row of the user who asks.
  pub data Step (w : World) : World → Type 0 where
    signs_up :
        (now : ℕ) (fr : Fresh) (email password full_name : String)
        → exists (λ v. v.id == fr.user_id) w.db.users ≡ false
        → Step w (in_session (signup pf settings now fr email password full_name) w).1
    verifies :
        (now : ℕ) (token : String) → Step w (in_session (verify_email pf settings now token) w).1
    logs_in :
        (now : ℕ) (fr : Fresh) (email password user_agent ip : String)
        → Step w (in_session (login pf settings now fr email password user_agent ip) w).1
    refreshes :
        (now : ℕ) (fr : Fresh) (raw user_agent ip : String)
        → Step w (in_session (refresh pf settings now fr raw user_agent ip) w).1
    logs_out :
        (now : ℕ) (raw : Option String) → Step w (in_session (logout pf settings now raw) w).1
    asks_for_reset :
        (now : ℕ) (fr : Fresh) (email : String)
        → Step w (in_session (start_password_reset pf settings now fr email) w).1
    resets :
        (now : ℕ) (fr : Fresh) (token new_password : String)
        → Step w (in_session (finish_password_reset pf settings now fr token new_password) w).1
    changes_password :
        (now : ℕ) (fr : Fresh) (u : User) (current new : String)
        → Step w (in_session (change_password pf now fr u current new) w).1
    asks_for_change :
        (now : ℕ) (fr : Fresh) (u : User) (new_email current_password : String)
        → Step w (in_session (request_email_change pf now fr u new_email current_password) w).1
    changes_email :
        (now : ℕ) (token : String) → Step w (in_session (confirm_email_change pf now token) w).1
    deletes :
        (u : User) (password confirm_email : String)
        → Step w (in_session (delete_account pf u password confirm_email) w).1
    suspends :
        (now : ℕ) (creds : Option String) (id : ℕ)
        → Step w (in_session (suspend_user pf now creds id) w).1

  -- Requests one after the other.
  pub data History (w : World) : World → Type 0 where
    here : History w w
    next : {u v : World} → History w u → Step u v → History w v

  P : World → Type 0
  P = HasDistinctUsers pf

  session-keeps :
      {A : Type 0} (m : Exec World A) (w : World) → P w → P (m w).1 → P (in_session m w).1
  unfolding in_session P
  session-keeps {A} m w p q = go (m w) q
    where
      go :
          (z : Result A × World)
          → P z.1
          → P
              (elim z.0 as (λ _. Result A × World) [
                | ok a ↦ (ok a, z.1)
                | err e ↦ (err e, record z.1 { db = w.db })
              ]).1
      go (ok a, v) q = q
      go (err e, v) q = p

  Step-keeps : {w v : World} → Step w v → P w → P v
  unfolding P
  Step-keeps (signs_up now fr email password full_name new) p =
      session-keeps _ _ p (signup-keeps pf settings now fr email password full_name _ new p)
  Step-keeps (verifies now token) p =
      session-keeps _ _ p (verify_email-Keeps pf settings now token _ p)
  Step-keeps (logs_in now fr email password user_agent ip) p =
      session-keeps _ _ p (login-Keeps pf settings now fr email password user_agent ip _ p)
  Step-keeps (refreshes now fr raw user_agent ip) p =
      session-keeps _ _ p (refresh-Keeps pf settings now fr raw user_agent ip _ p)
  Step-keeps (logs_out now raw) p = session-keeps _ _ p (logout-Keeps pf settings now raw _ p)
  Step-keeps (asks_for_reset now fr email) p =
      session-keeps _ _ p (start_password_reset-Keeps pf settings now fr email _ p)
  Step-keeps (resets now fr token new_password) p =
      session-keeps _ _ p (finish_password_reset-Keeps pf settings now fr token new_password _ p)
  Step-keeps (changes_password now fr u current new) p =
      session-keeps _ _ p (change_password-Keeps pf now fr u current new _ p)
  Step-keeps (asks_for_change now fr u new_email current_password) p =
      session-keeps _ _ p (request_email_change-Keeps pf now fr u new_email current_password _ p)
  Step-keeps (changes_email now token) p =
      session-keeps _ _ p (confirm_email_change-Keeps pf now token _ p)
  Step-keeps (deletes u password confirm_email) p =
      session-keeps _ _ p (delete_account-Keeps pf u password confirm_email _ p)
  Step-keeps (suspends now creds id) p =
      session-keeps _ _ p (suspend_user-Keeps pf now creds id _ p)

  -- After any requests, in any order and whether they succeed or raise, no two accounts have the same
  -- id or the same address but for its case, if none had before and each signup draws a new id.
  pub History-HasDistinctUsers :
      {w v : World} → History w v → HasDistinctUsers pf w → HasDistinctUsers pf v
  unfolding P
  History-HasDistinctUsers here p = p
  History-HasDistinctUsers (next h s) p = Step-keeps s (History-HasDistinctUsers h p)
