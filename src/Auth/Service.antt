-- ===== src/Auth/Service.antt =====
-- backend/src/recruit_api/services/auth_service.py, each method as an action on the tables. All
-- the `_now()` of one call are one time.
pub mod Emails
pub mod Rotation
pub mod Tokens
pub mod Login
pub mod Tests
use recruit_me.Prelude.{
  ℕ, ◌+◌, ◌*◌, String, Bool, true, false, ◌&&◌, ◌||◌, not, Option, none, some, List, [], ◌∷◌, ◌++◌,
  ◌==◌, leb, if◌then◌else◌, find, exists, update_where, str_eq, prefix,
}
use recruit_me.Errors.{
  AppError, auth_error, forbidden_error, email_taken, integrity_error, Result, ok, err, Exec, pure,
  raise, gets, or_raise, raise_if, modify, ◌>>=◌, ◌>>◌,
}
use recruit_me.Auth.State.{
  User, UserRole, UserPlan, UserStatus, RefreshToken, OneTimeToken, Tables, World, Mail, Fresh,
  Platform, Settings, same_email, is_suspended, is_set, role_value, plan_value,
}
use recruit_me.Security.Jwt.{create_access_token}
use recruit_me.Auth.Rows.{
  some_row, user_by_id, user_by_email, is_pending, write_user, write_refresh_token, is_live_of,
  revoke_at, revoke_all_refresh_tokens, send, is_spent, mark_used, refresh_token_by_raw, add_user,
  add_verification_token, add_reset_token, add_refresh_token,
}

abbrev pub hours : ℕ → ℕ
hours n = n * 3600

-- An access token, a raw refresh token, and the seconds for which the first is valid.
pub record Session : Type 0 where
  pub access : String
  pub refresh_token : String
  pub ttl : ℕ

module _ (pf : Platform) (settings : Settings) where
  open pf use {sha256, hash_password, verify_password, uuid_text}

  abbrev pub new_user : Fresh → String → String → String → User
  new_user fr email password full_name = record {
    id = fr.user_id;
    email = email;
    password_hash = hash_password fr.salt password;
    full_name = full_name;
    role = UserRole.user;
    plan = UserPlan.free;
    status = UserStatus.pending_verification;
  }

  pub signup : ℕ → Fresh → String → String → String → Exec World User
  signup now fr email password full_name = do
    existing ← gets (user_by_email pf email)
    raise_if (some_row existing) email_taken
    add_user pf (new_user fr email password full_name)
    add_verification_token (record {
      id = fr.token_id;
      user_id = fr.user_id;
      token_hash = sha256 fr.raw;
      expires_at = now + hours 24;
      used_at = none;
    })
    send (record {
      to = email;
      subject = "Confirm your Recruit-ME email";
      link_path = "/verify?token=";
      token = fr.raw;
    })
    pure (new_user fr email password full_name)

  pub verify_email : ℕ → String → Exec World Unit
  verify_email now token = do
    found ← gets (λ w. find (λ t. str_eq t.token_hash (sha256 token)) w.db.verification_tokens)
    row ← or_raise found (auth_error "invalid or expired verification token")
    raise_if (is_spent now row) (auth_error "invalid or expired verification token")
    modify (
        write_user row.user_id
          λ u. if is_pending u.status then record u { status = UserStatus.active } else u)
    modify λ w. record w {
      db = record w.db {
        verification_tokens =
            update_where (λ t. t.id == row.id) (mark_used now) w.db.verification_tokens;
      };
    }

  -- `_access_for`
  unfoldable pub access_for : ℕ → User → String
  access_for now u =
      create_access_token pf.jwt settings.jwt pf.keys now (pf.jti now) (uuid_text u.id)
        (role_value u.role) (plan_value u.plan) none

  abbrev pub new_refresh_token : ℕ → Fresh → ℕ → String → String → Option ℕ → RefreshToken
  new_refresh_token now fr user_id user_agent ip rotated_from_id = record {
    id = fr.token_id;
    user_id = user_id;
    token_hash = sha256 fr.raw;
    expires_at = now + settings.refresh_token_ttl_seconds;
    revoked_at = none;
    rotated_from_id = rotated_from_id;
    user_agent = prefix 400 user_agent;
    ip = prefix 64 ip;
  }

  -- `_issue_refresh`
  pub issue_refresh : ℕ → Fresh → User → String → String → Option ℕ → Exec World String
  issue_refresh now fr u user_agent ip rotated_from_id = do
    add_refresh_token (new_refresh_token now fr u.id user_agent ip rotated_from_id)
    pure fr.raw

  pub login : ℕ → Fresh → String → String → String → String → Exec World Session
  login now fr email password user_agent ip = do
    found ← gets (user_by_email pf email)
    u ← or_raise found (auth_error "invalid email or password")
    raise_if (not (verify_password password u.password_hash))
        (auth_error "invalid email or password")
    raise_if (is_suspended u.status) (forbidden_error "this account is suspended")
    raw ← issue_refresh now fr u user_agent ip none
    pure (record {
      access = access_for now u;
      refresh_token = raw;
      ttl = settings.jwt.access_token_ttl_seconds;
    })

  -- The part of `refresh` for a token that is not revoked.
  pub rotate : ℕ → Fresh → RefreshToken → String → String → Exec World Session
  rotate now fr row user_agent ip = do
    raise_if (leb row.expires_at now) (auth_error "refresh token expired")
    found ← gets (user_by_id row.user_id)
    u ← or_raise found (forbidden_error "account unavailable")
    raise_if (is_suspended u.status) (forbidden_error "account unavailable")
    modify (write_refresh_token row.id (revoke_at now))
    raw ← issue_refresh now fr u user_agent ip (some row.id)
    pure (record {
      access = access_for now u;
      refresh_token = raw;
      ttl = settings.jwt.access_token_ttl_seconds;
    })

  -- A revoked token is taken for stolen: all sessions of its user are revoked.
  pub reuse_detected : ℕ → RefreshToken → Exec World Session
  reuse_detected now row = do
    revoke_all_refresh_tokens now row.user_id
    raise (auth_error "refresh token reuse detected; all sessions revoked")

  pub refresh : ℕ → Fresh → String → String → String → Exec World Session
  refresh now fr raw user_agent ip = do
    found ← gets (refresh_token_by_raw pf raw)
    row ← or_raise found (auth_error "invalid refresh token")
    if is_set row.revoked_at then reuse_detected now row else rotate now fr row user_agent ip

  -- `if not raw: return`: also for an empty cookie
  pub logout : ℕ → Option String → Exec World Unit
  logout now none = pure tt
  logout now (some raw) = if str_eq raw "" then pure tt else do
    found ← gets (refresh_token_by_raw pf raw)
    modify λ w. elim found [
      | none ↦ w
      | some row ↦ if is_set row.revoked_at then w else write_refresh_token row.id (revoke_at now) w
    ]

  pub start_password_reset : ℕ → Fresh → String → Exec World Unit
  start_password_reset now fr email = do
    found ← gets (user_by_email pf email)
    elim found [
      | none ↦ pure tt
      | some u ↦ do
        add_reset_token (record {
          id = fr.token_id;
          user_id = u.id;
          token_hash = sha256 fr.raw;
          expires_at = now + hours 1;
          used_at = none;
        })
        send (record {
          to = u.email;
          subject = "Reset your Recruit-ME password";
          link_path = "/reset?token=";
          token = fr.raw;
        })
    ]

  pub finish_password_reset : ℕ → Fresh → String → String → Exec World Unit
  finish_password_reset now fr token new_password = do
    found ← gets (λ w. find (λ t. str_eq t.token_hash (sha256 token)) w.db.reset_tokens)
    row ← or_raise found (auth_error "invalid or expired reset token")
    raise_if (is_spent now row) (auth_error "invalid or expired reset token")
    owner ← gets (user_by_id row.user_id)
    u ← or_raise owner (auth_error "invalid or expired reset token")
    modify (write_user u.id λ v. record v { password_hash = hash_password fr.salt new_password })
    modify λ w. record w {
      db = record w.db {
        reset_tokens = update_where (λ t. t.id == row.id) (mark_used now) w.db.reset_tokens;
      };
    }
    revoke_all_refresh_tokens now u.id
