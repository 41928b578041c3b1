-- ===== src/Auth/State.antt =====
-- The rows of models/user.py and models/auth.py, the tables of the account services, and what the
-- services take from elsewhere. An id is the number that a UUID stands for, a time is in seconds.
use recruit_me.Prelude.{ℕ, ◌≡◌, String, Bool, true, false, Option, none, some, List, str_eq}
use recruit_me.Errors.{ok, err, Exec}
use recruit_me.Security.Jwt.{PyJwt, JwtSettings}

pub data UserRole : Type 0 where
  user admin : UserRole

pub data UserPlan : Type 0 where
  free pro : UserPlan

pub data UserStatus : Type 0 where
  pending_verification active suspended : UserStatus

pub record User : Type 0 where
  pub id : ℕ
  pub email : String
  pub password_hash : String
  pub full_name : String
  pub role : UserRole
  pub plan : UserPlan
  pub status : UserStatus

pub record RefreshToken : Type 0 where
  pub id : ℕ
  pub user_id : ℕ
  pub token_hash : String
  pub expires_at : ℕ
  pub revoked_at : Option ℕ
  pub rotated_from_id : Option ℕ
  pub user_agent : String
  pub ip : String

-- `RefreshToken.is_active`
pub is_active : RefreshToken → Bool
is_active t = elim t.revoked_at [ none ↦ true | some _ ↦ false ]

-- `EmailVerificationToken` and `PasswordResetToken` have the same columns.
pub record OneTimeToken : Type 0 where
  pub id : ℕ
  pub user_id : ℕ
  pub token_hash : String
  pub expires_at : ℕ
  pub used_at : Option ℕ

pub record EmailChangeToken : Type 0 where
  pub id : ℕ
  pub user_id : ℕ
  pub new_email : String
  pub token_hash : String
  pub expires_at : ℕ
  pub used_at : Option ℕ

-- The tables outside the accounts whose rows name a user, all `ondelete="CASCADE"`; the rows that name
-- a run or a résumé go with it.
pub data OwnedTable : Type 0 where
  job_profiles resumes runs job_matches site_credentials notifications : OwnedTable

pub record OwnedRow : Type 0 where
  pub table : OwnedTable
  pub id : ℕ
  pub user_id : ℕ

-- The tables that the account services read and write, and what a deletion of a user cascades to.
pub record Tables : Type 0 where
  pub users : List User
  pub refresh_tokens : List RefreshToken
  pub verification_tokens : List OneTimeToken
  pub reset_tokens : List OneTimeToken
  pub change_tokens : List EmailChangeToken
  pub owned : List OwnedRow

pub record Mail : Type 0 where
  pub to : String
  pub subject : String
  pub link_path : String
  pub token : String

-- The session's view of the tables, the mails handed to the sender, and the keys of the objects.
pub record World : Type 0 where
  pub db : Tables
  pub sent : List Mail
  pub objects : List String

-- `get_db`: a request that returns is committed, and one that raises is rolled back. Mails and
-- objects are outside the transaction.
unfoldable pub in_session : {A : Type 0} → Exec World A → Exec World A
in_session m w =
    let (r, w') = m w in elim r [ ok a ↦ (ok a, w') | err e ↦ (err e, record w' { db = w.db }) ]

-- Random values of one request: the ids of the rows that it adds, a raw token, a password salt.
pub record Fresh : Type 0 where
  pub user_id : ℕ
  pub token_id : ℕ
  pub raw : String
  pub salt : ℕ

-- hashlib, argon2, PyJWT, uuid and CITEXT, with what the code relies on. `keys` is what `_keypair`
-- keeps, and `jti` the `uuid4` that a call at a time draws.
pub record Platform : Type 0 where
  pub sha256 : String → String
  pub hash_password : ℕ → String → String
  pub verify_password : String → String → Bool
  pub lower : String → String
  pub uuid_text : ℕ → String
  pub parse_uuid : String → Option ℕ
  pub jwt : PyJwt String
  pub keys : String × String
  pub jti : ℕ → String
  pub verify-hash :
      (salt : ℕ) (plain : String) → verify_password plain (hash_password salt plain) ≡ true
  pub parse-text : (n : ℕ) → parse_uuid (uuid_text n) ≡ some n
  pub keys-is_pair : jwt.is_pair keys.0 keys.1 ≡ true

pub record Settings : Type 0 where
  pub jwt : JwtSettings
  pub refresh_token_ttl_seconds : ℕ

-- `user.role.value`
abbrev pub role_value : UserRole → String
role_value user = "user"
role_value admin = "admin"

-- `user.plan.value`
abbrev pub plan_value : UserPlan → String
plan_value free = "free"
plan_value pro = "pro"

-- `==` on a CITEXT column
abbrev pub same_email : Platform → String → String → Bool
same_email pf a b = str_eq (pf.lower a) (pf.lower b)

abbrev pub is_suspended : UserStatus → Bool
is_suspended suspended = true
is_suspended _ = false

-- `x is not None`
abbrev pub is_set : Option ℕ → Bool
is_set none = false
is_set (some _) = true
