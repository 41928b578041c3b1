-- ===== src/Auth/Access.antt =====
-- backend/src/recruit_api/security/deps.py (the current user, role and plan guards) and the
-- suspension of routers/admin.py.
pub mod Emails
pub mod Guards
mod Tests
use recruit_me.Prelude.{
  ℕ, String, Bool, true, false, ◌||◌, not, Option, none, some, List, [], ◌∷◌, ◌==◌, if◌then◌else◌,
}
use recruit_me.Errors.{
  auth_error, forbidden_error, not_found_error, Result, Exec, pure, gets, or_raise, raise_if,
  modify, ◌>>=◌, ◌>>◌,
}
use recruit_me.Auth.State.{
  User, UserRole, user, admin, UserPlan, free, pro, UserStatus, World, Platform, is_suspended,
}
use recruit_me.Auth.Rows.{user_by_id, write_user}
use recruit_me.Security.Jwt.{decode_access_token}

-- A call outside the session that returns or raises.
abbrev pub from_result : {A : Type 0} → Result A → Exec World A
from_result r w = (r, w)

abbrev pub same_role : UserRole → UserRole → Bool
same_role user user = true
same_role admin admin = true
same_role _ _ = false

abbrev pub same_plan : UserPlan → UserPlan → Bool
same_plan free free = true
same_plan pro pro = true
same_plan _ _ = false

module _ (pf : Platform) where
  -- `get_current_user`, with the bearer token if there is one
  unfoldable pub get_current_user : ℕ → Option String → Exec World User
  get_current_user now creds = do
    token ← or_raise creds (auth_error "not authenticated")
    claims ← from_result (decode_access_token pf.jwt pf.keys now token)
    id ← or_raise (pf.parse_uuid claims.sub) (auth_error "invalid token subject")
    found ← gets (user_by_id id)
    u ← or_raise found (auth_error "account no longer exists")
    raise_if (is_suspended u.status) (forbidden_error "this account is suspended")
    pure u

listed_role : UserRole → List UserRole → Bool
listed_role r [] = false
listed_role r (q ∷ qs) = same_role r q || listed_role r qs

listed_plan : UserPlan → List UserPlan → Bool
listed_plan r [] = false
listed_plan r (q ∷ qs) = same_plan r q || listed_plan r qs

-- `require_role(*roles)`, after `get_current_user`
pub require_role : Platform → List UserRole → ℕ → Option String → Exec World User
unfolding listed_role
require_role pf roles now creds = do
  u ← get_current_user pf now creds
  raise_if (not (listed_role u.role roles)) (forbidden_error "insufficient role")
  pure u

-- `require_plan(*plans)`
pub require_plan : Platform → List UserPlan → ℕ → Option String → Exec World User
unfolding listed_plan
require_plan pf plans now creds = do
  u ← get_current_user pf now creds
  raise_if (not (listed_plan u.plan plans)) (forbidden_error "upgrade required")
  pure u

abbrev pub suspend : User → User
suspend u = record u { status = UserStatus.suspended }

-- `suspend_user`, behind `require_role("admin")`
pub suspend_user : Platform → ℕ → Option String → ℕ → Exec World User
suspend_user pf now creds id = do
  require_role pf (admin ∷ []) now creds
  found ← gets (user_by_id id)
  u ← or_raise found (not_found_error "user not found")
  modify (write_user id suspend)
  pure (suspend u)
