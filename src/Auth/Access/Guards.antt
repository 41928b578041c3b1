-- ===== src/Auth/Access/Guards.antt =====
-- The guards of security/deps.py and the suspension of routers/admin.py.
use mathlib.Core.Bool.{false≢true}
use recruit_me.Prelude.{
  ℕ, ◌+◌, ◌<◌, ◌≤◌, leb, ◌≡◌, ◌≢◌, refl, sym, ap, ◌∙◌, String, true, false, not, Option, none, some,
  ◌==◌, [], ◌∷◌, arith, ltb, find-update_where-some, some_inj, find_holds,
}
use recruit_me.Errors.{auth_error, forbidden_error, AppError, Exec, ◌>>=◌, Result, ok, err}
use recruit_me.Errors.Inversion.{
  bind-eq-ok, bind-ok, or_raise-eq-ok, raise_if-eq-ok, modify-eq-ok, gets-eq, gets-bind,
  ok-injective, or_raise-some, raise_if-false, raise_if-true,
}
use recruit_me.Auth.State.{
  User, UserRole, user, admin, RefreshToken, World, Fresh, Platform, Settings, is_suspended,
  role_value, plan_value,
}
use recruit_me.Security.Jwt.{AccessClaims, access_payload, claims_of, decode_access_token}
use recruit_me.Security.Jwt.Laws.{decode_access_token-create_access_token}
use recruit_me.Auth.Rows.{user_by_id, user_by_email, refresh_token_by_raw}
use recruit_me.Auth.Service.{Session, login, access_for, refresh}
use recruit_me.Auth.Service.Login.{login_sound}
use recruit_me.Auth.Service.Rotation.{refresh_rotates}
use recruit_me.Auth.Access.{
  from_result, get_current_user, require_role, listed_role, suspend_user, suspend,
}

-- What a request that passed `get_current_user` has shown.
pub record IsKnown (pf : Platform) (now : ℕ) (creds : Option String) (w : World) (u : User)
    : Type 0 where
  pub token : String
  pub claims : AccessClaims
  pub id : ℕ
  pub given : creds ≡ some token
  pub decoded : decode_access_token pf.jwt pf.keys now token ≡ ok claims
  pub subject : pf.parse_uuid claims.sub ≡ some id
  pub found : user_by_id id w ≡ some u
  pub welcome : is_suspended u.status ≡ false

err-ne-ok : {B : Type 0} {e : AppError} {b : B} → err e ≢ ok b
err-ne-ok h = cc

from_result-eq-ok :
    {A B : Type 0} (r : Result A) (k : A → Exec World B) (w w' : World) (b : B)
    → (from_result r >>= k) w ≡ (ok b, w')
    → (a : A) × (r ≡ ok a) × (k a w ≡ (ok b, w'))
unfolding ◌>>=◌
from_result-eq-ok (ok a) k w w' b h = (a, refl, h)
from_result-eq-ok {A} {B} (err e) k w w' b h =
    absurd (err-ne-ok (ap (λ (z : Result B × World). z.0) h))

get_current_user-eq-ok :
    (pf : Platform) (now : ℕ) (creds : Option String) (w w' : World) (u : User)
    → get_current_user pf now creds w ≡ (ok u, w')
    → IsKnown pf now creds w u × (w' ≡ w)
unfolding get_current_user
get_current_user-eq-ok pf now creds w w' u h =
    let (token, given, h1) = or_raise-eq-ok _ _ _ h in
    let (claims, decoded, h2) = from_result-eq-ok _ _ _ _ _ h1 in
    let (id, subject, h3) = or_raise-eq-ok _ _ _ h2 in
    let (v, found, h4) = or_raise-eq-ok _ _ _ (gets-eq (user_by_id id) _ h3) in
    let (welcome, h5) = raise_if-eq-ok _ _ _ h4 in
    let same = ok-injective (ap (λ (z : Result User × World). z.0) h5) in
    (
      record {
        token = token;
        claims = claims;
        id = id;
        given = given;
        decoded = decoded;
        subject = subject;
        found = found ∙ ap some same;
        welcome = ap (λ (x : User). is_suspended x.status) (sym same) ∙ welcome;
      },
      ap (λ (z : Result User × World). z.1) (sym h5),
    )

leb_of_le : {a b : ℕ} → a ≤ b → leb a b ≡ true
leb_of_le h = ground arith

ltb_of_lt : {a b : ℕ} → a < b → ltb a b ≡ true
ltb_of_lt h = ground arith

-- The access token of a login, made and read by jwt.py, stands for its account from the login until it expires, and gives exactly the
-- account that logged in, if that account is the one under its id.
pub login-get_current_user :
    (pf : Platform) (settings : Settings) (now later : ℕ) (fr : Fresh)
    (email password user_agent ip : String) (w w' : World) (s : Session)
    → login pf settings now fr email password user_agent ip w ≡ (ok s, w')
    → now ≤ later
    → later < now + settings.jwt.access_token_ttl_seconds
    → ((u : User) → user_by_email pf email w ≡ some u → user_by_id u.id w ≡ some u)
    → (u : User) × (user_by_email pf email w ≡ some u)
      × (get_current_user pf later (some s.access) w' ≡ (ok u, w'))
unfolding get_current_user access_for
login-get_current_user pf settings now later fr email password user_agent ip w w' s h after early
      keyed =
    let done = login_sound pf settings now fr email password user_agent ip w w' s h in
    let u = done.user in
    let claims = claims_of (
      access_payload settings.jwt now (pf.jti now) (pf.uuid_text u.id) (role_value u.role)
        (plan_value u.plan) none) in
    let decoded : decode_access_token pf.jwt pf.keys later s.access ≡ ok claims =
      ap (decode_access_token pf.jwt pf.keys later) done.access
      ∙ decode_access_token-create_access_token pf.jwt settings.jwt pf.keys now later (pf.jti now)
          (pf.uuid_text u.id) (role_value u.role) (plan_value u.plan) none pf.keys-is_pair
      ∙ rw (leb_of_le after, ltb_of_lt early) refl in
    let found : user_by_id u.id w' ≡ some u = rw done.users (keyed u done.found) in
    (
      u,
      done.found,
      or_raise-some (some s.access) (auth_error "not authenticated") _ s.access refl
          ∙ bind-ok {v = w'} (from_result (decode_access_token pf.jwt pf.keys later s.access)) _
              claims (ap (λ r. (r, w')) decoded)
          ∙ or_raise-some (pf.parse_uuid claims.sub) _ _ u.id (pf.parse-text u.id)
          ∙ gets-bind (user_by_id u.id) _
          ∙ or_raise-some (user_by_id u.id w') _ _ u found
          ∙ raise_if-false _ _ _ done.welcome,
    )

is_admin_of : (r : UserRole) → not (listed_role r (admin ∷ [])) ≡ false → r ≡ admin
unfolding listed_role
is_admin_of user e = cc
is_admin_of admin e = refl

-- What a suspension that went through has checked and changed.
pub record IsSuspension (pf : Platform) (now : ℕ) (creds : Option String) (id : ℕ) (w w' : World)
    : Type 0 where
  pub by : User
  pub known : IsKnown pf now creds w by
  pub administrator : by.role ≡ admin
  pub target : User
  pub found : user_by_id id w ≡ some target
  pub now_suspended : user_by_id id w' ≡ some (suspend target)

-- Only an administrator who is not suspended suspends an account, and the account is then suspended.
pub suspend_user_sound :
    (pf : Platform) (now : ℕ) (creds : Option String) (id : ℕ) (w w' : World) (u : User)
    → suspend_user pf now creds id w ≡ (ok u, w')
    → IsSuspension pf now creds id w w'
unfolding suspend_user require_role
suspend_user_sound pf now creds id w w' u h =
    let (_, v, required, h1) = bind-eq-ok _ _ h in
    let (by, v', known, h2) = bind-eq-ok _ _ required in
    let (is_known, same') = get_current_user-eq-ok pf now creds w v' by known in
    let (listed, h3) = raise_if-eq-ok _ _ _ h2 in
    let same : v ≡ w = ap (λ (z : Result User × World). z.1) (sym h3) ∙ same' in
    let (target, found, h4) = or_raise-eq-ok _ _ _ (gets-eq (user_by_id id) _ h1) in
    let h5 = modify-eq-ok _ _ h4 in
    let found_w : user_by_id id w ≡ some target = ap (user_by_id id) (sym same) ∙ found in
    record {
      by = by;
      known = is_known;
      administrator = is_admin_of by.role listed;
      target = target;
      found = found_w;
      now_suspended =
          ap (λ (z : Result User × World). user_by_id id z.1) (sym h5)
          ∙ find-update_where-some _ (λ x. x.id == id) suspend v.db.users target (λ x. refl) found
              (find_holds (λ x. x.id == id) v.db.users target found);
    }

-- Once suspended, an account is refused whatever access token it still holds.
pub suspended_is_denied :
    (pf : Platform) (now later : ℕ) (creds : Option String) (id : ℕ) (token : String)
    (claims : AccessClaims) (w w' : World) (u : User)
    → suspend_user pf now creds id w ≡ (ok u, w')
    → decode_access_token pf.jwt pf.keys later token ≡ ok claims
    → pf.parse_uuid claims.sub ≡ some id
    → get_current_user pf later (some token) w'
      ≡ (err (forbidden_error "this account is suspended"), w')
unfolding get_current_user
suspended_is_denied pf now later creds id token claims w w' u h decoded subject =
    let done = suspend_user_sound pf now creds id w w' u h in
    or_raise-some (some token) (auth_error "not authenticated") _ token refl
    ∙ bind-ok {v = w'} (from_result (decode_access_token pf.jwt pf.keys later token)) _ claims
        (ap (λ r. (r, w')) decoded)
    ∙ or_raise-some (pf.parse_uuid claims.sub) _ _ id subject
    ∙ gets-bind (user_by_id id) _
    ∙ or_raise-some (user_by_id id w') _ _ (suspend done.target) done.now_suspended
    ∙ raise_if-true _ _ _ refl

-- Once suspended, an account cannot exchange a refresh token that it still holds.
pub suspended_cannot_refresh :
    (pf : Platform) (settings : Settings) (now later : ℕ) (creds : Option String) (id : ℕ)
    (fr : Fresh) (raw user_agent ip : String) (w w' v : World) (u : User) (row : RefreshToken)
    (s : Session)
    → suspend_user pf now creds id w ≡ (ok u, w')
    → refresh_token_by_raw pf raw w' ≡ some row
    → row.user_id ≡ id
    → refresh pf settings later fr raw user_agent ip w' ≢ (ok s, v)
suspended_cannot_refresh pf settings now later creds id fr raw user_agent ip w w' v u row s h e
      owner r =
    let done = suspend_user_sound pf now creds id w w' u h in
    let rotated = refresh_rotates pf settings later fr raw user_agent ip w' v s r in
    let same_row : rotated.row ≡ row = some_inj (sym rotated.found ∙ e) in
    let same_user : rotated.user ≡ suspend done.target = some_inj (
      sym rotated.owner
      ∙ ap (λ (t : RefreshToken). user_by_id t.user_id w') same_row
      ∙ ap (λ n. user_by_id n w') owner
      ∙ done.now_suspended) in
    false≢true (sym rotated.welcome ∙ ap (λ (x : User). is_suspended x.status) same_user)
