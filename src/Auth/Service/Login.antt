-- ===== src/Auth/Service/Login.antt =====
-- Signup and login of auth_service.py.
use recruit_me.Prelude.{
  ℕ, ◌≡◌, refl, sym, ap, ◌∙◌, String, true, false, not, none, some, [], ◌∷◌, ◌++◌, arith, find,
  exists, str_eq, eq_refl, find-single, find-append-none, find-none_of_exists,
}
use recruit_me.Errors.{auth_error, Result, ok, err, ◌>>=◌}
use recruit_me.Errors.Inversion.{
  bind-eq-ok, or_raise-eq-ok, raise_if-eq-ok, modify-eq-ok, gets-eq, ok-injective,
  unless_taken-eq-ok, or_raise-some, raise_if-false, bind-ok,
}
use recruit_me.Auth.State.{
  User, RefreshToken, World, Fresh, Platform, Settings, is_suspended, is_set, same_email,
}
use recruit_me.Auth.Rows.{
  user_by_email, refresh_token_by_raw, add_user, add_verification_token, send,
}
use recruit_me.Auth.Service.{
  Session, signup, login, access_for, issue_refresh, new_user, new_refresh_token,
}
use recruit_me.Auth.Service.Rotation.{IsUnused, issue_refresh-eq-ok, issue_refresh_unused}

-- What a successful login has checked and stored.
pub record IsLoggedIn (pf : Platform) (settings : Settings) (now : ℕ) (fr : Fresh)
    (email password : String) (w w' : World) (s : Session) : Type 0 where
  pub user : User
  pub found : user_by_email pf email w ≡ some user
  pub password_matches : pf.verify_password password user.password_hash ≡ true
  pub welcome : is_suspended user.status ≡ false
  pub users : w'.db.users ≡ w.db.users
  pub handed_out : s.refresh_token ≡ fr.raw
  pub access : s.access ≡ access_for pf settings now user
  pub token : RefreshToken
  pub stored : refresh_token_by_raw pf fr.raw w' ≡ some token
  pub owner : token.user_id ≡ user.id
  pub live : is_set token.revoked_at ≡ false

issued_token :
    (pf : Platform) (fr : Fresh) (w : World) (new : RefreshToken)
    → IsUnused pf fr w
    → new.token_hash ≡ pf.sha256 fr.raw
    → find (λ t. str_eq t.token_hash (pf.sha256 fr.raw)) (w.db.refresh_tokens ++ new ∷ [])
      ≡ some new
issued_token pf fr w new unused hash =
    let p = λ (t : RefreshToken). str_eq t.token_hash (pf.sha256 fr.raw) in
    find-append-none p w.db.refresh_tokens (new ∷ []) (find-none_of_exists p _ unused)
    ∙ find-single p new (rw hash (eq_refl (pf.sha256 fr.raw)))

-- A session is handed out only to an account with that email address, the right password and no
-- suspension; its refresh token is then stored, live, for that account.
pub login_sound :
    (pf : Platform) (settings : Settings) (now : ℕ) (fr : Fresh)
    (email password user_agent ip : String) (w w' : World) (s : Session)
    → login pf settings now fr email password user_agent ip w ≡ (ok s, w')
    → IsLoggedIn pf settings now fr email password w w' s
unfolding login refresh_token_by_raw
login_sound pf settings now fr email password user_agent ip w w' s h =
    let (user, found, h1) = or_raise-eq-ok _ _ _ (gets-eq (user_by_email pf email) _ h) in
    let (matches, h2) = raise_if-eq-ok _ _ _ h1 in
    let (welcome, h3) = raise_if-eq-ok _ _ _ h2 in
    let (raw, v, issued, h4) = bind-eq-ok _ _ h3 in
    let (unused, added, same) =
      issue_refresh-eq-ok pf settings now fr user user_agent ip none w v raw issued in
    let world : w' ≡ v = ap (λ (z : Result Session × World). z.1) (sym h4) in
    let session = ok-injective (ap (λ (z : Result Session × World). z.0) h4) in
    let token = new_refresh_token pf settings now fr user.id user_agent ip none in
    record {
      user = user;
      found = found;
      password_matches = ground arith;
      welcome = welcome;
      users = rw (world, added) refl;
      handed_out = ap (λ (x : Session). x.refresh_token) (sym session) ∙ same;
      access = ap (λ (x : Session). x.access) (sym session);
      token = token;
      stored = rw (world, added) (issued_token pf fr w token unused refl);
      owner = refl;
      live = refl;
    }

-- An unknown address and a wrong password get the same answer, and neither changes anything.
pub login_hides :
    (pf : Platform) (settings : Settings) (now : ℕ) (fr : Fresh)
    (known unknown password user_agent ip : String) (w : World) (user : User)
    → user_by_email pf known w ≡ some user
    → pf.verify_password password user.password_hash ≡ false
    → user_by_email pf unknown w ≡ none
    → (login pf settings now fr known password user_agent ip w
        ≡ (err (auth_error "invalid email or password"), w))
      × (login pf settings now fr unknown password user_agent ip w
          ≡ (err (auth_error "invalid email or password"), w))
unfolding login ◌>>=◌
login_hides pf settings now fr known unknown password user_agent ip w user found wrong absent =
    (rw (found, wrong) refl, rw absent refl)

-- What a successful signup stored.
pub record IsSignedUp (pf : Platform) (settings : Settings) (fr : Fresh)
    (email password full_name : String) (w w' : World) : Type 0 where
  pub free : exists (λ v. same_email pf v.email email) w.db.users ≡ false
  pub users : w'.db.users ≡ w.db.users ++ new_user pf settings fr email password full_name ∷ []
  pub refresh_tokens : w'.db.refresh_tokens ≡ w.db.refresh_tokens

signup_stores :
    (pf : Platform) (settings : Settings) (now : ℕ) (fr : Fresh) (email password full_name : String)
    (w w' : World) (u : User)
    → signup pf settings now fr email password full_name w ≡ (ok u, w')
    → IsSignedUp pf settings fr email password full_name w w'
unfolding signup add_user add_verification_token send
signup_stores pf settings now fr email password full_name w w' u h =
    let (_, h1) = raise_if-eq-ok _ _ _ (gets-eq (user_by_email pf email) _ h) in
    let (_, v, added, h2) = bind-eq-ok _ _ h1 in
    let (free, with_user) = unless_taken-eq-ok _ _ w v added in
    let (_, v', added', h3) = bind-eq-ok _ _ h2 in
    let (_, with_token) = unless_taken-eq-ok _ _ v v' added' in
    let h4 = modify-eq-ok _ _ h3 in
    let world = ap (λ (z : Result User × World). z.1.db) (sym h4) in
    record {
      free = free;
      users = ap (λ t. t.users) world ∙ rw (with_token, with_user) refl;
      refresh_tokens = ap (λ t. t.refresh_tokens) world ∙ rw (with_token, with_user) refl;
    }

-- Whoever has just signed up can log in with that address and password, before the address is
-- verified, if the raw refresh token that is drawn then is new.
pub signup-login :
    (pf : Platform) (settings : Settings) (now later : ℕ) (fr fr' : Fresh)
    (email password full_name user_agent ip : String) (w w' : World) (u : User)
    → signup pf settings now fr email password full_name w ≡ (ok u, w')
    → IsUnused pf fr' w'
    → (s : Session) × (v : World) × (login pf settings later fr' email password user_agent ip w'
        ≡ (ok s, v))
      × (s.access ≡ access_for pf settings later (new_user pf settings fr email password full_name))
unfolding login ◌>>=◌
signup-login pf settings now later fr fr' email password full_name user_agent ip w w' u h unused =
    let done = signup_stores pf settings now fr email password full_name w w' u h in
    let user = new_user pf settings fr email password full_name in
    let p = λ (v : User). same_email pf v.email email in
    let found : user_by_email pf email w' ≡ some user = rw done.users (
      find-append-none p w.db.users (user ∷ []) (find-none_of_exists p _ done.free)
      ∙ find-single p user (eq_refl (pf.lower email))) in
    let token = new_refresh_token pf settings later fr' user.id user_agent ip none in
    (
      record {
        access = access_for pf settings later user;
        refresh_token = fr'.raw;
        ttl = settings.jwt.access_token_ttl_seconds;
      },
      record w' { db = record w'.db { refresh_tokens = w'.db.refresh_tokens ++ token ∷ [] } },
      or_raise-some (user_by_email pf email w') _ _ user found
          ∙ raise_if-false _ _ _ (ap not (pf.verify-hash fr.salt password))
          ∙ bind-ok (issue_refresh pf settings later fr' user user_agent ip none) _ fr'.raw
              (issue_refresh_unused pf settings later fr' user user_agent ip none w' unused),
      refl,
    )
