-- ===== src/Auth/Service/Rotation.antt =====
-- Refresh tokens of auth_service.py: `refresh` and its two parts.
use recruit_me.Prelude.{
  ℕ, ◌+◌, ◌<◌, ◌≡◌, refl, sym, ap, ◌∙◌, ◌≢◌, String, true, false, Option, some, [], ◌∷◌, ◌++◌, ◌==◌,
  arith, exists, update_where, str_eq, eq_refl, inl, inr, Bool-cases, All, All-of_update_where,
  find_holds, find-single, find-update_where-some, ==-refl, find-append-some, find-append-none,
  find-none_of_exists, exists-update_where,
}
use recruit_me.Errors.{AppError, auth_error, Result, ok, err, ◌>>=◌}
use recruit_me.Errors.Inversion.{
  bind-eq-ok, or_raise-eq-ok, raise_if-eq-ok, modify-eq-ok, gets-eq, ok-injective,
  unless_taken-eq-ok, bind-ok, unless_taken-false,
}
use recruit_me.Auth.State.{
  User, RefreshToken, World, Fresh, Platform, Settings, in_session, is_set, is_suspended,
}
use recruit_me.Auth.Rows.{
  revoke_all_refresh_tokens, revoke_at, is_live_of, add_refresh_token, user_by_id,
  refresh_token_by_raw,
}
use recruit_me.Auth.Service.{
  Session, refresh, rotate, reuse_detected, issue_refresh, new_refresh_token,
}

abbrev pub reuse_error : AppError
reuse_error = auth_error "refresh token reuse detected; all sessions revoked"

-- No stored refresh token has the hash of the raw token that is drawn.
abbrev pub IsUnused : Platform → Fresh → World → Type 0
IsUnused pf fr w =
    exists (λ (t : RefreshToken). str_eq t.token_hash (pf.sha256 fr.raw)) w.db.refresh_tokens
    ≡ false

module _ (pf : Platform) (settings : Settings) where
  refresh_of_revoked :
      (now : ℕ) (fr : Fresh) (raw user_agent ip : String) (w : World) (row : RefreshToken)
      → refresh_token_by_raw pf raw w ≡ some row
      → is_set row.revoked_at ≡ true
      → refresh pf settings now fr raw user_agent ip w
        ≡ (err reuse_error, (revoke_all_refresh_tokens now row.user_id w).1)
  unfolding refresh reuse_detected revoke_all_refresh_tokens ◌>>=◌
  refresh_of_revoked now fr raw user_agent ip w row e revoked = rw (e, revoked) refl

-- In the session, a token that was already rotated or revoked is refused with 401, and every
-- session of its user is then revoked.
pub refresh_reuse_revokes :
    (pf : Platform) (settings : Settings) (now : ℕ) (fr : Fresh) (raw user_agent ip : String)
    (w : World) (row : RefreshToken)
    → refresh_token_by_raw pf raw w ≡ some row
    → is_set row.revoked_at ≡ true
    → let (r, w') = refresh pf settings now fr raw user_agent ip w in
      (r ≡ err reuse_error)
      × All
          (λ t. (t.user_id == row.user_id) ≡ true → is_set t.revoked_at ≡ true)
          w'.db.refresh_tokens
unfolding revoke_all_refresh_tokens
refresh_reuse_revokes pf settings now fr raw user_agent ip w row e revoked =
    rw (refresh_of_revoked pf settings now fr raw user_agent ip w row e revoked) (
      refl,
      All-of_update_where _ (is_live_of row.user_id) (revoke_at now) w.db.refresh_tokens
          λ x h. ground arith,
    )

-- Over HTTP, a refresh with a token that was already rotated or revoked is refused and changes
-- nothing: `get_db` rolls the revocation back with the error that reports it, so every session of
-- the user stays as it was.
pub refresh_reuse_rolled_back :
    (pf : Platform) (settings : Settings) (now : ℕ) (fr : Fresh) (raw user_agent ip : String)
    (w : World) (row : RefreshToken)
    → refresh_token_by_raw pf raw w ≡ some row
    → is_set row.revoked_at ≡ true
    → in_session (refresh pf settings now fr raw user_agent ip) w ≡ (err reuse_error, w)
unfolding in_session revoke_all_refresh_tokens
refresh_reuse_rolled_back pf settings now fr raw user_agent ip w row e revoked =
    let same = refresh_of_revoked pf settings now fr raw user_agent ip w row e revoked in
    rw (same, in_session) (rw same refl)

-- What a successful rotation did, and to whom.
pub record IsRotated (pf : Platform) (settings : Settings) (now : ℕ) (fr : Fresh)
    (raw user_agent ip : String) (w w' : World) : Type 0 where
  pub row : RefreshToken
  pub user : User
  pub found : refresh_token_by_raw pf raw w ≡ some row
  pub live : is_set row.revoked_at ≡ false
  pub in_time : now < row.expires_at
  pub owner : user_by_id row.user_id w ≡ some user
  pub welcome : is_suspended user.status ≡ false
  pub unused : IsUnused pf fr w
  pub tokens :
      w'.db.refresh_tokens
      ≡ update_where (λ t. t.id == row.id) (revoke_at now) w.db.refresh_tokens
        ++ new_refresh_token pf settings now fr user.id user_agent ip (some row.id) ∷ []

reuse_detected-ne-ok :
    (pf : Platform) (settings : Settings) (now : ℕ) (row : RefreshToken) (w w' : World)
    (s : Session)
    → reuse_detected pf settings now row w ≢ (ok s, w')
unfolding reuse_detected revoke_all_refresh_tokens ◌>>=◌
reuse_detected-ne-ok pf settings now row w w' s h = cc

pub issue_refresh-eq-ok :
    (pf : Platform) (settings : Settings) (now : ℕ) (fr : Fresh) (u : User) (user_agent ip : String)
    (rotated : Option ℕ) (w w' : World) (raw : String)
    → issue_refresh pf settings now fr u user_agent ip rotated w ≡ (ok raw, w')
    → IsUnused pf fr w
      × (w' ≡ record w {
        db = record w.db {
          refresh_tokens =
              w.db.refresh_tokens
              ++ new_refresh_token pf settings now fr u.id user_agent ip rotated ∷ [];
        };
      })
      × (raw ≡ fr.raw)
unfolding issue_refresh add_refresh_token
issue_refresh-eq-ok pf settings now fr u user_agent ip rotated w w' raw h =
    let (_, v, added, done) = bind-eq-ok _ _ h in
    let (unused, same) = unless_taken-eq-ok _ _ w v added in
    (
      unused,
      sym (ap (λ (z : Result String × World). z.1) done) ∙ same,
      sym (ok-injective (ap (λ (z : Result String × World). z.0) done)),
    )

pub issue_refresh_unused :
    (pf : Platform) (settings : Settings) (now : ℕ) (fr : Fresh) (u : User) (user_agent ip : String)
    (rotated : Option ℕ) (w : World)
    → IsUnused pf fr w
    → issue_refresh pf settings now fr u user_agent ip rotated w ≡ (
      ok fr.raw,
      record w {
        db = record w.db {
          refresh_tokens =
              w.db.refresh_tokens
              ++ new_refresh_token pf settings now fr u.id user_agent ip rotated ∷ [];
        };
      },
    )
unfolding issue_refresh add_refresh_token
issue_refresh_unused pf settings now fr u user_agent ip rotated w unused =
    bind-ok (add_refresh_token (new_refresh_token pf settings now fr u.id user_agent ip rotated)) _
      tt (unless_taken-false _ _ w unused)

rotate_rotates :
    (pf : Platform) (settings : Settings) (now : ℕ) (fr : Fresh) (raw user_agent ip : String)
    (w w' : World) (s : Session) (row : RefreshToken)
    → refresh_token_by_raw pf raw w ≡ some row
    → is_set row.revoked_at ≡ false
    → rotate pf settings now fr row user_agent ip w ≡ (ok s, w')
    → IsRotated pf settings now fr raw user_agent ip w w'
unfolding rotate issue_refresh
rotate_rotates pf settings now fr raw user_agent ip w w' s row e live h0 =
    let (in_time, h1) = raise_if-eq-ok _ _ _ h0 in
    let h2 = gets-eq (user_by_id row.user_id) _ h1 in
    let (user, owner, h3) = or_raise-eq-ok _ _ _ h2 in
    let (welcome, h4) = raise_if-eq-ok _ _ _ h3 in
    let h5 = modify-eq-ok _ _ h4 in
    let (raw', v, issued, h6) = bind-eq-ok _ _ h5 in
    let (unused, added, _) =
      issue_refresh-eq-ok pf settings now fr user user_agent ip (some row.id) _ v raw' issued in
    record {
      row = row;
      user = user;
      found = e;
      live = live;
      in_time = ground arith;
      owner = owner;
      welcome = welcome;
      unused =
          sym (exists-update_where _ _ (revoke_at now) w.db.refresh_tokens (λ x. refl)) ∙ unused;
      tokens =
          ap (λ (z : Result Session × World). z.1.db.refresh_tokens) (sym h6)
          ∙ ap (λ (z : World). z.db.refresh_tokens) added;
    }

pub refresh_rotates :
    (pf : Platform) (settings : Settings) (now : ℕ) (fr : Fresh) (raw user_agent ip : String)
    (w w' : World) (s : Session)
    → refresh pf settings now fr raw user_agent ip w ≡ (ok s, w')
    → IsRotated pf settings now fr raw user_agent ip w w'
unfolding refresh
refresh_rotates pf settings now fr raw user_agent ip w w' s h =
    let found = gets-eq (refresh_token_by_raw pf raw) _ h in
    let (row, e, h1) = or_raise-eq-ok _ _ _ found in
    elim (Bool-cases (is_set row.revoked_at)) [
      | inl revoked ↦ absurd (reuse_detected-ne-ok pf settings now row w w' s (rw revoked at h1))
      | inr live ↦
          rotate_rotates pf settings now fr raw user_agent ip w w' s row e live (rw live at h1)
    ]

module _ (pf : Platform) (now : ℕ) where
  -- The tables after a rotation still show the token that was presented, revoked.
  presented_after :
      (raw : String) (row : RefreshToken) (w w' : World) (new : RefreshToken)
      → refresh_token_by_raw pf raw w ≡ some row
      → w'.db.refresh_tokens
        ≡ update_where (λ t. t.id == row.id) (revoke_at now) w.db.refresh_tokens ++ new ∷ []
      → refresh_token_by_raw pf raw w' ≡ some (revoke_at now row)
  unfolding refresh_token_by_raw
  presented_after raw row w w' new found tokens =
      let p = λ (t : RefreshToken). str_eq t.token_hash (pf.sha256 raw) in
      rw tokens (
        find-append-some p _ _ _ (
          find-update_where-some p (λ t. t.id == row.id) (revoke_at now) w.db.refresh_tokens row
            (λ x. refl) found (==-refl row.id)))

  issued_after :
      (id : ℕ) (fr : Fresh) (w w' : World) (new : RefreshToken)
      → new.token_hash ≡ pf.sha256 fr.raw
      → IsUnused pf fr w
      → w'.db.refresh_tokens
        ≡ update_where (λ t. t.id == id) (revoke_at now) w.db.refresh_tokens ++ new ∷ []
      → refresh_token_by_raw pf fr.raw w' ≡ some new
  unfolding refresh_token_by_raw
  issued_after id fr w w' new hash unused tokens =
      let p = λ (t : RefreshToken). str_eq t.token_hash (pf.sha256 fr.raw) in
      let absent =
        exists-update_where p (λ t. t.id == id) (revoke_at now) w.db.refresh_tokens (λ x. refl) in
      rw tokens (
        find-append-none p _ _ (find-none_of_exists p _ (absent ∙ unused))
        ∙ find-single p new (rw hash (eq_refl (pf.sha256 fr.raw))))

user_by_id-id : (id : ℕ) (w : World) (u : User) → user_by_id id w ≡ some u → u.id ≡ id
user_by_id-id id w u e =
    let same = find_holds (λ (v : User). v.id == id) w.db.users u e in ground arith

-- Once a refresh token has been exchanged, presenting it again is answered with the reuse error.
pub refresh_at_most_once :
    (pf : Platform) (settings : Settings) (now later : ℕ) (fr fr' : Fresh)
    (raw user_agent ip user_agent' ip' : String) (w w' : World) (s : Session)
    → refresh pf settings now fr raw user_agent ip w ≡ (ok s, w')
    → (refresh pf settings later fr' raw user_agent' ip' w').0 ≡ err reuse_error
refresh_at_most_once pf settings now later fr fr' raw user_agent ip user_agent' ip' w w' s h =
    let done = refresh_rotates pf settings now fr raw user_agent ip w w' s h in
    let row = done.row in
    let kept : refresh_token_by_raw pf raw w' ≡ some (revoke_at now row) =
      presented_after pf now raw row w w' _ done.found done.tokens in
    ap (λ (z : Result Session × World). z.0)
      (refresh_of_revoked pf settings later fr' raw user_agent' ip' w' (revoke_at now row) kept
        refl)

-- The token that a refresh hands out is stored, live, for the same user and with the exchanged
-- token as its origin; the one presented is revoked.
pub refresh_issues :
    (pf : Platform) (settings : Settings) (now : ℕ) (fr : Fresh) (raw user_agent ip : String)
    (w w' : World) (s : Session)
    → refresh pf settings now fr raw user_agent ip w ≡ (ok s, w')
    → (old new : RefreshToken) × (refresh_token_by_raw pf raw w ≡ some old)
      × (refresh_token_by_raw pf raw w' ≡ some (revoke_at now old))
      × (refresh_token_by_raw pf fr.raw w' ≡ some new)
      × (is_set new.revoked_at ≡ false)
      × (new.user_id ≡ old.user_id)
      × (new.rotated_from_id ≡ some old.id)
      × (new.expires_at ≡ now + settings.refresh_token_ttl_seconds)
refresh_issues pf settings now fr raw user_agent ip w w' s h =
    let done = refresh_rotates pf settings now fr raw user_agent ip w w' s h in
    (
      done.row,
      new_refresh_token pf settings now fr done.user.id user_agent ip (some done.row.id),
      done.found,
      presented_after pf now raw done.row w w' _ done.found done.tokens,
      issued_after pf now done.row.id fr w w' _ refl done.unused done.tokens,
      refl,
      user_by_id-id done.row.user_id w done.user done.owner,
      refl,
      refl,
    )
