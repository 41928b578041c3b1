-- ===== src/Credentials/Laws.antt =====
-- Storing and verifying a credential: site_credential_service.py and verify_credential.py.
use recruit_me.Prelude.{
  ℕ, ◌≡◌, refl, ap, ◌∙◌, String, Option, none, some, [], ◌∷◌, ◌==◌, ==-refl, find, find-append-none,
  find-single, find-update_where-some, eq_refl, Option-cases, inl, inr,
}
use recruit_me.Credentials.{
  CredentialSite, SiteCredential, SiteCredentialIn, Vault, Envelope, Secret, is_of, fill, empty_row,
  upsert, upsert_found, verdict, judged_by, structural_error, open_secret, verify_credential,
  site_name,
}

-- The tables' keys: a row that the user and the site find is the one that its id finds, and the
-- id that is drawn is new.
pub record IsKeyed (user_id : ℕ) (site : CredentialSite) (fresh_id : ℕ) (v : Vault) : Type 0 where
  pub by_id :
      (c : SiteCredential)
      → find (is_of user_id site) v.rows ≡ some c
      → find (λ x. x.id == c.id) v.rows ≡ some c
  pub is_new : find (λ (x : SiteCredential). x.id == fresh_id) v.rows ≡ none

module _ (e : Envelope) (salt fresh_id user_id : ℕ) (site : CredentialSite)
    (given : SiteCredentialIn) where
  -- The stored row answers to its user and site, and to its id.
  upsert_found-stored :
      (o : Option SiteCredential) (v : Vault)
      → find (is_of user_id site) v.rows ≡ o
      → IsKeyed user_id site fresh_id v
      → let (row, v') = upsert_found e salt fresh_id user_id site given o v in
        (find (is_of user_id site) v'.rows ≡ some row)
        × (find (λ x. x.id == row.id) v'.rows ≡ some row)
  upsert_found-stored none v absent keyed =
      let row = fill e salt given (empty_row fresh_id user_id site) in
      (
        find-append-none (is_of user_id site) v.rows (row ∷ []) absent
            ∙ find-single (is_of user_id site) row
                (rw (==-refl user_id, eq_refl (site_name site)) refl),
        find-append-none (λ x. x.id == fresh_id) v.rows (row ∷ []) keyed.is_new
            ∙ find-single (λ x. x.id == fresh_id) row (==-refl fresh_id),
      )
  upsert_found-stored (some c) v found keyed = (
    find-update_where-some (is_of user_id site) (λ x. x.id == c.id) (fill e salt given) v.rows c
        (λ y. refl) found (==-refl c.id),
    find-update_where-some (λ x. x.id == c.id) (λ x. x.id == c.id) (fill e salt given) v.rows c
        (λ y. refl) (keyed.by_id c found) (==-refl c.id),
  )

  verified_row :
      (strip : String → String) (failure : String) (now : ℕ) (c : SiteCredential) (v : Vault)
      → find (is_of user_id site) v.rows ≡ some c
      → find (λ x. x.id == c.id) v.rows ≡ some c
      → find (is_of user_id site) (verify_credential e strip failure now c.id v).rows
        ≡ some (judged_by now (verdict strip failure c (open_secret e c)) c)
  unfolding verify_credential
  verified_row strip failure now c v found by_id =
      rw by_id (elim (Option-cases (verdict strip failure c (open_secret e c))) [
        | inl fine ↦ rw fine (
            find-update_where-some (is_of user_id site) (λ x. x.id == c.id) (judged_by now none)
              v.rows c (λ y. refl) found (==-refl c.id))
        | inr (why, bad) ↦ rw bad (
            find-update_where-some (is_of user_id site) (λ x. x.id == c.id)
              (judged_by now (some why)) v.rows c (λ y. refl) found (==-refl c.id))
      ])

  opened :
      (o : Option SiteCredential) (v : Vault)
      → let row = (upsert_found e salt fresh_id user_id site given o v).0 in
        (open_secret e row ≡ some given.secret) × (row.auth_type ≡ given.auth_type)
  opened none v = (e.open-seal salt given.secret, refl)
  opened (some c) v = (e.open-seal salt given.secret, refl)

  -- Once stored and verified, the row of the user and the site carries the verdict on the secret
  -- that was given, which is what the envelope opens, if the rows are keyed and the drawn id is new.
  pub upsert-verify_credential :
      (strip : String → String) (failure : String) (now : ℕ) (v : Vault)
      → IsKeyed user_id site fresh_id v
      → let (row, v') = upsert e salt fresh_id user_id site given v in
        find (is_of user_id site) (verify_credential e strip failure now row.id v').rows
        ≡ some (judged_by now (structural_error strip row.site given.auth_type given.secret) row)
  unfolding upsert
  upsert-verify_credential strip failure now v keyed =
      let o = find (is_of user_id site) v.rows in
      let (row, v') = upsert_found e salt fresh_id user_id site given o v in
      let (stored, by_id) = upsert_found-stored o v refl keyed in
      let (secret, kind) = opened o v in
      let seen = verified_row strip failure now row v' stored by_id in
      seen
      ∙ ap (λ (x : Option Secret). some (judged_by now (verdict strip failure row x) row)) secret
      ∙ ap (λ k. some (judged_by now (structural_error strip row.site k given.secret) row)) kind
