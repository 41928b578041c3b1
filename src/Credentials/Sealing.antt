-- ===== src/Credentials/Sealing.antt =====
-- The envelope of site_credential_service.py and of the worker's credentials.py, by security/crypto.py
-- over the JSON of a secret.
use recruit_me.Prelude.{
  ℕ, ◌≡◌, String, false, Option, none, some, [], ◌∷◌, ◌++◌, str_eq, strip, split, partition,
}
use recruit_me.Security.Crypto.{
  KeySettings, Cipher, Outcome, value, failure, ◌>>=◌, key_at, MasterKey, env_master_key, encrypt,
  decrypt,
}
use recruit_me.Security.Crypto.Laws.{encrypt_succeeds, decrypt_at}
use recruit_me.Security.Crypto.Rotation.{decrypt-encrypt}
use recruit_me.Credentials.{
  CredentialSite, SiteCredential, SiteCredentialIn, Vault, Envelope, Secret, upsert, upsert_found,
  open_secret, is_of,
}
use recruit_me.Prelude.{find}

-- `json.dumps` and `json.loads` of a secret, which reads what was dumped.
pub record Json : Type 0 where
  pub dumps : Secret → String
  pub loads : String → Option Secret
  pub loads-dumps : (s : Secret) → loads (dumps s) ≡ some s

abbrev sealed_or_empty : Outcome (String × (String × ℕ)) → String × (String × ℕ)
sealed_or_empty (value sealed) = sealed
sealed_or_empty (failure e) = ("", ("", 0))

abbrev loaded : (String → Option Secret) → Outcome String → Option Secret
loaded loads (value raw) = loads raw
loaded loads (failure e) = none

-- The row that `upsert` leaves has what the envelope sealed.
opens :
    (e e' : Envelope) (salt fresh_id user_id : ℕ) (site : CredentialSite) (given : SiteCredentialIn)
    (o : Option SiteCredential) (v : Vault)
    → (let sealed = e.seal salt given.secret in e'.open_sealed sealed.0 sealed.1.0 sealed.1.1)
      ≡ some given.secret
    → open_secret e' (upsert_found e salt fresh_id user_id site given o v).0 ≡ some given.secret
opens e e' salt fresh_id user_id site given none v h = h
opens e e' salt fresh_id user_id site given (some c) v h = h

module _ (c : Cipher) (j : Json) (draw : ℕ → String) where
  unfoldable pub seal_secret : MasterKey → ℕ → Secret → String × (String × ℕ)
  seal_secret p salt s = sealed_or_empty (encrypt c p (draw salt) (j.dumps s))

  unfoldable pub open_with : MasterKey → String → String → ℕ → Option Secret
  open_with p ciphertext nonce version = loaded j.loads (decrypt c p ciphertext nonce version)

  -- What is sealed under a version is opened by each table with the same key at that version.
  pub open_with-seal_secret :
      (p q : MasterKey) (salt : ℕ) (s : Secret)
      → (row : String × (String × ℕ)) × (encrypt c p (draw salt) (j.dumps s) ≡ value row)
        × (decrypt c q row.0 row.1.0 row.1.1 ≡ value (j.dumps s))
      → let row = seal_secret p salt s in open_with q row.0 row.1.0 row.1.1 ≡ some s
  unfolding seal_secret open_with
  open_with-seal_secret p q salt s (row, e, e') = rw (e, e') (j.loads-dumps s)

  pub same_table :
      (s : KeySettings) (p : MasterKey) (salt : ℕ) (secret : Secret)
      → env_master_key c s ≡ value p
      → (row : String × (String × ℕ)) × (encrypt c p (draw salt) (j.dumps secret) ≡ value row)
        × (decrypt c p row.0 row.1.0 row.1.1 ≡ value (j.dumps secret))
  same_table s p salt secret h =
      let (k, at_p, sealed) = encrypt_succeeds c s p (draw salt) (j.dumps secret) h in
      (
        (c.seal_bytes k (draw salt) (j.dumps secret), (draw salt, p.current_version)),
        sealed,
        decrypt_at c p k (draw salt) (j.dumps secret) p.current_version at_p,
      )

  -- `build_envelope(settings)`, of settings that give keys.
  unfoldable pub envelope_of :
      (s : KeySettings) (p : MasterKey) → env_master_key c s ≡ value p → Envelope
  envelope_of s p h = record {
    seal = seal_secret p;
    open_sealed = open_with p;
    open-seal = λ salt secret. open_with-seal_secret p p salt secret (same_table s p salt secret h);
  }

  -- A secret that was stored under settings with a table of keys is what the worker opens under
  -- later settings, which have one more part at the end of the table, of a version that is new.
  pub open_secret-upsert :
      (old new : KeySettings) (p q : MasterKey) (part : String) (version : ℕ)
      → (hp : env_master_key c old ≡ value p) → (hq : env_master_key c new ≡ value q)
      → str_eq (strip old.credential_master_keys) "" ≡ false
      → str_eq (strip new.credential_master_keys) "" ≡ false
      → split "," (strip new.credential_master_keys)
        ≡ split "," (strip old.credential_master_keys) ++ part ∷ []
      → c.int (partition ":" (strip part)).0 ≡ some version
      → key_at version p.keys ≡ none
      → (salt fresh_id user_id : ℕ) (site : CredentialSite) (given : SiteCredentialIn) (v : Vault)
      → open_secret
          (envelope_of new q hq)
          (upsert (envelope_of old p hp) salt fresh_id user_id site given v).0
        ≡ some given.secret
  unfolding envelope_of upsert ◌>>=◌
  open_secret-upsert old new p q part version hp hq given given' parts is_v fresh salt fresh_id
        user_id site input v =
      let (k, _, sealed) = encrypt_succeeds c old p (draw salt) (j.dumps input.secret) hp in
      let row : String × (String × ℕ) =
        (c.seal_bytes k (draw salt) (j.dumps input.secret), (draw salt, p.current_version)) in
      let kept =
        decrypt-encrypt c old new p q part (draw salt) (j.dumps input.secret) version hp hq given
          given' parts is_v fresh in
      let opened : decrypt c q row.0 row.1.0 row.1.1 ≡ value (j.dumps input.secret) =
        rw sealed at kept in
      opens (envelope_of old p hp) (envelope_of new q hq) salt fresh_id user_id site input
        (find (is_of user_id site) v.rows) v
        (open_with-seal_secret p q salt input.secret (row, sealed, opened))
