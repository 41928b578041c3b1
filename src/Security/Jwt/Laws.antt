-- ===== src/Security/Jwt/Laws.antt =====
-- Tokens of security/jwt.py, made and read.
use recruit_me.Prelude.{
  ℕ, ◌≡◌, refl, ◌+◌, String, true, Option, none, some, ◌&&◌, leb, ltb, if◌then◌else◌, inl, inr,
  Bool-cases, some_inj,
}
use recruit_me.Errors.{auth_error, ok, err}
use recruit_me.Security.Jwt.{
  PyJwt, JwtSettings, keypair, is_configured, ttl_or, access_payload, claims_of,
  create_access_token, decode_access_token,
}

none-ne-some : {A : Type 0} {a : A} → none ≡ some a → ⊥
none-ne-some h = cc

-- Configured keys that belong together, or the generated pair.
pub keypair-is_pair :
    {Token : Type 0} (lib : PyJwt Token) (s : JwtSettings) (keys : String × String)
    → (is_configured s ≡ true → lib.is_pair s.jwt_private_key s.jwt_public_key ≡ true)
    → keypair lib s ≡ some keys
    → lib.is_pair keys.0 keys.1 ≡ true
unfolding keypair
keypair-is_pair lib s keys configured h = elim (Bool-cases (is_configured s)) [
  | inl t ↦ rw (← some_inj (rw t at h)) (configured t)
  | inr t ↦ elim (Bool-cases s.is_prod) [
    | inl u ↦ absurd (none-ne-some (rw (t, u) at h))
    | inr u ↦ rw (← some_inj (rw (t, u) at h)) lib.generate-is_pair
  ]
]

-- A token that was created with a pair of keys is read back with it as the claims that it was created
-- for, from the time of its creation and strictly before its lifetime is over, and is refused with
-- 401 at any other time; the lifetime is the one asked for, or else that of the settings.
pub decode_access_token-create_access_token :
    {Token : Type 0} (lib : PyJwt Token) (s : JwtSettings) (keys : String × String) (now later : ℕ)
    (jti sub role plan : String) (ttl_s : Option ℕ)
    → lib.is_pair keys.0 keys.1 ≡ true
    → decode_access_token lib keys later
        (create_access_token lib s keys now jti sub role plan ttl_s)
      ≡ (if leb now later && ltb later (now + ttl_or ttl_s s.access_token_ttl_seconds)
          then ok (claims_of (access_payload s now jti sub role plan ttl_s))
          else err (auth_error "invalid or expired token"))
unfolding decode_access_token create_access_token
decode_access_token-create_access_token lib s keys now later jti sub role plan ttl_s pair =
    let payload = access_payload s now jti sub role plan ttl_s in
    rw (lib.decode-encode later keys.0 keys.1 payload pair)
      (elim (Bool-cases (leb now later && ltb later payload.exp)) [
        | inl t ↦ rw t refl
        | inr t ↦ rw t refl
      ])
