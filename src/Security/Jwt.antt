-- ===== src/Security/Jwt.antt =====
-- backend/src/recruit_api/security/jwt.py.
pub mod Laws
pub mod Samples
mod Tests
use recruit_me.Prelude.{
  ℕ, ◌≡◌, ◌+◌, ◌&&◌, String, Bool, true, false, Option, none, some, leb, ltb, not, str_eq,
  if◌then◌else◌,
}
use recruit_me.Errors.{AppError, auth_error, Result, ok, err}

-- What `jwt.decode` returns, and what `create_access_token` gives `jwt.encode`.
pub record Payload : Type 0 where
  pub sub : String
  pub role : String
  pub plan : String
  pub jti : String
  pub iat : ℕ
  pub exp : ℕ
  pub typ : Option String

pub record AccessClaims : Type 0 where
  pub sub : String
  pub role : String
  pub plan : String
  pub jti : String
  pub exp : ℕ

-- PyJWT under RS256: a token that was encoded with the private key of a pair is decoded with its
-- public key from the time it was issued until it expires. `decode_now` has the time of its call. The code hands
-- a `Token` on as it is.
pub record PyJwt (Token : Type 0) : Type 0 where
  pub encode : String → Payload → Token
  pub decode_now : ℕ → String → Token → Option Payload
  pub is_pair : String → String → Bool
  pub generate : String × String
  pub generate-is_pair : is_pair generate.0 generate.1 ≡ true
  pub decode-encode :
      (now : ℕ) (priv pub_key : String) (p : Payload)
      → is_pair priv pub_key ≡ true
      → decode_now now pub_key (encode priv p)
        ≡ (if leb p.iat now && ltb now p.exp then some p else none)

-- The settings; the keys are as `replace("\\n", "\n").strip()` leaves them.
pub record JwtSettings : Type 0 where
  pub is_prod : Bool
  pub jwt_private_key : String
  pub jwt_public_key : String
  pub access_token_ttl_seconds : ℕ

abbrev pub is_configured : JwtSettings → Bool
is_configured s = not (str_eq s.jwt_private_key "") && not (str_eq s.jwt_public_key "")

-- `_keypair`; nothing for its `RuntimeError`.
unfoldable pub keypair : {Token : Type 0} → PyJwt Token → JwtSettings → Option (String × String)
keypair lib s =
    if is_configured s
    then some (s.jwt_private_key, s.jwt_public_key)
    else (if s.is_prod then none else some lib.generate)

abbrev pub ttl_or : Option ℕ → ℕ → ℕ
ttl_or none ttl = ttl
ttl_or (some t) _ = t

abbrev pub access_payload : JwtSettings → ℕ → String → String → String → String → Option ℕ → Payload
access_payload s now jti sub role plan ttl_s = record {
  sub = sub;
  role = role;
  plan = plan;
  jti = jti;
  iat = now;
  exp = now + ttl_or ttl_s s.access_token_ttl_seconds;
  typ = some "access";
}

-- `now` and `jti` are what `time.time` and `uuid.uuid4` gave.
unfoldable pub create_access_token :
    {Token : Type 0}
    → PyJwt Token
    → JwtSettings
    → String × String
    → ℕ
    → String
    → String
    → String
    → String
    → Option ℕ
    → Token
create_access_token lib s keys now jti sub role plan ttl_s =
    lib.encode keys.0 (access_payload s now jti sub role plan ttl_s)

abbrev is_typ : Option String → Bool
is_typ none = false
is_typ (some t) = str_eq t "access"

abbrev pub claims_of : Payload → AccessClaims
claims_of p = record { sub = p.sub; role = p.role; plan = p.plan; jti = p.jti; exp = p.exp }

abbrev pub checked : Option Payload → Result AccessClaims
checked none = err (auth_error "invalid or expired token")
checked (some p) =
    if not (is_typ p.typ) then err (auth_error "wrong token type") else ok (claims_of p)

unfoldable pub decode_access_token :
    {Token : Type 0} → PyJwt Token → String × String → ℕ → Token → Result AccessClaims
decode_access_token lib keys now token = checked (lib.decode_now now keys.1 token)
