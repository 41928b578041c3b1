-- ===== src/Security/Jwt/Tests.antt =====
-- Tokens of security/jwt.py on small keys.
use recruit_me.Prelude.{◌≡◌, refl, some}
use recruit_me.Errors.{auth_error, err}
use recruit_me.Security.Jwt.{decode_access_token}
use recruit_me.Security.Jwt.Samples.{sample_jwt}

-- A token of another type is refused even while it is valid.
other_type :
    decode_access_token sample_jwt
      ("k", "k")
      5
      (sample_jwt.encode "k" (record {
        sub = "u";
        role = "";
        plan = "";
        jti = "";
        iat = 0;
        exp = 9;
        typ = some "refresh";
      }))
    ≡ err (auth_error "wrong token type")
unfolding decode_access_token
other_type = refl
