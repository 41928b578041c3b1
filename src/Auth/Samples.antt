-- ===== src/Auth/Samples.antt =====
-- A small platform, settings and tables that the tests of the account services run on.
use recruit_me.Prelude.{ℕ, ◌≡◌, refl, String, Option, none, some, [], ◌∷◌, str_eq, true, eq_refl}
use recruit_me.Auth.State.{User, UserRole, UserPlan, UserStatus, World, Fresh, Platform, Settings}
use recruit_me.Security.Jwt.{JwtSettings}
use recruit_me.Security.Jwt.Samples.{unary, read_unary, read_unary-unary, sample_jwt}

abbrev number_of : Option (ℕ × String) → Option ℕ
number_of none = none
number_of (some (n, s)) = some n

pub parse-text_sample : (n : ℕ) → number_of (read_unary (unary n "")) ≡ some n
parse-text_sample n = rw (read_unary-unary n "") refl

abbrev pub sample_platform : Platform
sample_platform = record {
  sha256 = λ s. s;
  hash_password = λ salt plain. plain;
  verify_password = λ plain hashed. str_eq plain hashed;
  lower = λ s. s;
  uuid_text = λ n. unary n "";
  parse_uuid = λ s. number_of (read_unary s);
  jwt = sample_jwt;
  keys = ("k", "k");
  jti = λ now. "j";
  verify-hash = λ salt plain. eq_refl plain;
  parse-text = parse-text_sample;
  keys-is_pair = refl;
}

abbrev sample_jwt_settings : JwtSettings
sample_jwt_settings = record {
  is_prod = true;
  jwt_private_key = "k";
  jwt_public_key = "k";
  access_token_ttl_seconds = 5;
}

abbrev pub sample_settings : Settings
sample_settings = record { jwt = sample_jwt_settings; refresh_token_ttl_seconds = 50 }

abbrev pub ada : User
ada = record {
  id = 1;
  email = "ada";
  password_hash = "pw";
  full_name = "Ada";
  role = UserRole.admin;
  plan = UserPlan.free;
  status = UserStatus.active;
}

abbrev pub bob : User
bob = record {
  id = 2;
  email = "bob";
  password_hash = "pb";
  full_name = "Bob";
  role = UserRole.user;
  plan = UserPlan.free;
  status = UserStatus.active;
}

abbrev pub two_users : World
two_users = record {
  db = record {
    users = ada ∷ bob ∷ [];
    refresh_tokens = [];
    verification_tokens = [];
    reset_tokens = [];
    change_tokens = [];
    owned = [];
  };
  sent = [];
  objects = [];
}

abbrev pub draw : ℕ → String → Fresh
draw n raw = record { user_id = n; token_id = n; raw = raw; salt = n }
