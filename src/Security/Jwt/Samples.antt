-- ===== src/Security/Jwt/Samples.antt =====
-- A PyJWT for tests, whose tokens are the key and the payload, written one after the other.
use recruit_me.Prelude.{
  ℕ, zero, suc, ◌≡◌, refl, String, true, Option, none, some, ◌&&◌, leb, ltb, if◌then◌else◌, str_eq,
}
use recruit_me.Credentials.Samples.{write_text, read_text, read_text-write_text}
use recruit_me.Security.Jwt.{PyJwt, Payload}

-- A number in unary, ended by a dot, before other text.
abbrev pub unary : ℕ → String → String
unary zero s = String.◌∷◌ "." s
unary (suc n) s = String.◌∷◌ "i" (unary n s)

abbrev one_more : Option (ℕ × String) → Option (ℕ × String)
one_more none = none
one_more (some (n, s)) = some (suc n, s)

abbrev pub read_unary : String → Option (ℕ × String)
read_unary String.[] = none
read_unary (String.◌∷◌ c s) =
    if str_eq (String.◌∷◌ c String.[]) "." then some (zero, s) else one_more (read_unary s)

pub read_unary-unary : (n : ℕ) (s : String) → read_unary (unary n s) ≡ some (n, s)
read_unary-unary zero s = refl
read_unary-unary (suc n) s = rw (read_unary-unary n s) refl

-- A reading, and what reads on behind it.
abbrev pub read_then : {A B : Type 0} → Option (A × String) → (A → String → Option B) → Option B
read_then none k = none
read_then (some (a, rest)) k = k a rest

abbrev pub write_typ : Option String → String
write_typ none = ""
write_typ (some t) = write_text t ""

abbrev pub typ_of : Option (String × String) → Option String
typ_of none = none
typ_of (some (t, rest)) = some t

typ_of-write_typ : (typ : Option String) → typ_of (read_text (write_typ typ)) ≡ typ
typ_of-write_typ none = refl
typ_of-write_typ (some t) = rw (read_text-write_text t "") refl

abbrev pub encode : String → Payload → String
encode priv p = write_text priv (
    write_text p.sub (
      write_text p.role
        (write_text p.plan (write_text p.jti (unary p.iat (unary p.exp (write_typ p.typ)))))))

abbrev pub if_valid : ℕ → Payload → Option Payload
if_valid now p = if leb p.iat now && ltb now p.exp then some p else none

abbrev pub decode : ℕ → String → String → Option Payload
decode now pub_key token = read_then (read_text token) (λ k t1. read_then (read_text t1) (λ sub t2.
    read_then (read_text t2) (λ role t3. read_then (read_text t3) (λ plan t4.
      read_then (read_text t4) (λ jti t5. read_then (read_unary t5) (λ iat t6.
        read_then (read_unary t6) (λ exp t7.
          if str_eq pub_key k
          then if_valid now (record {
            sub = sub;
            role = role;
            plan = plan;
            jti = jti;
            iat = iat;
            exp = exp;
            typ = typ_of (read_text t7);
          })
          else none)))))))

pub decode-encode_sample :
    (now : ℕ) (priv pub_key : String) (p : Payload)
    → str_eq pub_key priv ≡ true
    → decode now pub_key (encode priv p) ≡ (if leb p.iat now && ltb now p.exp then some p else none)
decode-encode_sample now priv pub_key p same =
    rw
      (
        read_text-write_text priv (
            write_text p.sub (
              write_text p.role (
                write_text p.plan
                  (write_text p.jti (unary p.iat (unary p.exp (write_typ p.typ))))))),
        read_text-write_text p.sub (
            write_text p.role
              (write_text p.plan (write_text p.jti (unary p.iat (unary p.exp (write_typ p.typ)))))),
        read_text-write_text p.role
            (write_text p.plan (write_text p.jti (unary p.iat (unary p.exp (write_typ p.typ))))),
        read_text-write_text p.plan
            (write_text p.jti (unary p.iat (unary p.exp (write_typ p.typ)))),
        read_text-write_text p.jti (unary p.iat (unary p.exp (write_typ p.typ))),
        read_unary-unary p.iat (unary p.exp (write_typ p.typ)),
        read_unary-unary p.exp (write_typ p.typ),
        typ_of-write_typ p.typ,
        same,
      )
      refl

abbrev pub sample_jwt : PyJwt String
sample_jwt = record {
  encode = encode;
  decode_now = decode;
  is_pair = λ priv pub_key. str_eq pub_key priv;
  generate = ("g", "g");
  generate-is_pair = refl;
  decode-encode = decode-encode_sample;
}
