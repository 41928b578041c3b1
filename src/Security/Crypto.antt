-- ===== src/Security/Crypto.antt =====
-- backend/src/recruit_api/security/crypto.py. Bytes are the text of the characters with their values.
pub mod Laws
pub mod Rotation
use recruit_me.Prelude.{
  ℕ, ◌≡◌, String, Bool, true, false, Option, none, some, List, [], ◌∷◌, ◌==◌, if◌then◌else◌, leb,
  str_eq, exists, strip, split, partition, size,
}

-- The keys of config.py's `Settings`.
pub record KeySettings : Type 0 where
  pub is_prod : Bool
  pub credential_master_key : String
  pub credential_master_keys : String
  pub credential_key_version : ℕ

-- `int`, `base64.b64decode`, and ChaCha20-Poly1305 of the package `cryptography`, which opens what
-- it sealed under the same key and nonce.
pub record Cipher : Type 0 where
  pub int : String → Option ℕ
  pub b64decode : String → Option String
  pub seal_bytes : String → String → String → String
  pub open_bytes : String → String → String → Option String
  pub open-seal :
      (key nonce plaintext : String)
      → open_bytes key nonce (seal_bytes key nonce plaintext) ≡ some plaintext

-- What the functions raise: a `CryptoError`, or the `ValueError` of `int` and of `b64decode`.
pub data Failure : Type 0 where
  crypto_error : String → Failure
  value_error : Failure

pub data Outcome (A : Type 0) : Type 0 where
  value : A → Outcome A
  failure : Failure → Outcome A

infixl 5 ◌>>=◌
unfoldable pub ◌>>=◌ : {A B : Type 0} → Outcome A → (A → Outcome B) → Outcome B
value a >>= k = k a
failure e >>= k = failure e

abbrev pub value_or : {A : Type 0} → Option A → Failure → Outcome A
value_or none e = failure e
value_or (some a) e = value a

-- A `dict` of keys by their version.
abbrev pub Keys : Type 0
Keys = List (ℕ × String)

unfoldable pub set_key : ℕ → String → Keys → Keys
set_key version key [] = (version, key) ∷ []
set_key version key ((v, k) ∷ keys) =
    if v == version then (v, key) ∷ keys else (v, k) ∷ set_key version key keys

unfoldable pub key_at : ℕ → Keys → Option String
key_at version [] = none
key_at version ((v, k) ∷ keys) = if v == version then some k else key_at version keys

-- `max(keys)`, of a `dict` with at least the version `v`
abbrev max_version : ℕ → Keys → ℕ
max_version v [] = v
max_version v ((w, k) ∷ keys) = max_version (if leb v w then w else v) keys

pub record MasterKey : Type 0 where
  pub keys : Keys
  pub current_version : ℕ

-- `_decode_key`
unfoldable pub decode_key : Cipher → String → Outcome String
decode_key c b64 = do
  raw ← value_or (c.b64decode (strip b64)) value_error
  if size raw == 32
      then value raw
      else failure (crypto_error "master key must be 32 bytes (base64-encoded)")

abbrev pub read_part : Cipher → String → Keys → Outcome Keys
read_part c part keys = do
  let (ver, b64) = partition ":" (strip part)
  version ← value_or (c.int ver) value_error
  key ← decode_key c b64
  value (set_key version key keys)

-- The loop over the parts of `CREDENTIAL_MASTER_KEYS`.
unfoldable pub read_parts : Cipher → List String → Keys → Outcome Keys
read_parts c [] keys = value keys
read_parts c (part ∷ parts) keys = read_part c part keys >>= read_parts c parts

abbrev pub single_key : Cipher → String → Outcome Keys
single_key c b64 = do key ← decode_key c b64; value ((1, key) ∷ [])

-- Thirty-two zero bytes in base64.
abbrev pub zero_key : String
zero_key = "AAAAAAAAAAAAAAAAAAAAAAAAAAAAAAAAAAAAAAAAAAA="

unfoldable pub read_keys : Cipher → KeySettings → Outcome Keys
read_keys c s =
    let raw_multi = strip s.credential_master_keys in
    if str_eq raw_multi ""
    then (if str_eq (strip s.credential_master_key) ""
        then value []
        else single_key c s.credential_master_key)
    else read_parts c (split "," raw_multi) []

abbrev pub or_development : Cipher → KeySettings → Keys → Outcome Keys
or_development c s [] =
    if s.is_prod
    then failure (crypto_error "CREDENTIAL_MASTER_KEY(S) must be set when env=prod")
    else single_key c zero_key
or_development c s (k ∷ keys) = value (k ∷ keys)

abbrev pub has_version : ℕ → Keys → Bool
has_version version keys = exists (λ k. k.0 == version) keys

abbrev pub current_of : ℕ → Keys → ℕ
current_of version [] = version
current_of version ((v, k) ∷ keys) =
    if has_version version ((v, k) ∷ keys) then version else max_version v keys

-- `EnvMasterKey.__init__`
unfoldable pub env_master_key : Cipher → KeySettings → Outcome MasterKey
env_master_key c s = do
  read ← read_keys c s
  keys ← or_development c s read
  value (record { keys = keys; current_version = current_of s.credential_key_version keys })

-- `EnvMasterKey.key`; the message's version is left out.
unfoldable pub key : MasterKey → ℕ → Outcome String
key p version = value_or (key_at version p.keys) (crypto_error "no master key for version")

-- `Envelope.encrypt`, where `nonce` is what `os.urandom` drew
unfoldable pub encrypt : Cipher → MasterKey → String → String → Outcome (String × (String × ℕ))
encrypt c p nonce plaintext = do
  k ← key p p.current_version
  value (c.seal_bytes k nonce plaintext, (nonce, p.current_version))

-- `Envelope.decrypt`
unfoldable pub decrypt : Cipher → MasterKey → String → String → ℕ → Outcome String
decrypt c p ciphertext nonce key_version = do
  k ← key p key_version
  value_or (c.open_bytes k nonce ciphertext)
      (crypto_error "ciphertext failed authentication (wrong key or tampered)")
