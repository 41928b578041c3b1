-- ===== src/Security/Samples.antt =====
-- Small settings of security/crypto.py. Their cipher writes the key and the nonce before
-- the text, base64 is the identity, and numbers have one digit.
use Prim.Native.String
use text.Mathlib.TextLemmas.{nil-append, cons-append}
use recruit_me.Prelude.{
  ap, ℕ, ◌≡◌, refl, String, true, Option, none, some, [], ◌∷◌, str_eq, if◌then◌else◌, strip, split,
  partition, exists, eq_refl,
}
use recruit_me.Security.Crypto.{
  KeySettings, Cipher, value, ◌>>=◌, set_key, MasterKey, decode_key, read_parts, read_keys,
  env_master_key,
}

abbrev pub unprefix : String → String → Option String
unprefix String.[] s = some s
unprefix (String.◌∷◌ c k) String.[] = none
unprefix (String.◌∷◌ c k) (String.◌∷◌ d s) =
    if str_eq (String.◌∷◌ c String.[]) (String.◌∷◌ d String.[]) then unprefix k s else none

pub unprefix-append : (k s : String) → unprefix k (String.◌++◌ k s) ≡ some s
unprefix-append String.[] s = ap some (nil-append s)
unprefix-append (String.◌∷◌ c k) s =
    rw (cons-append c k s, eq_refl (String.◌∷◌ c String.[])) (unprefix-append k s)

abbrev pub digit : String → Option ℕ
digit s = if str_eq s "1" then some 1 else (if str_eq s "2" then some 2 else none)

abbrev pub small_cipher : Cipher
small_cipher = record {
  int = digit;
  b64decode = some;
  seal_bytes = λ k n t. String.◌++◌ (String.◌++◌ k n) t;
  open_bytes = λ k n t. unprefix (String.◌++◌ k n) t;
  open-seal = λ k n t. unprefix-append (String.◌++◌ k n) t;
}

abbrev pub first_key : String
first_key = "aaaaaaaaaaaaaaaaaaaaaaaaaaaaaaaa"

abbrev pub second_key : String
second_key = "bbbbbbbbbbbbbbbbbbbbbbbbbbbbbbbb"

abbrev pub old_settings : KeySettings
old_settings = record {
  is_prod = true;
  credential_master_key = "";
  credential_master_keys = " 1:aaaaaaaaaaaaaaaaaaaaaaaaaaaaaaaa";
  credential_key_version = 7;
}

abbrev pub new_settings : KeySettings
new_settings = record {
  is_prod = true;
  credential_master_key = "";
  credential_master_keys = "1:aaaaaaaaaaaaaaaaaaaaaaaaaaaaaaaa, 2:bbbbbbbbbbbbbbbbbbbbbbbbbbbbbbbb";
  credential_key_version = 2;
}

abbrev pub old_key : MasterKey
old_key = record { keys = (1, first_key) ∷ []; current_version = 1 }

abbrev pub new_key : MasterKey
new_key = record { keys = (1, first_key) ∷ (2, second_key) ∷ []; current_version = 2 }

pub reads_old : env_master_key small_cipher old_settings ≡ value old_key
unfolding env_master_key read_keys read_parts decode_key set_key ◌>>=◌ strip split partition exists
reads_old = refl

pub reads_new : env_master_key small_cipher new_settings ≡ value new_key
unfolding env_master_key read_keys read_parts decode_key set_key ◌>>=◌ strip split partition exists
reads_new = refl

pub split_new :
    split "," (strip new_settings.credential_master_keys)
    ≡ "1:aaaaaaaaaaaaaaaaaaaaaaaaaaaaaaaa" ∷ " 2:bbbbbbbbbbbbbbbbbbbbbbbbbbbbbbbb" ∷ []
unfolding split strip
split_new = refl
