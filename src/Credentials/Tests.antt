-- ===== src/Credentials/Tests.antt =====
-- A credential on a small vault, and the theorems there.
use recruit_me.Prelude.{
  ℕ, zero, suc, ◌≡◌, refl, String, Option, none, some, [], ◌∷◌, length, find, str_eq, if◌then◌else◌,
  ap, ◌∙◌, ◌+◌, arith, strip, partition, split,
}
use recruit_me.Credentials.{
  CredentialSite, CredentialAuthType, SiteCredentialIn, Vault, Secret, is_of, upsert, judged_by,
  structural_error, verify_credential, open_secret,
}
use recruit_me.Credentials.Samples.{small_envelope, write_pairs, read_pairs, read_pairs-write_pairs}
use recruit_me.Credentials.Laws.{IsKeyed, upsert-verify_credential}
use recruit_me.Credentials.Sealing.{Json, envelope_of, open_secret-upsert}
use recruit_me.Security.Crypto.{key_at}
use recruit_me.Security.Samples.{
  small_cipher, old_settings, new_settings, old_key, new_key, reads_old, reads_new, split_new,
}

abbrev empty_vault : Vault
empty_vault = record { rows = []; committed = []; queue = [] }

empty-IsKeyed : IsKeyed 1 CredentialSite.linkedin 6 empty_vault
unfolding find
empty-IsKeyed = record { by_id = λ c e. e; is_new = refl }

abbrev cookie_given : SiteCredentialIn
cookie_given = record {
  auth_type = CredentialAuthType.cookie;
  label = "";
  secret = ("li_at", "x") ∷ [];
}

abbrev same : String → String
same s = s

upsert-verify_credential_example :
    let (row, v') = upsert small_envelope 0 6 1 CredentialSite.linkedin cookie_given empty_vault in
    find
      (is_of 1 CredentialSite.linkedin)
      (verify_credential small_envelope same "" 90 row.id v').rows
    ≡ some (
        judged_by 90
          (structural_error same row.site CredentialAuthType.cookie (("li_at", "x") ∷ []))
          row)
upsert-verify_credential_example =
    upsert-verify_credential small_envelope 0 6 1 CredentialSite.linkedin cookie_given same "" 90
      empty_vault empty-IsKeyed

-- A secret as a text: a dash for each entry, a dot, and the entries.
abbrev write_count : ℕ → String → String
write_count zero rest = String.◌∷◌ "." rest
write_count (suc n) rest = String.◌∷◌ "-" (write_count n rest)

abbrev read_count : ℕ → String → Option Secret
read_count n String.[] = none
read_count n (String.◌∷◌ c rest) =
    if str_eq (String.◌∷◌ c String.[]) "." then read_pairs n rest else read_count (suc n) rest

zero_plus : (m : ℕ) → m ≡ 0 + m
zero_plus m = omega arith

read_count-write_count :
    (n m : ℕ) (rest : String) → read_count m (write_count n rest) ≡ read_pairs (n + m) rest
read_count-write_count zero m rest = ap (λ k. read_pairs k rest) (zero_plus m)
read_count-write_count (suc n) m rest =
    read_count-write_count n (suc m) rest ∙ ap (λ k. read_pairs k rest) (omega arith)

plus_zero : (n : ℕ) → n + 0 ≡ n
plus_zero n = omega arith

abbrev small_json : Json
small_json = record {
  dumps = λ s. write_count (length s) (write_pairs s);
  loads = read_count 0;
  loads-dumps = λ s.
      read_count-write_count (length s) 0 (write_pairs s)
      ∙ ap (λ k. read_pairs k (write_pairs s)) (plus_zero (length s))
      ∙ read_pairs-write_pairs s;
}

abbrev one_nonce : ℕ → String
one_nonce salt = "n"

open_secret-upsert_example :
    open_secret
      (envelope_of small_cipher small_json one_nonce new_settings new_key reads_new)
      (upsert
        (envelope_of small_cipher small_json one_nonce old_settings old_key reads_old)
        0
        6
        1
        CredentialSite.linkedin
        cookie_given
        empty_vault).0
    ≡ some (("li_at", "x") ∷ [])
unfolding strip partition key_at split
open_secret-upsert_example =
    open_secret-upsert small_cipher small_json one_nonce old_settings new_settings old_key new_key
      " 2:bbbbbbbbbbbbbbbbbbbbbbbbbbbbbbbb" 2 reads_old reads_new refl refl split_new refl refl 0 6
      1 CredentialSite.linkedin cookie_given empty_vault
