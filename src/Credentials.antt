-- ===== src/Credentials.antt =====
-- The credentials for job sites: backend/src/recruit_api/models/site_credential.py,
-- services/site_credential_service.py, and the worker's credentials.py and tasks/verify_credential.py.
-- A secret is a map from keys to texts; values that are not texts count as empty.
pub mod Laws
pub mod Samples
pub mod Sealing
mod Tests
use Prim.Native.String
use recruit_me.Prelude.{
  join, ℕ, ◌≡◌, String, Bool, true, false, ◌&&◌, ◌||◌, not, Option, none, some, List, [], ◌∷◌, ◌++◌,
  ◌==◌, if◌then◌else◌, find, select, update_where, delete_where, str_eq, prefix,
}
use recruit_me.Errors.{not_found_error, Exec, pure, gets, or_raise, modify, ◌>>=◌, ◌>>◌}

pub data CredentialSite : Type 0 where
  linkedin indeed glassdoor wellfound : CredentialSite

pub data CredentialAuthType : Type 0 where
  cookie api_key session : CredentialAuthType

pub data CredentialStatus : Type 0 where
  unverified valid invalid expired : CredentialStatus

abbrev pub site_name : CredentialSite → String
site_name linkedin = "linkedin"
site_name indeed = "indeed"
site_name glassdoor = "glassdoor"
site_name wellfound = "wellfound"

abbrev pub auth_name : CredentialAuthType → String
auth_name cookie = "cookie"
auth_name api_key = "api_key"
auth_name session = "session"

abbrev pub Secret : Type 0
Secret = List (String × String)

pub record SiteCredential : Type 0 where
  pub id : ℕ
  pub user_id : ℕ
  pub site : CredentialSite
  pub auth_type : CredentialAuthType
  pub secret_ciphertext : String
  pub nonce : String
  pub key_version : ℕ
  pub label : String
  pub status : CredentialStatus
  pub last_verified_at : Option ℕ
  pub verify_error : String

pub record Vault : Type 0 where
  pub rows : List SiteCredential
  pub committed : List SiteCredential
  pub queue : List ℕ

-- The envelope of security/crypto.py around the JSON of a secret: what it opens is what it sealed.
pub record Envelope : Type 0 where
  pub seal : ℕ → Secret → String × (String × ℕ)
  pub open_sealed : String → String → ℕ → Option Secret
  pub open-seal :
      (salt : ℕ) (s : Secret)
      → open_sealed (seal salt s).0 (seal salt s).1.0 (seal salt s).1.1 ≡ some s

-- `SiteCredentialIn`
pub record SiteCredentialIn : Type 0 where
  pub auth_type : CredentialAuthType
  pub label : String
  pub secret : Secret

abbrev pub is_of : ℕ → CredentialSite → SiteCredential → Bool
is_of user_id site c = c.user_id == user_id && str_eq (site_name c.site) (site_name site)

unfoldable pub get_credential : ℕ → CredentialSite → Exec Vault SiteCredential
get_credential user_id site = do
  found ← gets (λ v. find (is_of user_id site) v.rows)
  or_raise found (not_found_error "no credential stored for that site")

abbrev pub credentials_of : ℕ → Vault → List SiteCredential
credentials_of user_id v = select (λ c. c.user_id == user_id) v.rows

abbrev of_site : CredentialSite → List SiteCredential → List SiteCredential
of_site site cs = select (λ c. str_eq (site_name c.site) (site_name site)) cs

-- Ordered by the site's name.
pub list_credentials : ℕ → Vault → List SiteCredential
list_credentials user_id v =
    let cs = credentials_of user_id v in
    of_site glassdoor cs ++ (of_site indeed cs ++ (of_site linkedin cs ++ of_site wellfound cs))

-- The assignments of `upsert`, to a row that is there or is new.
abbrev pub fill : Envelope → ℕ → SiteCredentialIn → SiteCredential → SiteCredential
fill e salt given c =
    let (ciphertext, rest) = e.seal salt given.secret in
    record c {
      auth_type = given.auth_type;
      label = given.label;
      secret_ciphertext = ciphertext;
      nonce = rest.0;
      key_version = rest.1;
      status = CredentialStatus.unverified;
      verify_error = "";
      last_verified_at = none;
    }

abbrev pub empty_row : ℕ → ℕ → CredentialSite → SiteCredential
empty_row id user_id site = record {
  id = id;
  user_id = user_id;
  site = site;
  auth_type = CredentialAuthType.cookie;
  secret_ciphertext = "";
  nonce = "";
  key_version = 0;
  label = "";
  status = CredentialStatus.unverified;
  last_verified_at = none;
  verify_error = "";
}

-- Commit, then enqueue.
abbrev pub committed_with : List SiteCredential → ℕ → Vault → Vault
committed_with rows id v = record v { rows = rows; committed = rows; queue = v.queue ++ id ∷ [] }

abbrev pub upsert_found :
    Envelope
    → ℕ
    → ℕ
    → ℕ
    → CredentialSite
    → SiteCredentialIn
    → Option SiteCredential
    → Vault
    → SiteCredential × Vault
upsert_found e salt fresh_id user_id site given none v =
    let row = fill e salt given (empty_row fresh_id user_id site) in
    (row, committed_with (v.rows ++ row ∷ []) fresh_id v)
upsert_found e salt fresh_id user_id site given (some c) v = (
  fill e salt given c,
  committed_with (update_where (λ x. x.id == c.id) (fill e salt given) v.rows) c.id v,
)

unfoldable pub upsert :
    Envelope → ℕ → ℕ → ℕ → CredentialSite → SiteCredentialIn → Vault → SiteCredential × Vault
upsert e salt fresh_id user_id site given v =
    upsert_found e salt fresh_id user_id site given (find (is_of user_id site) v.rows) v

pub verify : ℕ → CredentialSite → Exec Vault SiteCredential
verify user_id site = do
  row ← get_credential user_id site
  modify (λ v. record v { queue = v.queue ++ row.id ∷ [] })
  pure row

pub delete_credential : ℕ → CredentialSite → Exec Vault Unit
delete_credential user_id site = do
  row ← get_credential user_id site
  modify (λ v. record v { rows = delete_where (λ c. c.id == row.id) v.rows })

-- `open_secret`
abbrev pub open_secret : Envelope → SiteCredential → Option Secret
open_secret e c = e.open_sealed c.secret_ciphertext c.nonce c.key_version

-- `_REQUIRED_KEYS`
abbrev pub required_keys : CredentialSite → CredentialAuthType → List String
required_keys linkedin cookie = "li_at" ∷ []
required_keys indeed cookie = "CTK" ∷ "SHARED_INDEED_CSRF_TOKEN" ∷ "cookie" ∷ []
required_keys glassdoor cookie = "gdId" ∷ "cookie" ∷ []
required_keys wellfound api_key = "api_key" ∷ []
required_keys _ _ = []

abbrev has_key : Secret → String → Bool
has_key [] key = false
has_key ((k, v) ∷ rest) key = str_eq k key || has_key rest key

abbrev has_any : Secret → List String → Bool
has_any s [] = false
has_any s (k ∷ ks) = has_key s k || has_any s ks

abbrev is_empty_list : {A : Type 0} → List A → Bool
is_empty_list [] = true
is_empty_list (x ∷ xs) = false

-- `_structural_error`; `strip` is `str.strip`.
pub structural_error :
    (String → String) → CredentialSite → CredentialAuthType → Secret → Option String
structural_error strip site auth_type secret =
    let kept = select (λ kv. not (str_eq (strip kv.1) "")) secret in
    let required = required_keys site auth_type in
    if is_empty_list kept
    then some "secret has no non-empty values"
    else if str_eq (auth_name auth_type) "api_key" && not (has_key kept "api_key")
    then some "api_key auth needs a non-empty 'api_key' value"
    else if not (is_empty_list required) && not (has_any kept required)
    then some (
        String.◌++◌ (site_name site) (
          String.◌++◌ " " (
            String.◌++◌ (auth_name auth_type)
              (String.◌++◌ " auth expects one of: " (join ", " required)))))
    else none

-- What `verify_credential` writes to the row; `failure` is the text of a failed decryption.
abbrev pub judged : ℕ → CredentialStatus → String → SiteCredential → SiteCredential
judged now status error c = record c {
  status = status;
  verify_error = error;
  last_verified_at = some now;
}

abbrev pub judged_by : ℕ → Option String → SiteCredential → SiteCredential
judged_by now none = judged now CredentialStatus.valid ""
judged_by now (some e) = judged now CredentialStatus.invalid (prefix 400 e)

-- The error that the row is marked with, if any.
abbrev pub verdict : (String → String) → String → SiteCredential → Option Secret → Option String
verdict strip failure c none = some failure
verdict strip failure c (some s) = structural_error strip c.site c.auth_type s

abbrev pub verify_found :
    Envelope → (String → String) → String → ℕ → Option SiteCredential → Vault → Vault
verify_found e strip failure now none v = v
verify_found e strip failure now (some c) v =
    let judged_row = judged_by now (verdict strip failure c (open_secret e c)) in
    let rows = update_where (λ x. x.id == c.id) judged_row v.rows in
    record v { rows = rows; committed = rows }

unfoldable pub verify_credential : Envelope → (String → String) → String → ℕ → ℕ → Vault → Vault
verify_credential e strip failure now id v =
    verify_found e strip failure now (find (λ c. c.id == id) v.rows) v

abbrev is_invalid : CredentialStatus → Bool
is_invalid invalid = true
is_invalid _ = false

abbrev source_credential : Envelope → SiteCredential → Option Secret
source_credential e c = if is_invalid c.status then none else open_secret e c

-- `load_source_credentials`: site, kind and secret of every usable row.
unfoldable pub usable_credentials :
    Envelope → List SiteCredential → List (String × (String × Secret))
usable_credentials e [] = []
usable_credentials e (c ∷ cs) = elim (source_credential e c) [
  | none ↦ usable_credentials e cs
  | some s ↦ (site_name c.site, (auth_name c.auth_type, s)) ∷ usable_credentials e cs
]

unfoldable pub load_source_credentials : Envelope → ℕ → Vault → List (String × (String × Secret))
unfolding usable_credentials
load_source_credentials e user_id v = usable_credentials e (credentials_of user_id v)
