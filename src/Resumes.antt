-- ===== src/Resumes.antt =====
-- Résumés: backend/src/recruit_api/models/resume.py, services/resume_service.py, and the worker's
-- tasks/parse_resume.py. The text of a PDF and its parse by the language model are parameters.
pub mod Laws
mod Tests
use Prim.Native.String
use recruit_me.Engine.Ai.{Parsed}
use recruit_me.Prelude.{
  ℕ, String, Bool, true, false, ◌&&◌, not, Option, none, some, List, [], ◌∷◌, ◌++◌, ◌==◌, ltb,
  if◌then◌else◌, find, select, update_where, delete_where, str_eq, prefix,
}
use recruit_me.Errors.{
  AppError, not_found_error, Exec, pure, gets, or_raise, raise_if, modify, ◌>>=◌, ◌>>◌,
}

pub data ResumeStatus : Type 0 where
  uploaded parsing parsed failed : ResumeStatus

pub record Resume : Type 0 where
  pub id : ℕ
  pub user_id : ℕ
  pub job_profile_id : Option ℕ
  pub original_filename : String
  pub storage_key : String
  pub content_sha256 : String
  pub size_bytes : ℕ
  pub status : ResumeStatus
  pub parse_error : Option String

pub record ResumeParse : Type 0 where
  pub resume_id : ℕ
  pub model : String
  pub parsed_json : Parsed
  pub skills : List String

-- A profile's id and its user.
pub record Owner : Type 0 where
  pub id : ℕ
  pub user_id : ℕ

pub record Shelf : Type 0 where
  pub profiles : List Owner
  pub resumes : List Resume
  pub parses : List ResumeParse
  pub committed : List Resume
  pub queue : List ℕ
  pub objects : List (String × String)

-- The bytes of an upload: whether they start with the PDF magic, their number, and their hash.
pub record Content : Type 0 where
  pub is_pdf : Bool
  pub size : ℕ
  pub sha256 : String
  pub bytes : String

abbrev pub unsupported_media_error : AppError
unsupported_media_error = record {
  status_code = 415;
  code = "unsupported_media_type";
  message = "only PDF résumés are accepted";
}

abbrev pub payload_too_large_error : AppError
payload_too_large_error = record {
  status_code = 413;
  code = "payload_too_large";
  message = "résumé exceeds the limit";
}

-- `resume_key`
abbrev pub resume_key : (ℕ → String) → ℕ → ℕ → String
resume_key uuid_text user_id id =
    String.◌++◌ "resumes/"
      (String.◌++◌ (uuid_text user_id) (String.◌++◌ "/" (String.◌++◌ (uuid_text id) ".pdf")))

abbrev pub uploaded_row : (ℕ → String) → ℕ → ℕ → String → Content → Option ℕ → Resume
uploaded_row uuid_text id user_id filename content job_profile_id = record {
  id = id;
  user_id = user_id;
  job_profile_id = job_profile_id;
  original_filename = prefix 255 filename;
  storage_key = resume_key uuid_text user_id id;
  content_sha256 = content.sha256;
  size_bytes = content.size;
  status = ResumeStatus.uploaded;
  parse_error = none;
}

unfoldable pub upload : (ℕ → String) → ℕ → ℕ → ℕ → String → Content → Option ℕ → Exec Shelf Resume
upload uuid_text max_bytes id user_id filename content job_profile_id = do
  raise_if (not content.is_pdf) unsupported_media_error
  raise_if (ltb max_bytes content.size) payload_too_large_error
  modify (λ s. record s {
    resumes = s.resumes ++ uploaded_row uuid_text id user_id filename content job_profile_id ∷ [];
    objects = s.objects ++ (resume_key uuid_text user_id id, content.bytes) ∷ [];
    queue = s.queue ++ id ∷ [];
  })
  pure (uploaded_row uuid_text id user_id filename content job_profile_id)

abbrev owned_resume : ℕ → Option Resume → Option Resume
owned_resume user_id none = none
owned_resume user_id (some r) = if r.user_id == user_id then some r else none

unfoldable pub get_resume : ℕ → ℕ → Exec Shelf Resume
get_resume user_id id = do
  found ← gets (λ s. find (λ r. r.id == id) s.resumes)
  or_raise (owned_resume user_id found) (not_found_error "résumé not found")

abbrev owned_profile_of : ℕ → Option Owner → Option Owner
owned_profile_of user_id none = none
owned_profile_of user_id (some p) = if p.user_id == user_id then some p else none

abbrev check_profile : ℕ → Option ℕ → Exec Shelf Unit
check_profile user_id none = pure tt
check_profile user_id (some id) = do
  found ← gets (λ s. find (λ p. p.id == id) s.profiles)
  or_raise (owned_profile_of user_id found) (not_found_error "job profile not found")
  pure tt

pub set_profile : ℕ → ℕ → Option ℕ → Exec Shelf Resume
set_profile user_id id job_profile_id = do
  r ← get_resume user_id id
  check_profile user_id job_profile_id
  modify (λ s. record s {
    resumes =
        update_where (λ q. q.id == r.id) (λ q. record q { job_profile_id = job_profile_id })
          s.resumes;
  })
  pure (record r { job_profile_id = job_profile_id })

-- The row, the parses that the database deletes with it, and the object.
pub delete_resume : ℕ → ℕ → Exec Shelf Unit
delete_resume user_id id = do
  r ← get_resume user_id id
  modify (λ s. record s {
    resumes = delete_where (λ q. q.id == r.id) s.resumes;
    parses = delete_where (λ p. p.resume_id == r.id) s.parses;
    objects = delete_where (λ o. str_eq o.0 r.storage_key) s.objects;
  })

-- What the `try` of `parse_resume` comes to: no text, a parse with an error, the object of a
-- parse with its skills, or an exception with its text.
pub data Parse : Type 0 where
  no_text : Parse
  refused : String → Parse
  read : Parsed → List String → Parse
  crashed : String → Parse

abbrev pub set_status : ResumeStatus → Option String → Resume → Resume
set_status status error r = record r { status = status; parse_error = error }

-- `_fail`
abbrev pub fail_with : String → Resume → Resume
fail_with reason = set_status ResumeStatus.failed (some (prefix 2000 reason))

abbrev pub write_resume : ℕ → (Resume → Resume) → Shelf → Shelf
write_resume id f s =
    let rows = update_where (λ q. q.id == id) f s.resumes in
    record s { resumes = rows; committed = rows }

abbrev pub parse_found : String → Parse → Resume → Shelf → Shelf
parse_found model no_text r s =
    write_resume r.id (fail_with "No extractable text — image-only or corrupt PDF.") s
parse_found model (refused error) r s = write_resume r.id (fail_with error) s
parse_found model (crashed error) r s = write_resume r.id (fail_with error) s
parse_found model (read object skills) r s =
    write_resume r.id (set_status ResumeStatus.parsed none) (record s {
      parses =
          s.parses
          ++ record { resume_id = r.id; model = model; parsed_json = object; skills = skills } ∷ [];
    })

abbrev pub parse_row : String → (Resume → Parse) → Option Resume → Shelf → Shelf
parse_row model outcome none s = s
parse_row model outcome (some r) s = parse_found model (outcome r) r s

-- `outcome` tells what reading and parsing a row comes to.
unfoldable pub parse_resume : String → (Resume → Parse) → ℕ → Shelf → Shelf
parse_resume model outcome id s = parse_row model outcome (find (λ r. r.id == id) s.resumes) s
