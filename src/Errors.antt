-- ===== src/Errors.antt =====
-- backend/src/recruit_api/errors.py: the application's errors, and methods that may raise them.
--
-- A service method is an action on the state that it may change: what it wrote before a raise is
-- still there, so that the state comes back beside an error too.
pub mod Inversion
pub mod Keeps
use recruit_me.Prelude.{ℕ, String, Bool, true, false, Option, none, some, ◌==◌, if◌then◌else◌}

pub record AppError : Type 0 where
  pub status_code : ℕ
  pub code : String
  pub message : String

abbrev pub auth_error : String → AppError
auth_error message = record { status_code = 401; code = "unauthorized"; message = message }

abbrev pub forbidden_error : String → AppError
forbidden_error message = record { status_code = 403; code = "forbidden"; message = message }

abbrev pub not_found_error : String → AppError
not_found_error message = record { status_code = 404; code = "not_found"; message = message }

abbrev pub conflict_error : String → AppError
conflict_error message = record { status_code = 409; code = "conflict"; message = message }

-- `ConflictError(..., code="email_taken")`
abbrev pub email_taken : AppError
email_taken = record {
  status_code = 409;
  code = "email_taken";
  message = "an account with that email already exists";
}

-- What the database raises when a unique constraint is violated; the server answers 500.
abbrev pub integrity_error : AppError
integrity_error = record { status_code = 500; code = "integrity"; message = "" }

-- `app_error_handler`: the status, and whether `WWW-Authenticate` is sent.
pub record ErrorResponse : Type 0 where
  pub status_code : ℕ
  pub code : String
  pub message : String
  pub www_authenticate : Option String

pub app_error_handler : AppError → ErrorResponse
app_error_handler e = record {
  status_code = e.status_code;
  code = e.code;
  message = e.message;
  www_authenticate = if e.status_code == 401 then some "Bearer" else none;
}

pub data Result {ℓ} (A : Type ℓ) : Type ℓ where
  ok : A → Result A
  err : AppError → Result A

abbrev pub Exec {ℓ} : Type ℓ → Type ℓ → Type ℓ
Exec S A = S → Result A × S

module _ {ℓ} {S A : Type ℓ} where
  abbrev pub pure : A → Exec S A
  pure a s = (ok a, s)

  abbrev pub raise : AppError → Exec S A
  raise e s = (err e, s)

  abbrev pub gets : (S → A) → Exec S A
  gets f s = (ok (f s), s)

  abbrev pub or_raise : Option A → AppError → Exec S A
  or_raise none e = raise e
  or_raise (some a) e = pure a

abbrev pub continue {ℓ} : {S A B : Type ℓ} → (A → Exec S B) → Result A × S → Result B × S
continue f (ok a, s) = f a s
continue f (err e, s) = (err e, s)

infixl 5 ◌>>=◌ ◌>>◌
unfoldable pub ◌>>=◌ {ℓ} : {S A B : Type ℓ} → Exec S A → (A → Exec S B) → Exec S B
◌>>=◌ m f s = continue f (m s)

abbrev pub ◌>>◌ {ℓ} : {S A B : Type ℓ} → Exec S A → Exec S B → Exec S B
m >> k = m >>= λ _. k

module _ {S : Type 0} where
  abbrev pub raise_if : Bool → AppError → Exec S Unit
  raise_if true e s = (err e, s)
  raise_if false e s = (ok tt, s)

  abbrev pub modify : (S → S) → Exec S Unit
  modify f s = (ok tt, f s)

  -- An insert: the database refuses it if a unique column of another row has the same value.
  unfoldable pub unless_taken : Bool → S → Exec S Unit
  unless_taken true added s = (err integrity_error, s)
  unless_taken false added s = (ok tt, added)
