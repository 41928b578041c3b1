-- ===== src/Runs/Context/Laws.antt =====
-- Whose rows reach the engine: run_context.py.
use recruit_me.Prelude.{
  ℕ, ◌≡◌, refl, String, Bool, true, some, List, [], ◌∷◌, ◌==◌, ==-refl, find, select, exists, All,
  select-select, find-select, All-imp, arith, inl, inr, Bool-cases,
}
use recruit_me.Runs.State.{Run}
use recruit_me.Profiles.{JobProfile}
use recruit_me.Resumes.{Resume}
use recruit_me.Credentials.{Envelope, SiteCredential, load_source_credentials}
use recruit_me.Matches.{MatchRow}
use recruit_me.Runs.Context.{
  StoredParse, Rows, is_usable, newest_parse, engine_resumes, load_known_hashes, build_input,
}

abbrev own_resumes : ℕ → List Resume → List Resume
own_resumes user_id rs = select (λ r. r.user_id == user_id) rs

abbrev is_own_parse : ℕ → List Resume → StoredParse → Bool
is_own_parse user_id rs p = exists (λ r. r.id == p.row.resume_id) (own_resumes user_id rs)

-- The tables without the rows of other users.
abbrev pub own_rows : ℕ → Rows → Rows
own_rows user_id rows = record {
  profiles = select (λ p. p.user_id == user_id) rows.profiles;
  resumes = own_resumes user_id rows.resumes;
  parses = select (is_own_parse user_id rows.resumes) rows.parses;
  vault = record rows.vault { rows = select (λ c. c.user_id == user_id) rows.vault.rows };
  matches = select (λ m. m.row.user_id == user_id) rows.matches;
}

exists-select_cons :
    {A : Type 0} (t p : A → Bool) (x : A) (xs : List A)
    → exists t (select p xs) ≡ true
    → exists t (select p (x ∷ xs)) ≡ true
unfolding select exists
exists-select_cons t p x xs h = ground arith

exists-select_here :
    {A : Type 0} (key : A → ℕ) (p : A → Bool) (x : A) (xs : List A)
    → p x ≡ true
    → exists (λ y. key y == key x) (select p (x ∷ xs)) ≡ true
unfolding select exists
exists-select_here key p x xs h = rw (h, ==-refl (key x)) refl

-- A selection holds its rows.
All-of_select :
    {A : Type 0} (key : A → ℕ) (q p : A → Bool) (xs : List A)
    → ((x : A) → q x ≡ true → p x ≡ true)
    → All (λ x. exists (λ y. key y == key x) (select p xs) ≡ true) (select q xs)
unfolding select exists
All-of_select key q p [] h = tt
All-of_select key q p (x ∷ xs) h =
    let rest =
      All-imp (λ y. exists (λ z. key z == key y) (select p xs) ≡ true)
        (λ y. exists (λ z. key z == key y) (select p (x ∷ xs)) ≡ true) (select q xs)
        (λ y e. exists-select_cons (λ z. key z == key y) p x xs e) (All-of_select key q p xs h) in
    elim (Bool-cases (q x)) [
      | inl t ↦ rw t (exists-select_here key p x xs (h x t), rest)
      | inr t ↦ rw t rest
    ]

engine_resumes_own :
    (uuid_text : ℕ → String) (own : StoredParse → Bool) (parses : List StoredParse)
    (rs : List Resume)
    → All (λ r. (p : StoredParse) → (p.row.resume_id == r.id) ≡ true → own p ≡ true) rs
    → engine_resumes uuid_text (select own parses) rs ≡ engine_resumes uuid_text parses rs
unfolding engine_resumes newest_parse
engine_resumes_own uuid_text own parses [] a = refl
engine_resumes_own uuid_text own parses (r ∷ rs) (here, a) =
    rw
      (
        select-select (λ p. p.row.resume_id == r.id) own parses here,
        engine_resumes_own uuid_text own parses rs a,
      )
      refl

usable_user : (run : Run) (r : Resume) → is_usable run r ≡ true → (r.user_id == run.user_id) ≡ true
usable_user run r h = ground arith

parse_of_own :
    (user_id : ℕ) (rs : List Resume) (r : Resume)
    → exists (λ o. o.id == r.id) (own_resumes user_id rs) ≡ true
    → (p : StoredParse) → (p.row.resume_id == r.id) ≡ true
    → is_own_parse user_id rs p ≡ true
parse_of_own user_id rs r there p h =
    let same : p.row.resume_id ≡ r.id = ground arith in rw same there

-- The engine's input for a run, and the hashes that it counts as seen, come from the rows of the
-- run's user alone: without the profiles, résumés, parses, credentials and matches of all other
-- users they are the same, if the run's profile is the user's.
pub build_input_isolated :
    (uuid_text : ℕ → String) (envelope : Envelope) (run : Run) (rows : Rows) (p : JobProfile)
    → find (λ q. q.id == run.job_profile_id) rows.profiles ≡ some p
    → p.user_id ≡ run.user_id
    → build_input uuid_text envelope run (own_rows run.user_id rows)
      ≡ build_input uuid_text envelope run rows
unfolding build_input load_known_hashes load_source_credentials
build_input_isolated uuid_text envelope run rows p found own =
    let owned : (p.user_id == run.user_id) ≡ true = rw own (==-refl run.user_id) in
    let users = λ (r : Resume). r.user_id == run.user_id in
    let parsed =
      All-imp (λ r. exists (λ o. o.id == r.id) (own_resumes run.user_id rows.resumes) ≡ true)
        (λ r.
          (s : StoredParse)
          → (s.row.resume_id == r.id) ≡ true
          → is_own_parse run.user_id rows.resumes s ≡ true)
        (select (is_usable run) rows.resumes)
        (λ r there. parse_of_own run.user_id rows.resumes r there)
        (All-of_select (λ r. r.id) (is_usable run) users rows.resumes (usable_user run)) in
    rw
      (
        find-select (λ q. q.id == run.job_profile_id) (λ q. q.user_id == run.user_id) rows.profiles
            p found owned,
        found,
        select-select (is_usable run) users rows.resumes (usable_user run),
        engine_resumes_own uuid_text (is_own_parse run.user_id rows.resumes) rows.parses
            (select (is_usable run) rows.resumes) parsed,
        select-select (λ (m : MatchRow). m.row.user_id == run.user_id)
            (λ m. m.row.user_id == run.user_id) rows.matches (λ m h. h),
        select-select (λ (c : SiteCredential). c.user_id == run.user_id)
            (λ c. c.user_id == run.user_id) rows.vault.rows (λ c h. h),
      )
      refl
