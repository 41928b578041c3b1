-- ===== src/Profiles.antt =====
-- The job profiles: backend/src/recruit_api/models/job_profile.py, schemas/job_profile.py and
-- services/job_profile_service.py.
pub mod Laws
mod Tests
use recruit_me.Prelude.{
  ℕ, String, Bool, true, false, Option, none, some, List, [], ◌∷◌, ◌++◌, ◌==◌, leb, if◌then◌else◌,
  find, select, update_where, delete_where, order_by,
}
use recruit_me.Errors.{
  not_found_error, integrity_error, Exec, pure, gets, or_raise, modify, ◌>>=◌, ◌>>◌,
}
use recruit_me.Resumes.{Resume}

-- `JobProfileIn`
pub record JobProfileIn : Type 0 where
  pub name : String
  pub target_roles : List String
  pub locations : List String
  pub job_types : List String
  pub enabled_sources : List String
  pub must_have_skills : List String
  pub nice_to_have_skills : List String
  pub exclude_companies : List String
  pub watchlist_companies : List String
  pub min_match_percent : ℕ
  pub min_salary : ℕ
  pub big3_optin : Bool
  pub schedule_cron : Option String
  pub timezone : String

-- The columns of `JobProfile`: those that a user gives, and the others.
pub record JobProfile : Type 0 where
  pub id : ℕ
  pub user_id : ℕ
  pub is_active : Bool
  pub created_at : ℕ
  pub given : JobProfileIn

-- One entry of a patch that was set; nothing stands for `null`.
pub data Assignment : Type 0 where
  name timezone schedule_cron : Option String → Assignment
  target_roles locations job_types enabled_sources must_have_skills nice_to_have_skills
        exclude_companies watchlist_companies :
      Option (List String) → Assignment
  min_match_percent min_salary : Option ℕ → Assignment
  big3_optin : Option Bool → Assignment

-- `setattr` and the flush, which a `null` fails except in `schedule_cron`.
abbrev pub assign : Assignment → JobProfileIn → Option JobProfileIn
assign (name (some v)) p = some (record p { name = v })
assign (timezone (some v)) p = some (record p { timezone = v })
assign (schedule_cron v) p = some (record p { schedule_cron = v })
assign (target_roles (some v)) p = some (record p { target_roles = v })
assign (locations (some v)) p = some (record p { locations = v })
assign (job_types (some v)) p = some (record p { job_types = v })
assign (enabled_sources (some v)) p = some (record p { enabled_sources = v })
assign (must_have_skills (some v)) p = some (record p { must_have_skills = v })
assign (nice_to_have_skills (some v)) p = some (record p { nice_to_have_skills = v })
assign (exclude_companies (some v)) p = some (record p { exclude_companies = v })
assign (watchlist_companies (some v)) p = some (record p { watchlist_companies = v })
assign (min_match_percent (some v)) p = some (record p { min_match_percent = v })
assign (min_salary (some v)) p = some (record p { min_salary = v })
assign (big3_optin (some v)) p = some (record p { big3_optin = v })
assign _ p = none

-- `patch.model_dump(exclude_unset=True)`
abbrev pub JobProfilePatch : Type 0
JobProfilePatch = List Assignment

abbrev assign_next :
    (JobProfileIn → Option JobProfileIn) → Option JobProfileIn → Option JobProfileIn
assign_next rest none = none
assign_next rest (some p) = rest p

unfoldable pub assign_all : JobProfilePatch → JobProfileIn → Option JobProfileIn
assign_all [] p = some p
assign_all (a ∷ patch) p = assign_next (assign_all patch) (assign a p)

-- The profiles, and the résumés that refer to them.
pub record Desk : Type 0 where
  pub profiles : List JobProfile
  pub resumes : List Resume

abbrev new_profile : ℕ → ℕ → ℕ → JobProfileIn → JobProfile
new_profile id now user_id given = record {
  id = id;
  user_id = user_id;
  is_active = false;
  created_at = now;
  given = given;
}

-- `JobProfileService.create`, with the fresh id and the time of the insert
unfoldable pub create_profile : ℕ → ℕ → ℕ → JobProfileIn → Exec Desk JobProfile
create_profile id now user_id given = do
  modify (λ d. record d { profiles = d.profiles ++ new_profile id now user_id given ∷ [] })
  pure (new_profile id now user_id given)

-- `ORDER BY created_at DESC`
abbrev by_newest : JobProfile → JobProfile → Bool
by_newest a b = leb b.created_at a.created_at

-- `JobProfileService.list`
unfoldable pub list_profiles : ℕ → Desk → List JobProfile
list_profiles user_id d = order_by by_newest (select (λ p. p.user_id == user_id) d.profiles)

abbrev pub own_profile : ℕ → Option JobProfile → Option JobProfile
own_profile user_id none = none
own_profile user_id (some p) = if p.user_id == user_id then some p else none

-- `JobProfileService.get`
unfoldable pub get_profile : ℕ → ℕ → Exec Desk JobProfile
get_profile user_id profile_id = do
  found ← gets (λ d. find (λ p. p.id == profile_id) d.profiles)
  or_raise (own_profile user_id found) (not_found_error "job profile not found")

abbrev pub write_profile : ℕ → (JobProfile → JobProfile) → Desk → Desk
write_profile id f d = record d { profiles = update_where (λ p. p.id == id) f d.profiles }

abbrev with_given : JobProfileIn → JobProfile → JobProfile
with_given given p = record p { given = given }

-- `JobProfileService.update`
unfoldable pub update_profile : ℕ → ℕ → JobProfilePatch → Exec Desk JobProfile
update_profile user_id profile_id patch = do
  p ← get_profile user_id profile_id
  given ← or_raise (assign_all patch p.given) integrity_error
  modify (write_profile p.id (with_given given))
  pure (with_given given p)

-- The foreign key of a résumé is set to null when its profile goes.
abbrev pub forget_profile : ℕ → Resume → Resume
forget_profile id r = record r { job_profile_id = none }

abbrev refers_to : ℕ → Resume → Bool
refers_to id r = elim r.job_profile_id [ none ↦ false | some n ↦ n == id ]

-- `JobProfileService.delete`
unfoldable pub delete_profile : ℕ → ℕ → Exec Desk Unit
delete_profile user_id profile_id = do
  p ← get_profile user_id profile_id
  modify (λ d. record d {
    profiles = delete_where (λ q. q.id == p.id) d.profiles;
    resumes = update_where (refers_to p.id) (forget_profile p.id) d.resumes;
  })

abbrev with_active : Bool → JobProfile → JobProfile
with_active active p = record p { is_active = active }

-- `JobProfileService.set_active`
unfoldable pub set_active : ℕ → ℕ → Bool → Exec Desk JobProfile
set_active user_id profile_id active = do
  p ← get_profile user_id profile_id
  modify (write_profile p.id (with_active active))
  pure (with_active active p)

-- A request that changes the profiles.
pub data ProfileCall : Type 0 where
  creates : ℕ → ℕ → JobProfileIn → ProfileCall
  updates : ℕ → JobProfilePatch → ProfileCall
  deletes : ℕ → ProfileCall
  activates : ℕ → Bool → ProfileCall

abbrev pub call : ℕ → ProfileCall → Desk → Desk
call user_id (creates id now given) d = (create_profile id now user_id given d).1
call user_id (updates id patch) d = (update_profile user_id id patch d).1
call user_id (deletes id) d = (delete_profile user_id id d).1
call user_id (activates id active) d = (set_active user_id id active d).1
