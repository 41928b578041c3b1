-- ===== src/Profiles/Laws.antt =====
-- Requests for profiles: job_profile_service.py.
use recruit_me.Prelude.{
  ℕ, ◌≡◌, refl, Bool, false, Option, none, some, List, [], ◌∷◌, ◌++◌, ◌==◌, ==-refl, find, select,
  update_where, Option-cases, inl, inr, arith, not, IsKeyed, select-update_where,
  select-delete_where, key_of_found,
}
use recruit_me.Errors.{◌>>=◌}
use recruit_me.Profiles.{
  JobProfile, JobProfilePatch, Desk, own_profile, get_profile, create_profile, update_profile,
  delete_profile, set_active, assign_all, ProfileCall, creates, updates, deletes, activates, call,
}

abbrev pub of_others : ℕ → JobProfile → Bool
of_others user_id p = not (p.user_id == user_id)

select-append :
    {A : Type 0} (p : A → Bool) (xs : List A) (x : A)
    → p x ≡ false
    → select p (xs ++ x ∷ []) ≡ select p xs
unfolding select
select-append p [] x h = rw h refl
select-append p (y ∷ xs) x h = ground (arith, select-append p xs x h)

own_profile-eq :
    (user_id : ℕ) (o : Option JobProfile) (p : JobProfile)
    → own_profile user_id o ≡ some p
    → (o ≡ some p) × (of_others user_id p ≡ false)
own_profile-eq user_id none p e = cc
own_profile-eq user_id (some q) p e = ground arith

module _ (user_id id : ℕ) (d : Desk) (keyed : IsKeyed (λ p. p.id) d.profiles) where
  -- The profile that a request is about, with what its row and its owner tell.
  own_profile_found :
      (p : JobProfile)
      → own_profile user_id (find (λ q. q.id == id) d.profiles) ≡ some p
      → (find (λ q. q.id == id) d.profiles ≡ some p) × (of_others user_id p ≡ false) × (p.id ≡ id)
  own_profile_found p e =
      let (found, out) = own_profile-eq user_id (find (λ q. q.id == id) d.profiles) p e in
      (found, out, key_of_found (λ q. q.id) id d.profiles p found)

  others-update :
      (f : JobProfile → JobProfile) (p : JobProfile)
      → ((x : JobProfile) → of_others user_id (f x) ≡ of_others user_id x)
      → own_profile user_id (find (λ q. q.id == id) d.profiles) ≡ some p
      → select (of_others user_id) (update_where (λ q. q.id == p.id) f d.profiles)
        ≡ select (of_others user_id) d.profiles
  others-update f p keep e =
      let (found, out, same) = own_profile_found p e in
      rw same
        (select-update_where (λ q. q.id) (of_others user_id) id f d.profiles p keep keyed found out)

  update_profile_isolated :
      (patch : JobProfilePatch)
      → select (of_others user_id) (update_profile user_id id patch d).1.profiles
        ≡ select (of_others user_id) d.profiles
  unfolding update_profile get_profile ◌>>=◌
  update_profile_isolated patch =
      elim (Option-cases (own_profile user_id (find (λ p. p.id == id) d.profiles))) [
        | inl absent ↦ rw absent refl
        | inr (p, e) ↦ elim (Option-cases (assign_all patch p.given)) [
          | inl refused ↦ rw (e, refused) refl
          | inr (given, fine) ↦ rw (e, fine) (others-update _ p (λ x. refl) e)
        ]
      ]

  set_active_isolated :
      (active : Bool)
      → select (of_others user_id) (set_active user_id id active d).1.profiles
        ≡ select (of_others user_id) d.profiles
  unfolding set_active get_profile ◌>>=◌
  set_active_isolated active =
      elim (Option-cases (own_profile user_id (find (λ p. p.id == id) d.profiles))) [
        | inl absent ↦ rw absent refl
        | inr (p, e) ↦ rw e (others-update _ p (λ x. refl) e)
      ]

  delete_profile_isolated :
      select (of_others user_id) (delete_profile user_id id d).1.profiles
      ≡ select (of_others user_id) d.profiles
  unfolding delete_profile get_profile ◌>>=◌
  delete_profile_isolated =
      elim (Option-cases (own_profile user_id (find (λ p. p.id == id) d.profiles))) [
        | inl absent ↦ rw absent refl
        | inr (p, e) ↦
            let (found, out, same) = own_profile_found p e in
            rw (e, same)
              (select-delete_where (λ q. q.id) (of_others user_id) id d.profiles p keyed found out)
      ]

-- Whatever a user requests, the profiles of all other users stay as they are and in their order, if
-- the ids are a key.
pub call_isolated :
    (user_id : ℕ) (c : ProfileCall) (d : Desk)
    → IsKeyed (λ p. p.id) d.profiles
    → select (of_others user_id) (call user_id c d).profiles ≡ select (of_others user_id) d.profiles
unfolding create_profile ◌>>=◌
call_isolated user_id (creates id now given) d keyed =
    select-append (of_others user_id) d.profiles _ (rw (==-refl user_id) refl)
call_isolated user_id (updates id patch) d keyed = update_profile_isolated user_id id d keyed patch
call_isolated user_id (deletes id) d keyed = delete_profile_isolated user_id id d keyed
call_isolated user_id (activates id active) d keyed = set_active_isolated user_id id d keyed active
