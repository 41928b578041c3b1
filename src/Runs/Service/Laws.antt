-- ===== src/Runs/Service/Laws.antt =====
-- Creation and cancellation of runs: run_service.py.
use recruit_me.Prelude.{
  ℕ, ◌⊎◌, ◌≡◌, ◌≢◌, refl, sym, ap, ◌∙◌, String, Bool, true, false, Option, none, some, [], ◌∷◌,
  ◌++◌, ◌==◌, arith, str_eq, eq_refl, find, exists, find-single, find-append-none, inl, inr,
  Bool-cases, ==-refl, ==-ne, exists-append-left, exists-append-right, exists-single, All-append,
  All-imp, find-update_where-some, All,
}
use recruit_me.Errors.{conflict_error, Result, ok, err, Exec, continue, unless_taken, ◌>>=◌}
use recruit_me.Errors.Inversion.{
  bind-eq-ok, modify-eq-ok, gets-eq, ok-injective, or_raise_last, unless_taken-eq-ok, bind-ok,
}
use recruit_me.Runs.State.{RunTrigger, Run, JobProfile, World, run_by_id, write_run, is_terminal}
use recruit_me.Runs.Service.{
  Fresh, owned_profile, key_of, run_by_key, new_run, add_run, enqueue, create, create_unless, get,
  cancel, cancel_at, owned_by, owner_of_profile,
}

-- The world after a run was stored, committed and put on the queue.
abbrev pub with_run : Run → World → World
with_run r w = record w {
  db = record w.db { runs = w.db.runs ++ r ∷ [] };
  committed = record w.db { runs = w.db.runs ++ r ∷ [] };
  queue = w.queue ++ r.id ∷ [];
}

owned_profile-eq-ok :
    (user_id profile_id : ℕ) (w v : World) (p : JobProfile)
    → owned_profile user_id profile_id w ≡ (ok p, v)
    → (owner_of_profile user_id (find (λ q. q.id == profile_id) w.db.profiles) ≡ some p) × (v ≡ w)
unfolding owned_profile
owned_profile-eq-ok user_id profile_id w v p h =
    or_raise_last _ _ (gets-eq (λ u. find (λ q. q.id == profile_id) u.db.profiles) _ h)

module _ (now : ℕ) (fr : Fresh) (user_id profile_id : ℕ) (trigger : RunTrigger) (key : String) where
  create_unless-eq-ok :
      (existing : Option Run) (w w' : World) (r : Run) (created : Bool)
      → create_unless enqueue now fr user_id profile_id trigger key existing w
        ≡ (ok (r, created), w')
      → ((existing ≡ some r) × (r.user_id ≡ user_id) × (created ≡ false) × (w' ≡ w))
        ⊎ ((existing ≡ none)
            × (r ≡ new_run now fr user_id profile_id trigger key)
            × (created ≡ true)
            × (w' ≡ with_run r w)
            × (exists (λ q. str_eq q.idempotency_key key) w.db.runs ≡ false))
  unfolding create_unless add_run enqueue
  create_unless-eq-ok (some q) w w' r created h = inl (ground arith)
  create_unless-eq-ok none w w' r created h =
      let (_, v, added, h1) = bind-eq-ok _ _ h in
      let (free, stored) = unless_taken-eq-ok _ _ w v added in
      let h2 = modify-eq-ok _ _ (modify-eq-ok _ _ h1) in
      let pair = ok-injective (ap (λ (z : Result (Run × Bool) × World). z.0) h2) in
      let world = ap (λ (z : Result (Run × Bool) × World). z.1) h2 in
      let same : r ≡ new_run now fr user_id profile_id trigger key =
        ap (λ (z : Run × Bool). z.0) (sym pair) in
      inr (
        refl,
        same,
        ap (λ (z : Run × Bool). z.1) (sym pair),
        rw same (sym world ∙ rw stored refl),
        free,
      )

-- What a successful creation did: it found the user's own run of that key and changed nothing, or
-- it stored, committed and enqueued a new one.
pub create-eq-ok :
    (uuid_text : ℕ → String) (now : ℕ) (fr : Fresh) (user_id profile_id : ℕ) (trigger : RunTrigger)
    (given : Option String) (w w' : World) (r : Run) (created : Bool)
    → create enqueue uuid_text now fr user_id profile_id trigger given w ≡ (ok (r, created), w')
    → let key = key_of uuid_text trigger profile_id fr given in
      (p : JobProfile) × (owner_of_profile user_id (find (λ q. q.id == profile_id) w.db.profiles)
        ≡ some p)
      × (((run_by_key key w ≡ some r) × (r.user_id ≡ user_id) × (created ≡ false) × (w' ≡ w))
          ⊎ ((run_by_key key w ≡ none)
              × (r ≡ new_run now fr user_id profile_id trigger key)
              × (created ≡ true)
              × (w' ≡ with_run r w)
              × (exists (λ q. str_eq q.idempotency_key key) w.db.runs ≡ false)))
unfolding create
create-eq-ok uuid_text now fr user_id profile_id trigger given w w' r created h =
    let key = key_of uuid_text trigger profile_id fr given in
    let (p, v, owned, h1) = bind-eq-ok _ _ h in
    let (mine, same) = owned_profile-eq-ok user_id profile_id w v p owned in
    let h2 = gets-eq (run_by_key key) _ h1 in
    (
      p,
      mine,
      create_unless-eq-ok now fr user_id profile_id trigger key (run_by_key key w) w w' r created
          (rw same at h2),
    )

key_given :
    (uuid_text : ℕ → String) (trigger : RunTrigger) (profile_id : ℕ) (fr : Fresh) (key : String)
    → str_eq key "" ≡ false
    → key_of uuid_text trigger profile_id fr (some key) ≡ key
key_given uuid_text trigger profile_id fr key given = rw given refl

module _ (uuid_text : ℕ → String) (now : ℕ) (fr : Fresh) (user_id profile_id : ℕ)
    (trigger : RunTrigger) (key : String) (w : World) (p : JobProfile) (r : Run)
    (given : str_eq key "" ≡ false)
    (mine : owner_of_profile user_id (find (λ q. q.id == profile_id) w.db.profiles) ≡ some p)
    (found : run_by_key key w ≡ some r) where
  create_found :
      create enqueue uuid_text now fr user_id profile_id trigger (some key) w
      ≡ create_unless enqueue now fr user_id profile_id trigger key (some r) w
  unfolding create owned_profile ◌>>=◌
  create_found =
      let used = key_of uuid_text trigger profile_id fr (some key) in
      let looked : create enqueue uuid_text now fr user_id profile_id trigger (some key) w
          ≡ create_unless enqueue now fr user_id profile_id trigger used (run_by_key used w) w =
        bind-ok {v = w} (owned_profile user_id profile_id) _ p (rw mine refl) in
      looked ∙ rw (key_given uuid_text trigger profile_id fr key given, found) refl

-- A second creation with the same key, by the same user, returns the run of the first and changes
-- nothing: no row is added and nothing is put on the queue.
pub create_once :
    (uuid_text : ℕ → String) (now later : ℕ) (fr fr' : Fresh) (user_id profile_id : ℕ)
    (trigger : RunTrigger) (key : String) (w w' : World) (r : Run) (created : Bool)
    → str_eq key "" ≡ false
    → create enqueue uuid_text now fr user_id profile_id trigger (some key) w
      ≡ (ok (r, created), w')
    → create enqueue uuid_text later fr' user_id profile_id trigger (some key) w'
      ≡ (ok (r, false), w')
unfolding create_unless
create_once uuid_text now later fr fr' user_id profile_id trigger key w w' r created given h =
    let (p, mine, how) =
      create-eq-ok uuid_text now fr user_id profile_id trigger (some key) w w' r created h in
    let same = key_given uuid_text trigger profile_id fr key given in
    elim how [
      | inl (found, owner, _, world) ↦ rw world (
          create_found uuid_text later fr' user_id profile_id trigger key w p r given mine
            (rw same at found)
          ∙ rw (owner, ==-refl) refl)
      | inr (absent, row, _, world, _) ↦
          let key_of_r : r.idempotency_key ≡ key = ap (λ (x : Run). x.idempotency_key) row ∙ same in
          let owner : r.user_id ≡ user_id = ap (λ (x : Run). x.user_id) row in
          let test = λ (q : Run). str_eq q.idempotency_key key in
          rw world (
            create_found uuid_text later fr' user_id profile_id trigger key (with_run r w) p r given
              mine
              (find-append-none test w.db.runs (r ∷ []) (rw same at absent)
                ∙ find-single test r (rw key_of_r (eq_refl key)))
            ∙ rw (owner, ==-refl) refl)
    ]

-- A key that another user's run has is refused, and nothing changes.
pub create_of_other_user :
    (uuid_text : ℕ → String) (now : ℕ) (fr : Fresh) (user_id profile_id : ℕ) (trigger : RunTrigger)
    (key : String) (w : World) (p : JobProfile) (r : Run)
    → str_eq key "" ≡ false
    → owner_of_profile user_id (find (λ q. q.id == profile_id) w.db.profiles) ≡ some p
    → run_by_key key w ≡ some r
    → r.user_id ≢ user_id
    → create enqueue uuid_text now fr user_id profile_id trigger (some key) w
      ≡ (err (conflict_error "idempotency key already used"), w)
unfolding create_unless
create_of_other_user uuid_text now fr user_id profile_id trigger key w p r given mine found other =
    create_found uuid_text now fr user_id profile_id trigger key w p r given mine found
    ∙ rw (==-ne r.user_id user_id other) refl

-- Every job on the queue names a run that is committed.
pub record IsBacked (w : World) : Type 0 where
  pub jobs : All (λ id. exists (λ r. r.id == id) w.committed.runs ≡ true) w.queue
  pub kept :
      (id : ℕ)
      → exists (λ r. r.id == id) w.committed.runs ≡ true
      → exists (λ r. r.id == id) w.db.runs ≡ true

with_run-IsBacked : (r : Run) (w : World) → IsBacked w → IsBacked (with_run r w)
with_run-IsBacked r w backed = record {
  jobs =
      All-append _ w.queue (r.id ∷ [])
        (All-imp _ _ w.queue
          (λ id e. exists-append-left (λ q. q.id == id) w.db.runs (r ∷ []) (backed.kept id e))
          backed.jobs)
        (
          exists-append-right (λ q. q.id == r.id) w.db.runs (r ∷ [])
              (exists-single _ r (==-refl r.id)),
          tt,
        );
  kept = λ id e. e;
}

module _ {S A B : Type 0} where
  bind-cong :
      (m : Exec S A) (k k' : A → Exec S B) (w : S)
      → ((a : A) (v : S) → k a v ≡ k' a v)
      → (m >>= k) w ≡ (m >>= k') w
  unfolding ◌>>=◌
  bind-cong m k k' w same = go (m w)
    where
      go : (z : Result A × S) → continue k z ≡ continue k' z
      go (ok a, v) = same a v
      go (err e, v) = refl

-- The two queues do the same with the job of a run that is committed.
abbrev pub IsAgreeing : (ℕ → Exec World Unit) → (ℕ → Exec World Unit) → Type 0
IsAgreeing put put' =
    (id : ℕ) (v : World) → exists (λ r. r.id == id) v.committed.runs ≡ true → put id v ≡ put' id v

module _ (put put' : ℕ → Exec World Unit) (agree : IsAgreeing put put') (now : ℕ) (fr : Fresh)
    (user_id profile_id : ℕ) (trigger : RunTrigger) where
  create_unless-agrees :
      (key : String) (o : Option Run) (w : World)
      → create_unless put now fr user_id profile_id trigger key o w
        ≡ create_unless put' now fr user_id profile_id trigger key o w
  unfolding create_unless add_run unless_taken ◌>>=◌
  create_unless-agrees key (some r) w = refl
  create_unless-agrees key none w =
      let r = new_run now fr user_id profile_id trigger key in
      let stored = with_run r w in
      let same =
        agree fr.run_id (record stored { queue = w.queue })
          (exists-append-right (λ q. q.id == fr.run_id) w.db.runs (r ∷ [])
            (exists-single _ r (==-refl fr.run_id))) in
      elim (Bool-cases (exists (λ q. str_eq q.idempotency_key key) w.db.runs)) [
        | inl t ↦ rw t refl
        | inr t ↦ rw (t, same) refl
      ]

  create-agrees :
      (uuid_text : ℕ → String) (given : Option String) (w : World)
      → create put uuid_text now fr user_id profile_id trigger given w
        ≡ create put' uuid_text now fr user_id profile_id trigger given w
  unfolding create ◌>>=◌
  create-agrees uuid_text given w =
      bind-cong (owned_profile user_id profile_id) _ _ w
        (λ p v. create_unless-agrees _ (run_by_key _ v) v)

-- If every job on the queue names a committed run, this is so after a creation that succeeds, and a
-- job is put on the queue only once its run is committed: with any other queue that does the same as
-- this one with the jobs of committed runs, the creation has the same result.
pub create-IsBacked :
    (uuid_text : ℕ → String) (now : ℕ) (fr : Fresh) (user_id profile_id : ℕ) (trigger : RunTrigger)
    (given : Option String) (w w' : World) (r : Run) (created : Bool) (put : ℕ → Exec World Unit)
    → IsAgreeing enqueue put
    → IsBacked w
    → create enqueue uuid_text now fr user_id profile_id trigger given w ≡ (ok (r, created), w')
    → IsBacked w'
      × (create put uuid_text now fr user_id profile_id trigger given w ≡ (ok (r, created), w'))
create-IsBacked uuid_text now fr user_id profile_id trigger given w w' r created put agree backed
      h =
    let (_, _, how) =
      create-eq-ok uuid_text now fr user_id profile_id trigger given w w' r created h in
    (
      elim how [
        | inl (_, _, _, world) ↦ rw world backed
        | inr (_, _, _, world, _) ↦ rw world (with_run-IsBacked r w backed)
      ],
      sym (create-agrees enqueue put agree now fr user_id profile_id trigger uuid_text given w) ∙ h,
    )

owned_by-some :
    (user_id : ℕ) (o : Option Run) (r : Run)
    → owned_by user_id o ≡ some r
    → (o ≡ some r) × (r.user_id ≡ user_id)
owned_by-some user_id none r h = ground arith
owned_by-some user_id (some q) r h = ground arith

get-eq-ok :
    (user_id run_id : ℕ) (w v : World) (r : Run)
    → get user_id run_id w ≡ (ok r, v)
    → (run_by_id run_id w ≡ some r) × (r.user_id ≡ user_id) × (v ≡ w)
unfolding get
get-eq-ok user_id run_id w v r h =
    let (own, same) = or_raise_last _ _ (gets-eq (run_by_id run_id) _ h) in
    let (found, mine) = owned_by-some user_id (run_by_id run_id w) r own in (found, mine, same)

-- A cancellation that succeeds is of the user's own run. If the run was over it is answered as it
-- was and nothing changes, otherwise the row is cancelled, and in both cases it is over.
pub cancel_sound :
    (now user_id run_id : ℕ) (w w' : World) (r' : Run)
    → cancel now user_id run_id w ≡ (ok r', w')
    → (r : Run) × (run_by_id run_id w ≡ some r)
      × (r.user_id ≡ user_id)
      × (run_by_id run_id w' ≡ some r')
      × (is_terminal r' ≡ true)
      × (((is_terminal r ≡ true) × (r' ≡ r) × (w' ≡ w))
          ⊎ ((is_terminal r ≡ false)
              × (r' ≡ cancel_at now r)
              × (w' ≡ write_run r.id (cancel_at now) w)))
unfolding cancel
cancel_sound now user_id run_id w w' r' h =
    let (r, v, got, h1) = bind-eq-ok _ _ h in
    let (found, mine, same) = get-eq-ok user_id run_id w v r got in
    elim (Bool-cases (is_terminal r)) [
      | inl over ↦
          let ended = rw (over, same) at h1 in
          let row : r' ≡ r = ok-injective (ap (λ (z : Result Run × World). z.0) (sym ended)) in
          let world : w' ≡ w = ap (λ (z : Result Run × World). z.1) (sym ended) in
          (r, found, mine, rw (row, world) found, rw row over, inl (over, row, world))
      | inr live ↦
          let ended = modify-eq-ok _ _ (rw (live, same) at h1) in
          let row : r' ≡ cancel_at now r =
            ok-injective (ap (λ (z : Result Run × World). z.0) (sym ended)) in
          let world : w' ≡ write_run r.id (cancel_at now) w =
            ap (λ (z : Result Run × World). z.1) (sym ended) in
          (
            r,
            found,
            mine,
            rw (row, world)
                (find-update_where-some (λ q. q.id == run_id) (λ q. q.id == r.id) (cancel_at now)
                  w.db.runs r (λ y. refl) found (==-refl r.id)),
            rw row refl,
            inr (live, row, world),
          )
    ]
