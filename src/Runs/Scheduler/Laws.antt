-- ===== src/Runs/Scheduler/Laws.antt =====
-- One tick of scheduler.py, and a second one.
use recruit_me.Prelude.{
  ℕ, ◌+◌, ◌-◌, ◌%◌, none, some, ◌⊎◌, ◌≡◌, refl, sym, ap, ◌∙◌, String, Bool, true, false, ◌&&◌, not,
  Option, List, [], ◌∷◌, select, str_eq, eq_refl, exists, exists-append-left, exists-append-right,
  exists-single, length, length-append, All, All-imp, Bool-cases, arith, inl, inr,
}
use recruit_me.Errors.{Result, ok, Exec, ◌>>=◌}
use recruit_me.Errors.Inversion.{
  bind-eq-ok, modify-eq-ok, gets-eq, ok-injective, unless_taken-eq-ok, bind-ok,
}
use recruit_me.Runs.State.{Run, JobProfile, World}
use recruit_me.Runs.Service.{add_run, enqueue}
use recruit_me.Runs.Service.Laws.{with_run}
use recruit_me.Runs.Scheduler.{
  is_scheduled, is_due, key_of_profile, scheduled_key, scheduled_run, local_time, local_date,
  or_utc, matched, schedule_unless, schedule_one, schedule_each, enqueue_due_runs,
}

module _ (uuid_text : ℕ → String) (local : String → ℕ → Option ℕ)
    (matches : String → ℕ → Option Bool) (date_of : ℕ → String) (fresh : ℕ → ℕ) (locked : ℕ → Bool)
    (now : ℕ) where
  abbrev one : JobProfile → Exec World ℕ
  one = schedule_one uuid_text local matches date_of fresh locked now

  abbrev each : List JobProfile → Exec World ℕ
  each = schedule_each uuid_text local matches date_of fresh locked now

  abbrev run_of : JobProfile → Run
  run_of = scheduled_run uuid_text local matches date_of fresh locked now

  abbrev is_free : JobProfile → Bool
  is_free p =
      is_due uuid_text local matches date_of fresh locked now p.schedule_cron p.timezone
      && not (locked p.id)

  abbrev has_key : JobProfile → Run → Bool
  has_key p r =
      str_eq r.idempotency_key (key_of_profile uuid_text local matches date_of fresh locked now p)

  -- The tick has nothing left to do for the profile.
  abbrev IsSettled : World → JobProfile → Type 0
  IsSettled w p = (is_free p ≡ false) ⊎ (exists (has_key p) w.db.runs ≡ true)

  settled_one : (p : JobProfile) (w : World) → IsSettled w p → one p w ≡ (ok 0, w)
  unfolding schedule_one ◌>>=◌
  settled_one p w (inl idle) = rw idle refl
  settled_one p w (inr taken) = elim (Bool-cases (is_free p)) [
    | inl free ↦ rw (free, taken) refl
    | inr idle ↦ rw idle refl
  ]

  schedule_unless-eq-ok :
      (p : JobProfile) (taken : Bool) (w w' : World) (n : ℕ)
      → schedule_unless uuid_text local matches date_of fresh locked now p taken w ≡ (ok n, w')
      → ((n ≡ 0) × (w' ≡ w) × (taken ≡ true)) ⊎ ((n ≡ 1) × (w' ≡ with_run (run_of p) w))
  unfolding add_run enqueue
  schedule_unless-eq-ok p true w w' n h = inl (
    ok-injective (ap (λ (z : Result ℕ × World). z.0) (sym h)),
    ap (λ (z : Result ℕ × World). z.1) (sym h),
    refl,
  )
  schedule_unless-eq-ok p false w w' n h =
      let (_, v, added, h1) = bind-eq-ok _ _ h in
      let (_, stored) = unless_taken-eq-ok _ _ w v added in
      let h2 = modify-eq-ok _ _ (modify-eq-ok _ _ h1) in
      inr (
        ok-injective (ap (λ (z : Result ℕ × World). z.0) (sym h2)),
        ap (λ (z : Result ℕ × World). z.1) (sym h2) ∙ rw stored refl,
      )

  one-eq-ok :
      (p : JobProfile) (w w' : World) (n : ℕ)
      → one p w ≡ (ok n, w')
      → ((n ≡ 0) × (w' ≡ w) × IsSettled w p) ⊎ ((n ≡ 1) × (w' ≡ with_run (run_of p) w))
  unfolding schedule_one
  one-eq-ok p w w' n h = elim (Bool-cases (is_free p)) [
    | inr idle ↦
        let stay : (ok 0, w) ≡ (ok n, w') = rw idle at h in
        inl (
          ok-injective (ap (λ (z : Result ℕ × World). z.0) (sym stay)),
          ap (λ (z : Result ℕ × World). z.1) (sym stay),
          inl idle,
        )
    | inl free ↦
        elim (schedule_unless-eq-ok p (exists (has_key p) w.db.runs) w w' n
          (gets-eq (λ v. exists (has_key p) v.db.runs) _ (rw free at h))) [
            | inl (idle, same, taken) ↦ inl (idle, same, inr taken)
            | inr ran ↦ inr ran
          ]
  ]

  -- Settling lasts, whatever rows are added.
  IsSettled-with_run :
      (p : JobProfile) (w : World) (r : Run) → IsSettled w p → IsSettled (with_run r w) p
  IsSettled-with_run p w r (inl idle) = inl idle
  IsSettled-with_run p w r (inr taken) =
      inr (exists-append-left (has_key p) w.db.runs (r ∷ []) taken)

  abbrev IsAfter : World → World → ℕ → Type 0
  IsAfter w w' n =
      ((p : JobProfile) → IsSettled w p → IsSettled w' p)
      × (w'.db.profiles ≡ w.db.profiles)
      × (length w'.queue ≡ length w.queue + n)
      × (length w'.db.runs ≡ length w.db.runs + n)

  one-IsAfter :
      (p : JobProfile) (w w' : World) (n : ℕ)
      → one p w ≡ (ok n, w')
      → IsSettled w' p × IsAfter w w' n
  one-IsAfter p w w' n h = elim (one-eq-ok p w w' n h) [
    | inl (zero_runs, same, settled) ↦
        rw (zero_runs, same) (settled, ((λ q s. s), refl, omega arith, omega arith))
    | inr (one_run, added) ↦
        rw (one_run, added)
          (
            inr (
                exists-append-right (has_key p) w.db.runs (run_of p ∷ [])
                  (exists-single (has_key p) (run_of p) (eq_refl _))),
            (
              (λ q s. IsSettled-with_run q w (run_of p) s),
              refl,
              length-append w.queue _,
              length-append w.db.runs _,
            ),
          )
  ]

  IsAfter-same :
      (ps : List JobProfile) (w u w' : World) (m n : ℕ)
      → w' ≡ u
      → n ≡ m
      → All (IsSettled u) ps × IsAfter w u m
      → All (IsSettled w') ps × IsAfter w w' n
  IsAfter-same ps w u w' m n e d after = rw (e, d) after

  each-IsAfter :
      (ps : List JobProfile) (w w' : World) (n : ℕ)
      → each ps w ≡ (ok n, w')
      → All (IsSettled w') ps × IsAfter w w' n
  unfolding schedule_each
  each-IsAfter [] w w' n h =
      rw
        (
          ap (λ (z : Result ℕ × World). z.1) (sym h),
          ok-injective (ap (λ (z : Result ℕ × World). z.0) (sym h)),
        )
        (tt, ((λ q s. s), refl, omega arith, omega arith))
  each-IsAfter (p ∷ ps) w w' n h =
      let (a, v, first, h1) = bind-eq-ok _ _ h in
      let (b, u, rest, h2) = bind-eq-ok _ _ h1 in
      let (settled, (keeps, profiles, queued, stored)) = one-IsAfter p w v a first in
      let (others, (keeps', profiles', queued', stored')) = each-IsAfter ps v u b rest in
      IsAfter-same (p ∷ ps) w u w' (a + b) n (ap (λ (z : Result ℕ × World). z.1) (sym h2))
        (ok-injective (ap (λ (z : Result ℕ × World). z.0) (sym h2)))
        (
          (keeps' p settled, others),
          (
            (λ q s. keeps' q (keeps q s)),
            profiles' ∙ profiles,
            omega (arith, queued, queued'),
            omega (arith, stored, stored'),
          ),
        )

  each_settled : (ps : List JobProfile) (w : World) → All (IsSettled w) ps → each ps w ≡ (ok 0, w)
  unfolding schedule_each
  each_settled [] w settled = refl
  each_settled (p ∷ ps) w (s, settled) =
      bind-ok {v = w} (one p) _ 0 (settled_one p w s)
      ∙ bind-ok {v = w} (each ps) _ 0 (each_settled ps w settled)

  tick-IsAfter :
      (w w' : World) (n : ℕ)
      → enqueue_due_runs uuid_text local matches date_of fresh locked now w ≡ (ok n, w')
      → All (IsSettled w') (select is_scheduled w.db.profiles) × IsAfter w w' n
  unfolding enqueue_due_runs
  tick-IsAfter w w' n h = each-IsAfter (select is_scheduled w.db.profiles) w w' n h

-- Two times in one minute of each time zone, and on one of its days.
pub record IsSameMinute (local : String → ℕ → Option ℕ) (date_of : ℕ → String) (now later : ℕ)
    : Type 0 where
  pub minute :
      (tz : String)
      → or_utc later (local tz later) - or_utc later (local tz later) % 60
        ≡ or_utc now (local tz now) - or_utc now (local tz now) % 60
  pub date :
      (tz : String) → date_of (or_utc later (local tz later)) ≡ date_of (or_utc now (local tz now))

module _ (uuid_text : ℕ → String) (local : String → ℕ → Option ℕ)
    (matches : String → ℕ → Option Bool) (date_of : ℕ → String) (fresh fresh' : ℕ → ℕ)
    (locked locked' : ℕ → Bool) (now later : ℕ) (same : IsSameMinute local date_of now later)
    (held : (id : ℕ) → locked id ≡ true → locked' id ≡ true) where
  is_due-later :
      (cron : Option String) (tz : String)
      → is_due uuid_text local matches date_of fresh' locked' later cron tz
        ≡ is_due uuid_text local matches date_of fresh locked now cron tz
  unfolding local_time
  is_due-later none tz = refl
  is_due-later (some cron) tz = ap (λ t. matched (matches cron t)) (same.minute tz)

  key-later :
      (p : JobProfile)
      → key_of_profile uuid_text local matches date_of fresh' locked' later p
        ≡ key_of_profile uuid_text local matches date_of fresh locked now p
  unfolding local_date local_time
  key-later p = ap (scheduled_key uuid_text p.id) (same.date p.timezone)

  still_idle :
      (due a b : Bool) → (a ≡ true → b ≡ true) → (due && not a) ≡ false → (due && not b) ≡ false
  still_idle due a b h e = ground (arith, h)

  IsSettled-later :
      (w : World) (p : JobProfile)
      → IsSettled uuid_text local matches date_of fresh locked now w p
      → IsSettled uuid_text local matches date_of fresh' locked' later w p
  IsSettled-later w p (inl idle) =
      inl (rw (is_due-later p.schedule_cron p.timezone) (still_idle _ _ _ (held p.id) idle))
  IsSettled-later w p (inr taken) =
      inr (ap (λ key. exists (λ r. str_eq r.idempotency_key key) w.db.runs) (key-later p) ∙ taken)

  -- A tick that succeeds adds as many runs as it puts on the queue, which is the number it answers. A
  -- second tick on what it left, at another time of the same minute and local date, does nothing, if
  -- it finds no lock free that was held before.
  pub enqueue_due_runs_once :
      (w w' : World) (n : ℕ)
      → enqueue_due_runs uuid_text local matches date_of fresh locked now w ≡ (ok n, w')
      → (length w'.queue ≡ length w.queue + n)
        × (length w'.db.runs ≡ length w.db.runs + n)
        × (enqueue_due_runs uuid_text local matches date_of fresh' locked' later w' ≡ (ok 0, w'))
  unfolding enqueue_due_runs
  enqueue_due_runs_once w w' n h =
      let (settled, (_, profiles, queued, stored)) =
        tick-IsAfter uuid_text local matches date_of fresh locked now w w' n h in
      let due = select is_scheduled w.db.profiles in
      (
        queued,
        stored,
        ap
              (λ qs.
                schedule_each uuid_text local matches date_of fresh' locked' later
                  (select is_scheduled qs) w')
              profiles
            ∙ each_settled uuid_text local matches date_of fresh' locked' later due w'
                (All-imp _ _ due (IsSettled-later w') settled),
      )
