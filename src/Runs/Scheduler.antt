-- ===== src/Runs/Scheduler.antt =====
-- worker/src/recruit_worker/scheduler.py: one minute's tick. ZoneInfo and croniter are parameters,
-- `none` where they raise; `locked` tells which profiles' locks another worker holds.
pub mod Laws
mod Tests
use Prim.Native.String
use recruit_me.Prelude.{
  ℕ, ◌+◌, ◌-◌, ◌%◌, String, Bool, true, false, ◌&&◌, not, Option, none, some, List, [], ◌∷◌,
  if◌then◌else◌, exists, select, str_eq,
}
use recruit_me.Errors.{Exec, pure, gets, ◌>>=◌, ◌>>◌}
use recruit_me.Runs.State.{RunTrigger, RunStatus, Run, JobProfile, World, commit}
use recruit_me.Runs.Service.{Fresh, new_run, add_run, enqueue}

-- `JobProfile.is_active.is_(True), JobProfile.schedule_cron.is_not(None)`
abbrev pub is_scheduled : JobProfile → Bool
is_scheduled p = p.is_active && (elim p.schedule_cron [ none ↦ false | some _ ↦ true ])

-- The three texts of the key, joined.
abbrev pub scheduled_key : (ℕ → String) → ℕ → String → String
scheduled_key uuid_text profile_id date =
    String.◌++◌ "sched:" (String.◌++◌ (uuid_text profile_id) (String.◌++◌ ":" date))

-- `now_utc.astimezone(_zone(tz_name))`: a name that ZoneInfo does not know stands for UTC.
abbrev pub or_utc : ℕ → Option ℕ → ℕ
or_utc now none = now
or_utc now (some t) = t

-- `croniter.match` in its `try`
abbrev pub matched : Option Bool → Bool
matched none = false
matched (some b) = b

module _ (uuid_text : ℕ → String) (local : String → ℕ → Option ℕ)
    (matches : String → ℕ → Option Bool) (date_of : ℕ → String) (fresh : ℕ → ℕ) (locked : ℕ → Bool)
    (now : ℕ) where
  pub local_time : String → ℕ
  local_time tz_name = or_utc now (local tz_name now)

  -- `_is_due`, at the start of the local minute
  abbrev pub is_due : Option String → String → Bool
  is_due none tz_name = false
  is_due (some cron) tz_name = matched (matches cron (local_time tz_name - local_time tz_name % 60))

  -- `_local_date`
  pub local_date : String → String
  local_date tz_name = date_of (local_time tz_name)

  abbrev pub key_of_profile : JobProfile → String
  key_of_profile p = scheduled_key uuid_text p.id (local_date p.timezone)

  abbrev pub scheduled_run : JobProfile → Run
  scheduled_run p =
      new_run now (record { run_id = fresh p.id; hex = "" }) p.user_id p.id RunTrigger.scheduled
        (key_of_profile p)

  -- The body of the loop, under the lock: 1 if it put a run on the queue.
  abbrev pub schedule_unless : JobProfile → Bool → Exec World ℕ
  schedule_unless p true = pure 0
  schedule_unless p false = do add_run (scheduled_run p); commit; enqueue (fresh p.id); pure 1

  unfoldable pub schedule_one : JobProfile → Exec World ℕ
  schedule_one p =
      if is_due p.schedule_cron p.timezone && not (locked p.id)
      then (do
        dupe ← gets (λ w. exists (λ r. str_eq r.idempotency_key (key_of_profile p)) w.db.runs)
        schedule_unless p dupe)
      else pure 0

  pub schedule_each : List JobProfile → Exec World ℕ
  schedule_each [] = pure 0
  schedule_each (p ∷ ps) = do n ← schedule_one p; m ← schedule_each ps; pure (n + m)

  pub enqueue_due_runs : Exec World ℕ
  unfolding schedule_each
  enqueue_due_runs w = schedule_each (select is_scheduled w.db.profiles) w
