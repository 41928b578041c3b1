-- ===== src/Runs/Scheduler/Tests.antt =====
-- A tick of the scheduler on small tables, and its theorem there.
use recruit_me.Prelude.{
  ℕ, ◌+◌, ◌≡◌, refl, String, Bool, true, false, Option, none, some, [], length, exists, select,
}
use recruit_me.Errors.{Result, ok, unless_taken, ◌>>=◌}
use recruit_me.Runs.State.{World}
use recruit_me.Runs.Samples.{world_of}
use recruit_me.Runs.Service.{add_run, enqueue}
use recruit_me.Runs.Scheduler.{schedule_one, schedule_each, local_time, enqueue_due_runs}
use recruit_me.Runs.Scheduler.Laws.{enqueue_due_runs_once, IsSameMinute}

abbrev name_of : ℕ → String
name_of n = "p"

abbrev no_zone : String → ℕ → Option ℕ
no_zone name now = none

abbrev always : String → ℕ → Option Bool
always cron at = some true

abbrev one_day : ℕ → String
one_day at = "2024-01-01"

abbrev draw_id : ℕ → ℕ
draw_id profile_id = 30

abbrev unlocked : ℕ → Bool
unlocked profile_id = false

abbrev ticked : Result ℕ × World
ticked = enqueue_due_runs name_of no_zone always one_day draw_id unlocked 1000 (world_of [])

tick_run : ticked ≡ (ok 1, ticked.1)
unfolding enqueue_due_runs schedule_each schedule_one local_time add_run enqueue unless_taken ◌>>=◌
    select exists
tick_run = refl

abbrev redraw_id : ℕ → ℕ
redraw_id profile_id = 31

same_minute : IsSameMinute no_zone one_day 1000 1007
same_minute = record { minute = λ tz. refl; date = λ tz. refl }

enqueue_due_runs_once_example :
    (length ticked.1.queue ≡ 0 + 1)
    × (length ticked.1.db.runs ≡ 0 + 1)
    × (enqueue_due_runs name_of no_zone always one_day redraw_id unlocked 1007 ticked.1
        ≡ (ok 0, ticked.1))
enqueue_due_runs_once_example =
    enqueue_due_runs_once name_of no_zone always one_day draw_id redraw_id unlocked unlocked 1000
      1007 same_minute (λ id h. h) (world_of []) ticked.1 1 tick_run
