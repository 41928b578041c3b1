-- ===== src/Runs/Worker/Tests.antt =====
-- Deliveries of a run on small tables, and the theorems of the worker there.
use recruit_me.Prelude.{
  ℕ, ◌≡◌, refl, String, true, false, Option, none, some, List, [], ◌∷◌, find, update_where, exists,
  if◌then◌else◌, delete_where,
}
use recruit_me.Runs.State.{Run, RunStatus, JobMatch, World, run_by_id}
use recruit_me.Runs.Samples.{sample_run, world_of}
use recruit_me.Runs.Service.{cancel_at}
use recruit_me.Runs.Persistence.{EngineResult, failed_sources}
use recruit_me.Runs.Worker.{
  Exception, Step, done, raised, Ending, returned, retry, is_transient, backoff_seconds, run_once,
  execute_run,
}
use recruit_me.Runs.Worker.Laws.{IsOver, IsRequeued, execute_run_ends, execute_run_retries}
use recruit_me.Runs.Worker.Overwrite.{execute_run_overwrites}

abbrev same : String → String
same s = s

abbrev key_for : ℕ → ℕ → String
key_for user_id run_id = "report"

abbrev subject_for : List JobMatch → String
subject_for rows = "matches"

abbrev no_jobs : EngineResult
no_jobs = record { scraped = 0; new = 0; matched = []; per_source = []; ai_degraded = false }

-- An engine that finds nothing, while the user cancels the run.
abbrev cancelled_run : Run
cancelled_run = cancel_at 50 (sample_run RunStatus.running 1)

abbrev hunt_cancelled : Run → World → Step EngineResult
hunt_cancelled r w = done no_jobs (world_of (cancelled_run ∷ []))

abbrev timed_out : Exception
timed_out = record {
  is_cancelled = false;
  is_transient_type = true;
  type_name = "TimeoutError";
  text = "";
}

abbrev hunt_fails : Run → World → Step EngineResult
hunt_fails r w = raised timed_out w

abbrev fine : World → Option Exception
fine w = none

abbrev queued_world : World
queued_world = world_of (sample_run RunStatus.queued 0 ∷ [])

abbrev delivered : World × Ending
delivered = execute_run same key_for subject_for hunt_cancelled fine 100 2 "w1" 9 queued_world

deliver_run : delivered ≡ (delivered.0, returned)
unfolding execute_run run_once find
deliver_run = refl

execute_run_ends_example : IsOver 9 delivered.0 × (delivered.0.committed ≡ delivered.0.db)
execute_run_ends_example =
    execute_run_ends same key_for subject_for hunt_cancelled fine 100 2 "w1" 9 queued_world
      delivered.0 refl deliver_run

abbrev failed_once : World × Ending
failed_once = execute_run same key_for subject_for hunt_fails fine 100 2 "w1" 9 queued_world

fail_run_once : failed_once ≡ (failed_once.0, retry 12)
unfolding execute_run run_once find update_where is_transient exists backoff_seconds delete_where
fail_run_once = refl

execute_run_retries_example : IsRequeued 2 9 12 failed_once.0
execute_run_retries_example =
    execute_run_retries same key_for subject_for hunt_fails fine 100 2 "w1" 9 12 queued_world
      failed_once.0 fail_run_once

abbrev over_world : World
over_world = world_of (cancelled_run ∷ [])

over_found : run_by_id 9 over_world ≡ some cancelled_run
unfolding find
over_found = refl

queued_found : run_by_id 9 queued_world ≡ some (sample_run RunStatus.queued 0)
unfolding find
queued_found = refl

execute_run_overwrites_example :
    (r' : Run) × (run_by_id 9 delivered.0 ≡ some r')
    × (r'.status ≡ (if failed_sources no_jobs then RunStatus.partial else RunStatus.succeeded))
execute_run_overwrites_example =
    execute_run_overwrites same key_for subject_for hunt_cancelled fine 100 2 "w1" 9 queued_world
      over_world (sample_run RunStatus.queued 0) cancelled_run no_jobs queued_found refl refl refl
      over_found
