-- ===== src/Runs/Worker.antt =====
-- worker/src/recruit_worker/tasks/execute_run.py: one queued run, its retries and its failure. An
-- exception rolls back what the session had not committed.
pub mod Laws
mod Tests
pub mod Overwrite
use Prim.Native.String
use recruit_me.Prelude.{
  contains, ℕ, suc, ◌+◌, ◌*◌, ◌^◌, min, String, Bool, true, false, ◌&&◌, ◌||◌, Option, none, some,
  List, [], ◌∷◌, ◌==◌, ltb, if◌then◌else◌, find, prefix, exists, str_eq, length,
}
use recruit_me.Runs.State.{
  Run, RunStatus, JobMatch, Tables, World, run_by_id, write_run, is_terminal,
}
use recruit_me.Runs.Persistence.{
  EngineResult, clear_steps, save_result, failed_sources, notify_if_needed,
}

-- What Python raises: whether it is a CancelledError, by which the timeout of a job ends the task and
-- which is no Exception, whether it is a ConnectionError or a TimeoutError, its type's name, its text.
pub record Exception : Type 0 where
  pub is_cancelled : Bool
  pub is_transient_type : Bool
  pub type_name : String
  pub text : String

-- `_TRANSIENT_HINTS`
abbrev pub transient_hints : List String
transient_hints =
    "timeout" ∷ "429" ∷ "503" ∷ "502" ∷ "connection reset" ∷ "temporarily unavailable" ∷ []

-- `_is_transient`; `lower` is `str.lower`.
pub is_transient : (String → String) → Exception → Bool
is_transient lower e =
    e.is_transient_type || exists (λ hint. contains hint (lower e.text)) transient_hints

-- `_backoff_seconds`; `jitter` is the seconds of `random.uniform(0, 5)`.
pub backoff_seconds : ℕ → ℕ → ℕ
backoff_seconds attempt jitter = min (2 ^ attempt * 5) 300 + jitter

-- A step of a task: it goes on with a value, or it raises.
pub data Step (A : Type 0) : Type 0 where
  done : A → World → Step A
  raised : Exception → World → Step A

pub data Ending : Type 0 where
  returned : Ending
  -- `arq.Retry` with its delay
  retry : ℕ → Ending
  -- the CancelledError leaves the task
  cancelled : Ending

-- `async with sessionmaker()` left by an exception
abbrev pub rollback : World → World
rollback w = record w { db = w.committed }

abbrev pub commit_world : World → World
commit_world w = record w { committed = w.db }

abbrev or_now : ℕ → Option ℕ → Option ℕ
or_now now none = some now
or_now now (some t) = some t

abbrev pub start_run : ℕ → String → Run → Run
start_run now worker r = record r {
  status = RunStatus.running;
  started_at = or_now now r.started_at;
  attempt = suc r.attempt;
  worker_id = some worker;
  error_summary = none;
}

abbrev pub finish_run : ℕ → EngineResult → Run → Run
finish_run now result r = record r {
  status = if failed_sources result then RunStatus.partial else RunStatus.succeeded;
  finished_at = some now;
}

abbrev pub summary_of : Exception → String
summary_of e = String.◌++◌ e.type_name (String.◌++◌ ": " e.text)

abbrev pub requeue_run : Exception → Run → Run
requeue_run e r = record r {
  status = RunStatus.queued;
  error_summary = some (prefix 2000 (String.◌++◌ "transient: " (summary_of e)));
}

abbrev pub fail_run : ℕ → Exception → Run → Run
fail_run now e r = record r {
  status = RunStatus.failed;
  error_summary = some (prefix 2000 (summary_of e));
  finished_at = some now;
}

-- `hunt r` is `build_input` and `run_engine` with the steps that they commit and whatever other
-- sessions commit in the meantime; `mail` tells whether the upload or the mail raises.
module _ (lower : String → String) (report_key : ℕ → ℕ → String)
    (subject_of : List JobMatch → String) (hunt : Run → World → Step EngineResult)
    (mail : World → Option Exception) (now jitter : ℕ) (worker : String) where
  -- The transaction that takes the run.
  abbrev pub take_run : Run → World → World
  take_run r w = commit_world (clear_steps r.id (write_run r.id (start_run now worker) w))

  -- The mail, if its sending does not raise, and the last transaction.
  abbrev pub finish : Option Exception → Run → EngineResult → World → Step Unit
  finish (some e) r result w = raised e w
  finish none r result w = done tt (
      commit_world
        (write_run r.id (finish_run now result) (notify_if_needed report_key subject_of now r w).0))

  -- From the engine's result on.
  abbrev pub after_hunt : Run → Step EngineResult → Step Unit
  after_hunt r (raised e w) = raised e w
  after_hunt r (done result w) =
      finish (mail (commit_world (save_result r result w))) r result
        (commit_world (save_result r result w))

  -- `_run_once`
  abbrev pub run_found : Option Run → World → Step Unit
  run_found none w = done tt w
  run_found (some r) w =
      if is_terminal r
      then done tt w
      else after_hunt r (hunt (start_run now worker r) (take_run r w))

  unfoldable pub run_once : ℕ → World → Step Unit
  run_once run_id w = run_found (run_by_id run_id w) w

  -- What the handler of `execute_run` does with the row, read again.
  abbrev pub handle_found : Exception → Option Run → World → World × Ending
  handle_found e none w = (w, returned)
  handle_found e (some r) w =
      if is_transient lower e && ltb r.attempt r.max_attempts
      then (
        commit_world (write_run r.id (requeue_run e) w),
        retry (backoff_seconds r.attempt jitter),
      )
      else (commit_world (write_run r.id (fail_run now e) w), returned)

  -- What leaves the `try`, told whether it is a CancelledError.
  abbrev pub handle_raised : ℕ → Exception → World → Bool → World × Ending
  handle_raised run_id e w true = (w, Ending.cancelled)
  handle_raised run_id e w false = handle_found e (run_by_id run_id w) w

  abbrev pub handle : ℕ → Step Unit → World × Ending
  handle run_id (done _ w) = (w, returned)
  handle run_id (raised e w) = handle_raised run_id e (rollback w) e.is_cancelled

  pub execute_run : ℕ → World → World × Ending
  unfolding run_once
  execute_run run_id w = handle run_id (run_once run_id w)
