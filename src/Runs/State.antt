-- ===== src/Runs/State.antt =====
-- The rows of models/run.py and models/job_profile.py, the tables as a session sees them, and what
-- is outside the transaction. An id is the number that a UUID stands for, a time is in seconds.
use recruit_me.Prelude.{
  ℕ, String, Bool, true, false, Option, none, some, List, ◌==◌, find, update_where,
}
use recruit_me.Errors.{Exec, modify}

pub data RunTrigger : Type 0 where
  manual scheduled api : RunTrigger

pub data RunStatus : Type 0 where
  queued running succeeded partial failed cancelled : RunStatus

pub data MatchStatus : Type 0 where
  new saved applied dismissed : MatchStatus

-- `RunTrigger.value`
abbrev pub trigger_value : RunTrigger → String
trigger_value manual = "manual"
trigger_value scheduled = "scheduled"
trigger_value api = "api"

-- `status in TERMINAL_RUN_STATUSES`
abbrev pub is_terminal_status : RunStatus → Bool
is_terminal_status queued = false
is_terminal_status running = false
is_terminal_status succeeded = true
is_terminal_status partial = true
is_terminal_status failed = true
is_terminal_status cancelled = true

-- `runs.stats`, once a result was saved
pub record Stats : Type 0 where
  pub scraped : ℕ
  pub new : ℕ
  pub matched : ℕ
  pub inserted : ℕ
  pub sources_ok : ℕ
  pub sources_failed : ℕ
  pub ai_degraded : Bool

pub record Run : Type 0 where
  pub id : ℕ
  pub user_id : ℕ
  pub job_profile_id : ℕ
  pub trigger : RunTrigger
  pub status : RunStatus
  pub idempotency_key : String
  pub attempt : ℕ
  pub max_attempts : ℕ
  pub queued_at : Option ℕ
  pub started_at : Option ℕ
  pub finished_at : Option ℕ
  pub notified_at : Option ℕ
  pub worker_id : Option String
  pub report_key : Option String
  pub error_summary : Option String
  pub stats : Option Stats
  pub created_at : ℕ

-- `Run.is_terminal`
abbrev pub is_terminal : Run → Bool
is_terminal r = is_terminal_status r.status

pub record RunStep : Type 0 where
  pub run_id : ℕ
  pub name : String
  pub status : String
  pub at : ℕ

pub record RunSource : Type 0 where
  pub run_id : ℕ
  pub source : String
  pub status : String
  pub jobs_found : ℕ
  pub latency_ms : ℕ
  pub error : Option String

pub record JobMatch : Type 0 where
  pub user_id : ℕ
  pub run_id : Option ℕ
  pub job_profile_id : Option ℕ
  pub external_hash : String
  pub source : String
  pub company : String
  pub title : String
  pub location : String
  pub url : String
  pub description_excerpt : String
  pub salary : String
  pub posted_date : String
  pub match_percentage : ℕ
  pub matched_skills : List String
  pub missing_skills : List String
  pub why_fit : String
  pub urgency : String
  pub recommended_action : String
  pub matched_profile_id : String
  pub status : MatchStatus
  pub applied_at : Option ℕ

pub record Notification : Type 0 where
  pub user_id : ℕ
  pub run_id : Option ℕ
  pub channel : String
  pub to_addr : String
  pub subject : String
  pub status : String

-- The columns of a profile that the runs read.
pub record JobProfile : Type 0 where
  pub id : ℕ
  pub user_id : ℕ
  pub is_active : Bool
  pub schedule_cron : Option String
  pub timezone : String

pub record Tables : Type 0 where
  pub profiles : List JobProfile
  pub runs : List Run
  pub steps : List RunStep
  pub sources : List RunSource
  pub matches : List JobMatch
  pub notifications : List Notification
  -- the address of each account
  pub addresses : List (ℕ × String)

-- A mail that carries a report, and a job of the queue, `execute_run` with the run's id.
pub record Mail : Type 0 where
  pub to : String
  pub subject : String

pub record World : Type 0 where
  -- what the open session sees, and what is committed
  pub db : Tables
  pub committed : Tables
  pub queue : List ℕ
  pub sent : List Mail
  pub objects : List String

-- A comparison with a column that can be null.
abbrev pub is_ref : Option ℕ → ℕ → Bool
is_ref none id = false
is_ref (some n) id = n == id

-- `db.commit()`
abbrev pub commit : Exec World Unit
commit = modify λ w. record w { committed = w.db }

abbrev pub run_by_id : ℕ → World → Option Run
run_by_id id w = find (λ r. r.id == id) w.db.runs

-- The ORM's write to the columns of one run.
abbrev pub write_run : ℕ → (Run → Run) → World → World
write_run id f w = record w {
  db = record w.db { runs = update_where (λ r. r.id == id) f w.db.runs };
}
