-- ===== src/Runs/Samples.antt =====
-- A small platform of tables for the tests of the runs.
use recruit_me.Prelude.{ℕ, true, none, some, List, [], ◌∷◌}
use recruit_me.Runs.State.{Run, RunTrigger, RunStatus, JobProfile, World}

abbrev pub sample_profile : JobProfile
sample_profile = record {
  id = 4;
  user_id = 1;
  is_active = true;
  schedule_cron = some "* * * * *";
  timezone = "UTC";
}

abbrev pub sample_run : RunStatus → ℕ → Run
sample_run status attempt = record {
  id = 9;
  user_id = 1;
  job_profile_id = 4;
  trigger = RunTrigger.manual;
  status = status;
  idempotency_key = "k";
  attempt = attempt;
  max_attempts = 3;
  queued_at = some 10;
  started_at = none;
  finished_at = none;
  notified_at = none;
  worker_id = none;
  report_key = none;
  error_summary = none;
  stats = none;
  created_at = 10;
}

abbrev pub world_of : List Run → World
world_of runs = record {
  db = record {
    profiles = sample_profile ∷ [];
    runs = runs;
    steps = [];
    sources = [];
    matches = [];
    notifications = [];
    addresses = (1, "ada") ∷ [];
  };
  committed = record {
    profiles = sample_profile ∷ [];
    runs = runs;
    steps = [];
    sources = [];
    matches = [];
    notifications = [];
    addresses = (1, "ada") ∷ [];
  };
  queue = [];
  sent = [];
  objects = [];
}
