-- ===== src/Runs.antt =====
-- Runs: backend/src/recruit_api/models/{run,job_profile}.py, services/run_service.py, and the worker's
-- worker/src/recruit_worker/{scheduler,persistence}.py and tasks/execute_run.py.
pub mod State
mod Samples
pub mod Service
pub mod Persistence
pub mod Scheduler
pub mod Worker
pub mod Context
