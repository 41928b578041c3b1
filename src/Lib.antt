-- ===== src/Lib.antt =====
-- Recruit-ME: the accounts, the runs, the engine and the rate limiter of a job hunting service.
--
-- The API answers requests and writes rows; a run that it creates goes on a queue, from which a
-- worker takes it: it assembles the engine's input from the rows of the run's user, calls the
-- engine, saves what was found and mails a report. The engine calls the scrapers, drops the jobs that
-- were seen, and scores the others against the résumés. A scheduler puts runs on the same queue. Calls
-- of job sites go through a rate limiter in Redis. Secrets for the sites are sealed by the API and
-- opened by the worker, under keys that may be rotated meanwhile.
--
--   Errors      backend/src/recruit_api/errors.py. `Exec S A` is an action on a state that answers
--               or raises an AppError; a service method is one such action.
--   Auth        backend/src/recruit_api/models/{user,auth}.py (State, Rows), services/auth_service.py
--               (Service), services/account_service.py (Account), security/deps.py and the
--               suspension of routers/admin.py (Access). `in_session` is db.py's `get_db`; History
--               is a sequence of requests, each in a session.
--   Runs        models/run.py (State), services/run_service.py (Service, with its event stream in
--               Stream), worker/src/recruit_worker/persistence.py (Persistence), scheduler.py
--               (Scheduler), tasks/execute_run.py (Worker) and run_context.py (Context).
--   Engine      packages/engine/src/recruit_engine/types.py (Types), matching.py (Matching), and
--               engine.py and dedupe.py (Hunt, Types), with the filter of the worker's
--               adapters/seen_store_pg.py; ai.py (Ai), and the scores of a batch (Scoring).
--   Scrapers    packages/engine/src/recruit_engine/scrapers: a module for each site, and Adapters.
--   Credentials models/site_credential.py, services/site_credential_service.py, and the worker's
--               credentials.py and tasks/verify_credential.py.
--               Sealing fills their envelope by Security.Crypto.
--   Security    security/crypto.py (Crypto) and security/jwt.py (Jwt), by which Auth makes and reads
--               its access tokens.
--   Profiles    models/job_profile.py, schemas/job_profile.py, services/job_profile_service.py and
--               routers/job_profiles.py.
--   Matches     routers/matches.py and the query of services/report_service.py.
--   Report      packages/engine/src/recruit_engine/report.py (Sheets) and email_templates.py (Mail).
--   Dashboard   services/dashboard_service.py.
--   Resumes     models/resume.py, services/resume_service.py and tasks/parse_resume.py.
--   RateLimit   worker/src/recruit_worker/adapters/rate_limiter_redis.py and policies.py.
--   Prelude     tests on numbers, lists, text, sorting, counters, and tables as lists of rows.
--
-- A table is the list of its rows, a UUID is the number that it stands for, a time is in seconds
-- (in milliseconds in RateLimit). What a method draws at random and the clock are arguments. Argon2,
-- SHA-256, PyJWT, CITEXT, ZoneInfo and croniter are parameters; Auth.State.Platform names what is
-- relied on, and Auth/Samples.antt has an instance.
--
-- Bounds and fuel: `acquire` sleeps in a loop whose fuel is its time limit in milliseconds, each nap
-- being at least one; the event stream has the source's 900 rounds; the batches of a match have one
-- round per job.
--
-- Not modelled: the wording of the prompts and the reading of PDF files; the requests of the
-- scrapers, whose answers are parameters; fonts and widths of the spreadsheets and the
-- HTML of the mails; most of the routers and schemas; ChaCha20-Poly1305 and base64, which are
-- parameters of Security.Crypto; and the web frontend.
mod Prelude
pub mod Scrapers
pub mod Security
pub mod Profiles
pub mod Matches
pub mod Report
pub mod Dashboard
pub mod Errors
pub mod Auth
pub mod Runs
pub mod Engine
pub mod Credentials
pub mod Resumes
pub mod RateLimit
