-- ===== src/Runs/Persistence.antt =====
-- worker/src/recruit_worker/persistence.py: writing the result of the engine, and the one mail of a
-- run. The report and the mail's text are rendered elsewhere; a failing write raises.
pub mod Laws
mod Tests
use Prim.Native.String
use recruit_me.Prelude.{
  order_by, ℕ, zero, suc, ◌+◌, String, Bool, true, false, ◌&&◌, Option, none, some, List, [], ◌∷◌,
  ◌++◌, ◌==◌, leb, if◌then◌else◌, find, exists, select, update_where, delete_where, length, str_eq,
  prefix, map,
}
use recruit_me.Runs.State.{
  Stats, Run, RunStep, RunSource, JobMatch, MatchStatus, Notification, Tables, Mail, World,
  write_run, is_ref,
}

-- One source's entry of `EngineResult.per_source`.
pub record SourceInfo : Type 0 where
  pub source : String
  pub status : String
  pub found : ℕ
  pub latency_ms : ℕ
  pub error : Option String

-- A `MatchedJob` and its `JobPosting`.
pub record Matched : Type 0 where
  pub external_hash : String
  pub source : String
  pub company : String
  pub title : String
  pub location : String
  pub url : String
  pub description : String
  pub salary : Option String
  pub posted_date : Option String
  pub match_percentage : ℕ
  pub matched_skills : List String
  pub missing_skills : List String
  pub why_fit : String
  pub urgency : String
  pub recommended_action : String
  pub matched_profile_id : String

pub record EngineResult : Type 0 where
  pub scraped : ℕ
  pub new : ℕ
  pub matched : List Matched
  pub per_source : List SourceInfo
  pub ai_degraded : Bool

-- `clear_steps`
abbrev pub clear_steps : ℕ → World → World
clear_steps run_id w = record w {
  db = record w.db { steps = delete_where (λ s. s.run_id == run_id) w.db.steps };
}

-- `persist_step`
abbrev pub persist_step : ℕ → ℕ → String → String → World → World
persist_step now run_id name status w = record w {
  db = record w.db {
    steps = w.db.steps ++ record { run_id = run_id; name = name; status = status; at = now } ∷ [];
  };
}

abbrev of_run_and_source : ℕ → String → RunSource → Bool
of_run_and_source run_id source s = s.run_id == run_id && str_eq s.source source

abbrev source_row : ℕ → SourceInfo → RunSource
source_row run_id i = record {
  run_id = run_id;
  source = i.source;
  status = i.status;
  jobs_found = i.found;
  latency_ms = i.latency_ms;
  error = i.error;
}

-- `INSERT ... ON CONFLICT ON CONSTRAINT uq_run_sources_run_source DO UPDATE`
pub upsert_source : ℕ → SourceInfo → List RunSource → List RunSource
upsert_source run_id i rows =
    if exists (of_run_and_source run_id i.source) rows
    then update_where (of_run_and_source run_id i.source) (λ _. source_row run_id i) rows
    else rows ++ source_row run_id i ∷ []

pub upsert_sources : ℕ → List SourceInfo → List RunSource → List RunSource
unfolding upsert_source
upsert_sources run_id [] rows = rows
upsert_sources run_id (i ∷ is) rows = upsert_sources run_id is (upsert_source run_id i rows)

-- `x or d` on a string that may be missing
abbrev pub or_text : Option String → String → String
or_text none d = d
or_text (some s) d = if str_eq s "" then d else s

abbrev pub match_row : Run → Matched → JobMatch
match_row r m = record {
  user_id = r.user_id;
  run_id = some r.id;
  job_profile_id = some r.job_profile_id;
  external_hash = m.external_hash;
  source = prefix 60 m.source;
  company = prefix 300 m.company;
  title = prefix 400 m.title;
  location = prefix 200 m.location;
  url = prefix 1024 m.url;
  description_excerpt = prefix 2000 m.description;
  salary = prefix 120 (or_text m.salary "");
  posted_date = prefix 40 (or_text m.posted_date "");
  match_percentage = m.match_percentage;
  matched_skills = m.matched_skills;
  missing_skills = m.missing_skills;
  why_fit = prefix 4000 m.why_fit;
  urgency = prefix 12 (or_text (some m.urgency) "LOW");
  recommended_action = prefix 40 m.recommended_action;
  matched_profile_id = prefix 64 m.matched_profile_id;
  status = MatchStatus.new;
  applied_at = none;
}

-- The rows that `uq_job_matches_user_hash` lets only one of exist.
abbrev pub of_user_and_hash : ℕ → String → JobMatch → Bool
of_user_and_hash user_id hash m = m.user_id == user_id && str_eq m.external_hash hash

-- `INSERT ... ON CONFLICT DO NOTHING` for each match, in order, with the count of inserted rows.
pub insert_matches : Run → List Matched → List JobMatch → ℕ → List JobMatch × ℕ
insert_matches r [] rows n = (rows, n)
insert_matches r (m ∷ ms) rows n =
    if exists (of_user_and_hash r.user_id m.external_hash) rows
    then insert_matches r ms rows n
    else insert_matches r ms (rows ++ match_row r m ∷ []) (suc n)

abbrev has_status : String → SourceInfo → Bool
has_status status i = str_eq i.status status

abbrev stats_of : EngineResult → ℕ → Stats
stats_of result inserted = record {
  scraped = result.scraped;
  new = result.new;
  matched = length result.matched;
  inserted = inserted;
  sources_ok = length (select (has_status "ok") result.per_source);
  sources_failed = length (select (has_status "failed") result.per_source);
  ai_degraded = result.ai_degraded;
}

-- `save_result`, without `top_missing_skills`
unfoldable pub save_result : Run → EngineResult → World → World
save_result r result w =
    let (rows, inserted) = insert_matches r result.matched w.db.matches 0 in
    write_run r.id (λ q. record q { stats = some (stats_of result inserted) })
      (record w {
        db = record w.db {
          sources = upsert_sources r.id result.per_source w.db.sources;
          matches = rows;
        };
      })

-- `any(i.get("status") == "failed" for i in result.per_source.values())`
pub failed_sources : EngineResult → Bool
failed_sources result = exists (has_status "failed") result.per_source

-- The rows of the report, best first.
abbrev pub report_rows : ℕ → World → List JobMatch
report_rows run_id w =
    order_by (λ a b. leb b.match_percentage a.match_percentage)
      (select (λ m. is_ref m.run_id run_id) w.db.matches)

module _ (report_key : ℕ → ℕ → String) (subject_of : List JobMatch → String) where
  -- After the upload of the report: the mail, its row, and `notified_at`.
  abbrev pub send_report : ℕ → Run → List JobMatch → Option (ℕ × String) → World → World × Bool
  send_report now r rows none w = (w, false)
  send_report now r rows (some (_, address)) w = (
    write_run r.id (λ q. record q { notified_at = some now })
        (record w {
          sent = w.sent ++ record { to = address; subject = subject_of rows } ∷ [];
          db = record w.db {
            notifications =
                w.db.notifications
                ++ record {
                  user_id = r.user_id;
                  run_id = some r.id;
                  channel = "email";
                  to_addr = address;
                  subject = prefix 400 (subject_of rows);
                  status = "sent";
                }
                  ∷ [];
          };
        }),
    true,
  )

  -- The upload, and `run.report_key`.
  abbrev pub with_report : Run → World → World
  with_report r w =
      write_run r.id (λ q. record q { report_key = some (report_key r.user_id r.id) })
        (record w { objects = w.objects ++ report_key r.user_id r.id ∷ [] })

  abbrev pub notify_rows : ℕ → Run → List JobMatch → World → World × Bool
  notify_rows now r [] w = (w, false)
  notify_rows now r (m ∷ ms) w =
      send_report now r (m ∷ ms) (find (λ a. a.0 == r.user_id) w.db.addresses) (with_report r w)

  unfoldable pub notify_if_needed : ℕ → Run → World → World × Bool
  notify_if_needed now r w = elim r.notified_at [
    | some _ ↦ (w, false)
    | none ↦ notify_rows now r (report_rows r.id w) w
  ]
