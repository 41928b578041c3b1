-- ===== src/Runs/Service.antt =====
-- backend/src/recruit_api/services/run_service.py. `ORDER BY` is a stable sort; all the `_now()` of
-- one call are one time.
pub mod Stream
pub mod Laws
mod Tests
use Prim.Native.String
use recruit_me.Prelude.{
  ℕ, zero, suc, ◌+◌, ◌-◌, ◌*◌, String, Bool, true, false, ◌&&◌, not, Option, none, some, List, [],
  ◌∷◌, ◌++◌, ◌==◌, leb, ltb, if◌then◌else◌, find, exists, select, length, take, drop, str_eq,
  order_by,
}
use recruit_me.Errors.{
  not_found_error, conflict_error, unless_taken, Result, Exec, pure, raise, gets, or_raise,
  raise_if, modify, ◌>>=◌, ◌>>◌,
}
use recruit_me.Runs.State.{
  RunTrigger, RunStatus, Run, RunStep, RunSource, JobProfile, World, commit, run_by_id, write_run,
  trigger_value, is_terminal,
}

-- What a request brings or draws: a fresh id for the run, and a fresh hexadecimal text.
pub record Fresh : Type 0 where
  pub run_id : ℕ
  pub hex : String

abbrev pub owner_of_profile : ℕ → Option JobProfile → Option JobProfile
owner_of_profile user_id none = none
owner_of_profile user_id (some p) = if p.user_id == user_id then some p else none

-- `_owned_profile`
unfoldable pub owned_profile : ℕ → ℕ → Exec World JobProfile
owned_profile user_id profile_id = do
  found ← gets (λ w. find (λ p. p.id == profile_id) w.db.profiles)
  or_raise (owner_of_profile user_id found) (not_found_error "job profile not found")

-- `idempotency_key or f"{trigger.value}:{profile_id}:{uuid4().hex}"`
abbrev pub key_of : (ℕ → String) → RunTrigger → ℕ → Fresh → Option String → String
key_of uuid_text trigger profile_id fr none =
    String.◌++◌ (trigger_value trigger)
      (String.◌++◌ ":" (String.◌++◌ (uuid_text profile_id) (String.◌++◌ ":" fr.hex)))
key_of uuid_text trigger profile_id fr (some key) =
    if str_eq key ""
    then String.◌++◌ (trigger_value trigger)
        (String.◌++◌ ":" (String.◌++◌ (uuid_text profile_id) (String.◌++◌ ":" fr.hex)))
    else key

abbrev pub run_by_key : String → World → Option Run
run_by_key key w = find (λ r. str_eq r.idempotency_key key) w.db.runs

abbrev pub new_run : ℕ → Fresh → ℕ → ℕ → RunTrigger → String → Run
new_run now fr user_id profile_id trigger key = record {
  id = fr.run_id;
  user_id = user_id;
  job_profile_id = profile_id;
  trigger = trigger;
  status = RunStatus.queued;
  idempotency_key = key;
  attempt = 0;
  max_attempts = 3;
  queued_at = some now;
  started_at = none;
  finished_at = none;
  notified_at = none;
  worker_id = none;
  report_key = none;
  error_summary = none;
  stats = none;
  created_at = now;
}

-- `db.add` and the flush that checks `uq_runs_idempotency_key`
unfoldable pub add_run : Run → Exec World Unit
add_run r w =
    unless_taken (exists (λ q. str_eq q.idempotency_key r.idempotency_key) w.db.runs)
      (record w { db = record w.db { runs = w.db.runs ++ r ∷ [] } }) w

-- `enqueue("execute_run", str(run.id))`
unfoldable pub enqueue : ℕ → Exec World Unit
enqueue id = modify λ w. record w { queue = w.queue ++ id ∷ [] }

-- `RunService(db, enqueue)`: what puts a job on the queue is handed to the service.
module _ (enqueue : ℕ → Exec World Unit) where
  -- `create` once it has looked for a run of that key: the run, and whether this call created it.
  pub create_unless : ℕ → Fresh → ℕ → ℕ → RunTrigger → String → Option Run → Exec World (Run × Bool)
  create_unless now fr user_id profile_id trigger key (some r) =
      if r.user_id == user_id
      then pure (r, false)
      else raise (conflict_error "idempotency key already used")
  create_unless now fr user_id profile_id trigger key none = do
    add_run (new_run now fr user_id profile_id trigger key)
    commit
    enqueue fr.run_id
    pure (new_run now fr user_id profile_id trigger key, true)

  pub create :
      (ℕ → String) → ℕ → Fresh → ℕ → ℕ → RunTrigger → Option String → Exec World (Run × Bool)
  unfolding create_unless
  create uuid_text now fr user_id profile_id trigger idempotency_key = do
    owned_profile user_id profile_id
    existing ← gets (run_by_key (key_of uuid_text trigger profile_id fr idempotency_key))
    create_unless now fr user_id profile_id trigger
        (key_of uuid_text trigger profile_id fr idempotency_key) existing

abbrev pub owned_by : ℕ → Option Run → Option Run
owned_by user_id none = none
owned_by user_id (some r) = if r.user_id == user_id then some r else none

unfoldable pub get : ℕ → ℕ → Exec World Run
get user_id run_id = do
  found ← gets (run_by_id run_id)
  or_raise (owned_by user_id found) (not_found_error "run not found")

pub steps : ℕ → World → List RunStep
steps run_id w = order_by (λ a b. leb a.at b.at) (select (λ s. s.run_id == run_id) w.db.steps)

abbrev is_status : RunStatus → RunStatus → Bool
is_status RunStatus.queued RunStatus.queued = true
is_status RunStatus.running RunStatus.running = true
is_status RunStatus.succeeded RunStatus.succeeded = true
is_status RunStatus.partial RunStatus.partial = true
is_status RunStatus.failed RunStatus.failed = true
is_status RunStatus.cancelled RunStatus.cancelled = true
is_status _ _ = false

abbrev status_fits : Option RunStatus → Run → Bool
status_fits none r = true
status_fits (some s) r = is_status r.status s

abbrev profile_fits : Option ℕ → Run → Bool
profile_fits none r = true
profile_fits (some p) r = r.job_profile_id == p

-- The `where` of `list`.
pub is_listed : ℕ → Option RunStatus → Option ℕ → Run → Bool
is_listed user_id status profile_id r =
    r.user_id == user_id && (status_fits status r && profile_fits profile_id r)

-- One page, newest first, and the total.
pub list : ℕ → Option RunStatus → Option ℕ → ℕ → ℕ → World → List Run × ℕ
unfolding is_listed
list user_id status profile_id page page_size w =
    let rows = select (is_listed user_id status profile_id) w.db.runs in
    (
      take page_size
          (drop ((page - 1) * page_size) (order_by (λ a b. leb b.created_at a.created_at) rows)),
      length rows,
    )

abbrev pub cancel_at : ℕ → Run → Run
cancel_at now r = record r { status = RunStatus.cancelled; finished_at = some now }

unfoldable pub cancel : ℕ → ℕ → ℕ → Exec World Run
cancel now user_id run_id = do
  r ← get user_id run_id
  if is_terminal r
      then pure r
      else do modify (write_run r.id (cancel_at now)); pure (cancel_at now r)
