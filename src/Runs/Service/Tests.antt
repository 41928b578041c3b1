-- ===== src/Runs/Service/Tests.antt =====
-- Runs of the run service on small tables, and its theorems there.
use recruit_me.Prelude.{
  ℕ, zero, suc, ◌<◌, ◌≡◌, refl, String, Bool, true, false, some, List, [], ◌∷◌, ◌++◌, arith, find,
  exists, update_where, if◌then◌else◌, ◌==◌,
}
use recruit_me.Errors.{Result, Exec, ok, unless_taken, ◌>>=◌}
use recruit_me.Runs.State.{Run, RunTrigger, RunStatus, RunStep, World, is_terminal_status}
use recruit_me.Runs.Samples.{sample_run, world_of}
use recruit_me.Runs.Service.{
  Fresh, create, create_unless, owned_profile, add_run, enqueue, new_run, get, cancel, cancel_at,
}
use recruit_me.Runs.Service.Laws.{create_once, create-IsBacked, IsBacked, IsAgreeing}
use recruit_me.Runs.Service.Stream.{Poll, step, done, stream_events, stream_events_complete}

abbrev name_of : ℕ → String
name_of n = "p"

abbrev drawn : Fresh
drawn = record { run_id = 20; hex = "f" }

abbrev created : Result (Run × Bool) × World
created = create enqueue name_of 100 drawn 1 4 RunTrigger.manual (some "key") (world_of [])

abbrev created_run : Run
created_run = new_run 100 drawn 1 4 RunTrigger.manual "key"

create_run : created ≡ (ok (created_run, true), created.1)
unfolding create create_unless owned_profile add_run enqueue unless_taken ◌>>=◌ find exists
create_run = refl

create_once_example :
    create enqueue name_of 200 drawn 1 4 RunTrigger.manual (some "key") created.1
    ≡ (ok (created_run, false), created.1)
create_once_example =
    create_once name_of 100 200 drawn drawn 1 4 RunTrigger.manual "key" (world_of []) created.1
      created_run true refl create_run

empty-IsBacked : IsBacked (world_of [])
empty-IsBacked = record { jobs = tt; kept = λ id e. e }

-- A queue that drops a job whose run is not committed.
abbrev careful : ℕ → Exec World Unit
careful id w = if exists (λ r. r.id == id) w.committed.runs then enqueue id w else (ok tt, w)

careful_agrees : IsAgreeing enqueue careful
careful_agrees id v stored = rw stored refl

create-IsBacked_example :
    IsBacked created.1
    × (create careful name_of 100 drawn 1 4 RunTrigger.manual (some "key") (world_of [])
        ≡ (ok (created_run, true), created.1))
create-IsBacked_example =
    create-IsBacked name_of 100 drawn 1 4 RunTrigger.manual (some "key") (world_of []) created.1
      created_run true careful careful_agrees empty-IsBacked create_run

abbrev live_world : World
live_world = world_of (sample_run RunStatus.running 1 ∷ [])

abbrev cancelled : Result Run × World
cancelled = cancel 300 1 9 live_world

cancel_run : cancelled ≡ (ok (cancel_at 300 (sample_run RunStatus.running 1)), cancelled.1)
unfolding cancel get ◌>>=◌ find update_where
cancel_run = refl

abbrev first_step : RunStep
first_step = record { run_id = 9; name = "dedupe"; status = "running"; at = 1 }

-- One step, then the end.
abbrev polls : ℕ → Poll
polls zero = record { steps = first_step ∷ []; status = RunStatus.running }
polls (suc i) = record { steps = first_step ∷ []; status = RunStatus.succeeded }

polls_grow : (i : ℕ) → (more : List RunStep) × ((polls (suc i)).steps ≡ (polls i).steps ++ more)
polls_grow zero = ([], refl)
polls_grow (suc i) = ([], refl)

polls_before : (i : ℕ) → i < 1 → is_terminal_status (polls i).status ≡ false
polls_before zero h = refl
polls_before (suc i) h = absurd (omega arith)

stream_events_complete_example :
    stream_events polls RunStatus.queued ≡ step first_step ∷ done RunStatus.succeeded ∷ []
stream_events_complete_example =
    stream_events_complete polls RunStatus.queued 1 (omega arith) polls_grow (polls_before, refl)
