-- ===== src/Runs/Persistence/Tests.antt =====
-- Saving and mailing on small tables, and the theorems there.
use recruit_me.Prelude.{
  order_by, ℕ, suc, ◌≡◌, refl, String, Bool, true, false, none, some, List, [], ◌∷◌, length, find,
  update_where, exists, select, arith,
}
use recruit_me.Runs.State.{Run, RunStatus, JobMatch, World, run_by_id}
use recruit_me.Runs.Samples.{sample_run, world_of}
use recruit_me.Runs.Persistence.{Matched, insert_matches, match_row, notify_if_needed}
use recruit_me.Runs.Persistence.Laws.{
  insert_matches_again, insert_matches-IsUnique, IsUnique, notify_once,
}

abbrev job : Matched
job = record {
  external_hash = "h";
  source = "jobspy";
  company = "Acme";
  title = "Dev";
  location = "";
  url = "";
  description = "";
  salary = none;
  posted_date = none;
  match_percentage = 80;
  matched_skills = [];
  missing_skills = [];
  why_fit = "";
  urgency = "";
  recommended_action = "";
  matched_profile_id = "";
}

abbrev run : Run
run = sample_run RunStatus.running 1

inserted_once : (insert_matches run (job ∷ job ∷ []) [] 0).1 ≡ 1
unfolding insert_matches exists
inserted_once = refl

insert_matches_again_example :
    insert_matches run (job ∷ job ∷ []) (insert_matches run (job ∷ job ∷ []) [] 0).0 0
    ≡ ((insert_matches run (job ∷ job ∷ []) [] 0).0, 0)
insert_matches_again_example = insert_matches_again run (job ∷ job ∷ []) [] 0 0

empty-IsUnique : IsUnique []
unfolding IsUnique select
empty-IsUnique user_id hash = omega arith

insert_matches-IsUnique_example : IsUnique (insert_matches run (job ∷ job ∷ []) [] 0).0
insert_matches-IsUnique_example = insert_matches-IsUnique run (job ∷ job ∷ []) [] 0 empty-IsUnique

abbrev matched_world : World
matched_world = record (world_of (run ∷ [])) {
  db = record (world_of (run ∷ [])).db { matches = match_row run job ∷ [] };
}

abbrev key_for : ℕ → ℕ → String
key_for user_id run_id = "report"

abbrev subject_for : List JobMatch → String
subject_for rows = "matches"

abbrev notified : World × Bool
notified = notify_if_needed key_for subject_for 500 run matched_world

notify_run : notified ≡ (notified.0, true)
unfolding notify_if_needed order_by select find update_where
notify_run = refl

run_stored : run_by_id 9 matched_world ≡ some run
unfolding find
run_stored = refl

notify_once_example :
    (r' : Run) × (run_by_id 9 notified.0 ≡ some r')
    × (r'.notified_at ≡ some 500)
    × (length notified.0.sent ≡ suc (length matched_world.sent))
    × (notify_if_needed key_for subject_for 600 r' notified.0 ≡ (notified.0, false))
notify_once_example =
    notify_once key_for subject_for 500 600 run matched_world notified.0 run_stored notify_run
