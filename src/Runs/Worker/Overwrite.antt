-- ===== src/Runs/Worker/Overwrite.antt =====
-- The last write of execute_run.py.
use recruit_me.Prelude.{
  ℕ, ◌≡◌, refl, sym, String, false, Option, none, some, List, [], ◌∷◌, ◌==◌, if◌then◌else◌, find,
  find_holds, find-update_where-some, update_where, Option-cases, inl, inr,
}
use recruit_me.Runs.State.{Run, RunStatus, JobMatch, World, run_by_id, write_run, is_terminal}
use recruit_me.Runs.Persistence.{
  EngineResult, save_result, failed_sources, notify_if_needed, notify_rows, send_report,
  with_report, report_rows,
}
use recruit_me.Runs.Worker.Laws.{id_of_found}
use recruit_me.Runs.Worker.{
  Exception, Step, done, commit_world, start_run, finish_run, take_run, run_once, execute_run,
}

abbrev IsThere : ℕ → List Run → Type 0
IsThere run_id runs = (q : Run) × (find (λ r. r.id == run_id) runs ≡ some q)

update_where-IsThere :
    (run_id : ℕ) (f : Run → Run) (runs : List Run)
    → ((r : Run) → (f r).id ≡ r.id)
    → IsThere run_id runs
    → IsThere run_id (update_where (λ r. r.id == run_id) f runs)
update_where-IsThere run_id f runs same (q, found) =
    let test = λ (r : Run). r.id == run_id in
    (
      f q,
      find-update_where-some test test f runs q (λ r. rw (same r) refl) found
          (find_holds test runs q found),
    )

save_result-IsThere :
    (r : Run) (result : EngineResult) (w : World)
    → IsThere r.id w.db.runs
    → IsThere r.id (save_result r result w).db.runs
unfolding save_result
save_result-IsThere r result w (q, found) =
    update_where-IsThere r.id _ w.db.runs (λ x. refl) (q, found)

module _ (report_key : ℕ → ℕ → String) (subject_of : List JobMatch → String) where
  send_report-IsThere :
      (now : ℕ) (r : Run) (rows : List JobMatch) (to : Option (ℕ × String)) (w : World)
      → IsThere r.id w.db.runs
      → IsThere r.id (send_report report_key subject_of now r rows to w).0.db.runs
  send_report-IsThere now r rows none w there = there
  send_report-IsThere now r rows (some (i, address)) w (q, found) =
      update_where-IsThere r.id (λ (x : Run). record x { notified_at = some now }) w.db.runs
        (λ x. refl) (q, found)

  notify_rows-IsThere :
      (now : ℕ) (r : Run) (rows : List JobMatch) (w : World)
      → IsThere r.id w.db.runs
      → IsThere r.id (notify_rows report_key subject_of now r rows w).0.db.runs
  notify_rows-IsThere now r [] w there = there
  notify_rows-IsThere now r (m ∷ ms) w (q, found) =
      send_report-IsThere now r (m ∷ ms) (find (λ a. a.0 == r.user_id) w.db.addresses)
        (with_report report_key subject_of r w)
        (update_where-IsThere r.id _ w.db.runs (λ x. refl) (q, found))

  notify-IsThere :
      (now : ℕ) (r : Run) (w : World)
      → IsThere r.id w.db.runs
      → IsThere r.id (notify_if_needed report_key subject_of now r w).0.db.runs
  unfolding notify_if_needed
  notify-IsThere now r w there = elim (Option-cases r.notified_at) [
    | inl e ↦ rw e (notify_rows-IsThere now r (report_rows r.id w) w there)
    | inr (t, e) ↦ rw e there
  ]

found_as :
    (a b : ℕ) (runs : List Run) (x : Run)
    → a ≡ b
    → find (λ y. y.id == a) runs ≡ some x
    → find (λ y. y.id == b) runs ≡ some x
found_as a b runs x e found = rw (sym e) found

-- If the row of a run changed while the engine ran, say to cancelled, and the engine and the mail
-- succeed, the row is overwritten: its status is succeeded or partial.
pub execute_run_overwrites :
    (lower : String → String) (report_key : ℕ → ℕ → String) (subject_of : List JobMatch → String)
    (hunt : Run → World → Step EngineResult) (mail : World → Option Exception) (now jitter : ℕ)
    (worker : String) (run_id : ℕ) (w v : World) (r q : Run) (result : EngineResult)
    → run_by_id run_id w ≡ some r
    → is_terminal r ≡ false
    → hunt
        (start_run now worker r)
        (take_run lower report_key subject_of hunt mail now jitter worker r w)
      ≡ done result v
    → mail (commit_world (save_result r result v)) ≡ none
    → run_by_id run_id v ≡ some q
    → (r' : Run) × (run_by_id run_id
          (execute_run lower report_key subject_of hunt mail now jitter worker run_id w).0
        ≡ some r')
      × (r'.status ≡ (if failed_sources result then RunStatus.partial else RunStatus.succeeded))
unfolding execute_run run_once
execute_run_overwrites lower report_key subject_of hunt mail now jitter worker run_id w v r q result
      found live hunted silent there =
    let same = id_of_found run_id w r found in
    let kept = commit_world (save_result r result v) in
    let after = (notify_if_needed report_key subject_of now r kept).0 in
    let (x, e) =
      notify-IsThere report_key subject_of now r kept
        (save_result-IsThere r result v (q, found_as run_id r.id v.db.runs q (sym same) there)) in
    let stored : run_by_id run_id (write_run r.id (finish_run now result) after)
        ≡ some (finish_run now result x) =
      find-update_where-some (λ y. y.id == run_id) (λ y. y.id == r.id) (finish_run now result)
        after.db.runs x (λ y. refl) (found_as r.id run_id after.db.runs x same e)
        (find_holds (λ y. y.id == r.id) after.db.runs x e) in
    rw (found, live, hunted, silent) (finish_run now result x, stored, refl)
