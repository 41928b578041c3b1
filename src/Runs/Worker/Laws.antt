-- ===== src/Runs/Worker/Laws.antt =====
-- One delivery of execute_run.py.
use recruit_me.Prelude.{
  ℕ, ◌+◌, ◌≤◌, ◌<◌, ◌⊎◌, ◌≡◌, ◌≢◌, refl, sym, ap, ◌∙◌, String, Bool, true, false, ◌&&◌, Option,
  none, some, List, ◌==◌, ltb, find_holds, find-update_where, find-update_where-some, Bool-cases,
  Option-cases, inl, inr, arith,
}
use recruit_me.Runs.State.{Run, RunStatus, JobMatch, World, run_by_id, write_run, is_terminal}
use recruit_me.Runs.Persistence.{EngineResult, save_result, failed_sources, notify_if_needed}
use recruit_me.Runs.Worker.{
  Exception, Step, done, raised, Ending, returned, retry, rollback, commit_world, is_transient,
  backoff_seconds, start_run, finish_run, requeue_run, fail_run, take_run, finish, after_hunt,
  run_once, handle_found, handle_raised, handle, execute_run,
}

-- A run is gone, or it is over.
pub IsOver : ℕ → World → Type 0
IsOver run_id w =
    (run_by_id run_id w ≡ none)
    ⊎ ((r : Run) × (run_by_id run_id w ≡ some r) × (is_terminal r ≡ true))

written :
    (run_id : ℕ) (f : Run → Run) (w : World)
    → ((r : Run) → (f r).id ≡ r.id)
    → ((r : Run) → is_terminal (f r) ≡ true)
    → IsOver run_id (write_run run_id f w)
unfolding IsOver
written run_id f w same over =
    let test = λ (r : Run). r.id == run_id in
    elim (Option-cases (run_by_id run_id w)) [
      | inl e ↦ inl (find-update_where test test f w.db.runs (λ r. rw (same r) refl) ∙ rw e refl)
      | inr (r, e) ↦ inr (
        f r,
        find-update_where-some test test f w.db.runs r (λ q. rw (same q) refl) e
            (find_holds test w.db.runs r e),
        over r,
      )
    ]

finish_run_over :
    (now : ℕ) (result : EngineResult) (r : Run) → is_terminal (finish_run now result r) ≡ true
finish_run_over now result r = elim (Bool-cases (failed_sources result)) [
  | inl e ↦ rw e refl
  | inr e ↦ rw e refl
]

retry-ne-returned : (d : ℕ) → retry d ≢ returned
retry-ne-returned d e = ground arith

cancelled-ne-returned : Ending.cancelled ≢ returned
cancelled-ne-returned e = ground arith

cancelled-ne-retry : (d : ℕ) → Ending.cancelled ≢ retry d
cancelled-ne-retry d e = ground arith

retry_inj : (a b : ℕ) → retry a ≡ retry b → a ≡ b
retry_inj a b e = cc

attempts_left : (transient : Bool) (a b : ℕ) → (transient && ltb a b) ≡ true → a < b
attempts_left true a b h = ground arith
attempts_left false a b h = ground arith

pub id_of_found : (run_id : ℕ) (w : World) (r : Run) → run_by_id run_id w ≡ some r → r.id ≡ run_id
id_of_found run_id w r e = let same = find_holds (λ q. q.id == run_id) w.db.runs r e in ground arith

-- The run is queued with attempts left, that is committed, and `d` is the delay of its attempt.
abbrev pub IsRequeued : ℕ → ℕ → ℕ → World → Type 0
IsRequeued jitter run_id d w =
    (r : Run) × (run_by_id run_id w ≡ some r)
    × (r.status ≡ RunStatus.queued)
    × (r.attempt < r.max_attempts)
    × (d ≡ backoff_seconds r.attempt jitter)
    × (w.committed ≡ w.db)

module _ (lower : String → String) (report_key : ℕ → ℕ → String)
    (subject_of : List JobMatch → String) (hunt : Run → World → Step EngineResult)
    (mail : World → Option Exception) (now jitter : ℕ) (worker : String) where
  abbrev once_of : ℕ → World → Step Unit
  once_of = run_once lower report_key subject_of hunt mail now jitter worker

  abbrev delivery_of : ℕ → World → World × Ending
  delivery_of = execute_run lower report_key subject_of hunt mail now jitter worker

  -- A step that is done has left the run over, and that is committed.
  abbrev IsStepOver : ℕ → Step Unit → Type 0
  IsStepOver run_id (done _ w) = IsOver run_id w × (w.committed ≡ w.db)
  IsStepOver run_id (raised e w) = Unit

  finish_over :
      (failure : Option Exception) (r : Run) (result : EngineResult) (w : World)
      → IsStepOver r.id
          (finish lower report_key subject_of hunt mail now jitter worker failure r result w)
  unfolding notify_if_needed IsOver
  finish_over (some e) r result w = tt
  finish_over none r result w = (
    written r.id (finish_run now result) (notify_if_needed report_key subject_of now r w).0
        (λ q. refl) (finish_run_over now result),
    refl,
  )

  after_hunt_over :
      (r : Run) (s : Step EngineResult)
      → IsStepOver r.id (after_hunt lower report_key subject_of hunt mail now jitter worker r s)
  after_hunt_over r (raised e w) = tt
  after_hunt_over r (done result w) =
      finish_over (mail (commit_world (save_result r result w))) r result
        (commit_world (save_result r result w))

  run_found_over :
      (run_id : ℕ) (w : World) → w.committed ≡ w.db → IsStepOver run_id (once_of run_id w)
  unfolding run_once IsOver
  run_found_over run_id w saved = elim (Option-cases (run_by_id run_id w)) [
    | inl e ↦ rw e (inl e, saved)
    | inr (r, e) ↦ elim (Bool-cases (is_terminal r)) [
      | inl over ↦ rw (e, over) (inr (r, e, over), saved)
      | inr live ↦
          rw (e, live, sym (id_of_found run_id w r e))
            (after_hunt_over r (
              hunt (start_run now worker r)
                (take_run lower report_key subject_of hunt mail now jitter worker r w)))
    ]
  ]

  handle_found_returned :
      (run_id : ℕ) (e : Exception) (w w' : World)
      → w.committed ≡ w.db
      → handle_found lower report_key subject_of hunt mail now jitter worker e
          (run_by_id run_id w)
          w
        ≡ (w', returned)
      → IsOver run_id w' × (w'.committed ≡ w'.db)
  unfolding IsOver
  handle_found_returned run_id e w w' saved h = elim (Option-cases (run_by_id run_id w)) [
    | inl gone ↦ rw (ap (λ (z : World × Ending). z.0) (sym (rw gone at h))) (inl gone, saved)
    | inr (r, found) ↦ elim (Bool-cases (is_transient lower e && ltb r.attempt r.max_attempts)) [
      | inl again ↦
          elim (retry-ne-returned _ (ap (λ (z : World × Ending). z.1) (rw (found, again) at h))) [ ]
      | inr last ↦
          rw
            (
              ap (λ (z : World × Ending). z.0) (sym (rw (found, last) at h)),
              id_of_found run_id w r found,
            )
            (written run_id (fail_run now e) w (λ q. refl) (λ q. refl), refl)
    ]
  ]

  handle_raised_returned :
      (run_id : ℕ) (e : Exception) (w w' : World) (is_cancelled : Bool)
      → w.committed ≡ w.db
      → handle_raised lower report_key subject_of hunt mail now jitter worker run_id e w
          is_cancelled
        ≡ (w', returned)
      → IsOver run_id w' × (w'.committed ≡ w'.db)
  handle_raised_returned run_id e w w' true saved h =
      elim (cancelled-ne-returned (ap (λ (z : World × Ending). z.1) h)) [ ]
  handle_raised_returned run_id e w w' false saved h = handle_found_returned run_id e w w' saved h

  handle_returned :
      (run_id : ℕ) (s : Step Unit) (w' : World)
      → IsStepOver run_id s
      → handle lower report_key subject_of hunt mail now jitter worker run_id s ≡ (w', returned)
      → IsOver run_id w' × (w'.committed ≡ w'.db)
  handle_returned run_id (done _ w) w' over h = rw (ap (λ (z : World × Ending). z.0) (sym h)) over
  handle_returned run_id (raised e w) w' over h =
      handle_raised_returned run_id e (rollback w) w' e.is_cancelled refl h

  -- A delivery that starts with nothing uncommitted and returns, so that it neither asks for a retry
  -- nor is cancelled, has left the run over, or finds that it is gone, and in both cases what it
  -- leaves is committed.
  pub execute_run_ends :
      (run_id : ℕ) (w w' : World)
      → w.committed ≡ w.db
      → delivery_of run_id w ≡ (w', returned)
      → IsOver run_id w' × (w'.committed ≡ w'.db)
  unfolding execute_run
  execute_run_ends run_id w w' saved h =
      handle_returned run_id (once_of run_id w) w' (run_found_over run_id w saved) h

  -- Delivering a run that is over again changes nothing.
  pub execute_run_again :
      (run_id : ℕ) (w : World) (r : Run)
      → run_by_id run_id w ≡ some r
      → is_terminal r ≡ true
      → delivery_of run_id w ≡ (w, returned)
  unfolding execute_run run_once
  execute_run_again run_id w r found over = rw (found, over) refl

  handle_found_retry :
      (run_id d : ℕ) (e : Exception) (w w' : World)
      → handle_found lower report_key subject_of hunt mail now jitter worker e
          (run_by_id run_id w)
          w
        ≡ (w', retry d)
      → IsRequeued jitter run_id d w'
  handle_found_retry run_id d e w w' h = elim (Option-cases (run_by_id run_id w)) [
    | inl gone ↦
        elim (retry-ne-returned _ (sym (ap (λ (z : World × Ending). z.1) (rw gone at h)))) [ ]
    | inr (r, found) ↦ elim (Bool-cases (is_transient lower e && ltb r.attempt r.max_attempts)) [
      | inl again ↦
          let ended = rw (found, again) at h in
          let test = λ (q : Run). q.id == run_id in
          rw (ap (λ (z : World × Ending). z.0) (sym ended), id_of_found run_id w r found)
            (
              requeue_run e r,
              find-update_where-some test test (requeue_run e) w.db.runs r (λ q. refl) found
                  (find_holds test w.db.runs r found),
              refl,
              attempts_left (is_transient lower e) r.attempt r.max_attempts again,
              retry_inj _ _ (sym (ap (λ (z : World × Ending). z.1) ended)),
              refl,
            )
      | inr last ↦
          elim (retry-ne-returned _
            (sym (ap (λ (z : World × Ending). z.1) (rw (found, last) at h)))) [ ]
    ]
  ]

  handle_raised_retry :
      (run_id d : ℕ) (e : Exception) (w w' : World) (is_cancelled : Bool)
      → handle_raised lower report_key subject_of hunt mail now jitter worker run_id e w
          is_cancelled
        ≡ (w', retry d)
      → IsRequeued jitter run_id d w'
  handle_raised_retry run_id d e w w' true h =
      elim (cancelled-ne-retry d (ap (λ (z : World × Ending). z.1) h)) [ ]
  handle_raised_retry run_id d e w w' false h = handle_found_retry run_id d e w w' h

  handle_retry :
      (run_id d : ℕ) (s : Step Unit) (w' : World)
      → handle lower report_key subject_of hunt mail now jitter worker run_id s ≡ (w', retry d)
      → IsRequeued jitter run_id d w'
  handle_retry run_id d (done _ w) w' h =
      elim (retry-ne-returned _ (sym (ap (λ (z : World × Ending). z.1) h))) [ ]
  handle_retry run_id d (raised e w) w' h =
      handle_raised_retry run_id d e (rollback w) w' e.is_cancelled h

  -- A retry is asked for only while the attempts last: the run is queued again, that is committed,
  -- and the delay is the one of its attempt.
  pub execute_run_retries :
      (run_id d : ℕ) (w w' : World)
      → delivery_of run_id w ≡ (w', retry d)
      → IsRequeued jitter run_id d w'
  unfolding execute_run
  execute_run_retries run_id d w w' h = handle_retry run_id d (once_of run_id w) w' h

-- The delay is at most 300 seconds beyond the jitter.
pub backoff_seconds_bound : (attempt jitter : ℕ) → backoff_seconds attempt jitter ≤ 300 + jitter
unfolding backoff_seconds
backoff_seconds_bound attempt jitter = omega arith
