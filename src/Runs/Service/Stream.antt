-- ===== src/Runs/Service/Stream.antt =====
-- `stream_events`: the server-sent events of one run. Round i of the loop sees `polls i`: the steps
-- in their order as its query reads them, and the status that the refresh, a later query, reads. What
-- is committed between the two is in the status and not in the steps.
use recruit_me.Prelude.{
  ℕ, zero, suc, ◌+◌, ◌<◌, ◌≡◌, refl, ap, ◌∙◌, true, false, List, [], ◌∷◌, ◌++◌, map, arith, length,
  drop, length-append, if◌then◌else◌,
}
use mathlib.Core.List.{append_assoc, map-append}
use recruit_me.Runs.State.{RunStatus, RunStep, is_terminal_status}

pub record Poll : Type 0 where
  pub steps : List RunStep
  pub status : RunStatus

-- `event: step`, `event: done`, `event: timeout`
pub data Event : Type 0 where
  step : RunStep → Event
  done : RunStatus → Event
  timeout : RunStatus → Event

-- The loop, with the rounds left, the steps sent so far, and the status last seen.
stream_from : ℕ → (ℕ → Poll) → ℕ → RunStatus → List Event
stream_from zero polls sent status = timeout status ∷ []
stream_from (suc left) polls sent status =
    let fresh = drop sent (polls 0).steps in
    let rest = stream_from left (λ i. polls (suc i)) (sent + length fresh) (polls 0).status in
    map step fresh
    ++ (if is_terminal_status (polls 0).status then done (polls 0).status ∷ [] else rest)

-- `max_polls=900`
unfoldable pub stream_events : (ℕ → Poll) → RunStatus → List Event
unfolding stream_from
stream_events polls status = stream_from 900 polls 0 status

-- From one round to the next steps are only added behind those that are there. A retry of the run in
-- between breaks this, as it deletes the steps.
abbrev pub Grows : (ℕ → Poll) → Type 0
Grows polls = (i : ℕ) → (more : List RunStep) × ((polls (suc i)).steps ≡ (polls i).steps ++ more)

drop-append : (p more : List RunStep) → drop (length p) (p ++ more) ≡ more
drop-append [] more = refl
drop-append (x ∷ p) more = drop-append p more

-- The run is over at round m, and not before.
abbrev pub IsOverAt : (ℕ → Poll) → ℕ → Type 0
IsOverAt polls m =
    ((i : ℕ) → i < m → is_terminal_status (polls i).status ≡ false)
    × (is_terminal_status (polls m).status ≡ true)

stream_from_over :
    (m left : ℕ) (polls : ℕ → Poll) (p more : List RunStep) (status : RunStatus)
    → m < left
    → (polls 0).steps ≡ p ++ more
    → Grows polls
    → IsOverAt polls m
    → map step p ++ stream_from left polls (length p) status
      ≡ map step (polls m).steps ++ done (polls m).status ∷ []
unfolding stream_from
stream_from_over m zero polls p more status h e g over = absurd (omega arith)
stream_from_over zero (suc left) polls p more status h e g (before, now) =
    rw (e, drop-append, now) (simp (map-append, append_assoc) refl)
stream_from_over (suc m) (suc left) polls p more status h e g (before, now) =
    let (more', e') = g 0 in
    let rest =
      stream_from_over m left (λ i. polls (suc i)) (p ++ more) more' (polls 0).status (omega arith)
        (e' ∙ ap (λ l. l ++ more') e) (λ i. g (suc i))
        ((λ i k. before (suc i) (omega arith)), now) in
    rw (e, drop-append, before 0 (omega arith), ← append_assoc, ← map-append, ← length-append) rest

-- If a refresh within the first 900 rounds is the first to read a terminal status, and no step is
-- deleted until then, so that each round reads the steps of the one before and maybe more behind them,
-- the client is sent each step that this round's query read once, in order, and then that status, and
-- nothing else.
pub stream_events_complete :
    (polls : ℕ → Poll) (status : RunStatus) (m : ℕ)
    → m < 900
    → Grows polls
    → IsOverAt polls m
    → stream_events polls status ≡ map step (polls m).steps ++ done (polls m).status ∷ []
unfolding stream_events
stream_events_complete polls status m h g over =
    stream_from_over m 900 polls [] (polls 0).steps status h refl g over
