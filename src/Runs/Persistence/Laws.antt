-- ===== src/Runs/Persistence/Laws.antt =====
-- The matches and the mail of persistence.py.
use recruit_me.Prelude.{
  ℕ, suc, ◌≤◌, ◌≡◌, ◌≢◌, refl, sym, ap, ◌∙◌, String, Bool, true, false, ◌&&◌, Option, none, some,
  List, [], ◌∷◌, ◌++◌, ◌==◌, ==-refl, str_eq, eq_refl, eq_iff, find, find_holds, exists, select,
  length, length-append, All, Bool-cases, Option-cases, arith, find-update_where-some, inl, inr,
  exists-append-left, exists-append-right, exists-single,
}
use recruit_me.Runs.State.{Run, JobMatch, World, run_by_id}
use recruit_me.Runs.Persistence.{
  Matched, match_row, of_user_and_hash, insert_matches, notify_if_needed, notify_rows, send_report,
  with_report, report_rows,
}

module _ (r : Run) where
  abbrev IsStored : List JobMatch → Matched → Type 0
  IsStored rows m = exists (of_user_and_hash r.user_id m.external_hash) rows ≡ true

  insert_matches_old :
      (m : Matched) (ms : List Matched) (rows : List JobMatch) (n : ℕ)
      → exists (of_user_and_hash r.user_id m.external_hash) rows ≡ true
      → insert_matches r (m ∷ ms) rows n ≡ insert_matches r ms rows n
  unfolding insert_matches
  insert_matches_old m ms rows n e = rw e refl

  insert_matches_fresh :
      (m : Matched) (ms : List Matched) (rows : List JobMatch) (n : ℕ)
      → exists (of_user_and_hash r.user_id m.external_hash) rows ≡ false
      → insert_matches r (m ∷ ms) rows n ≡ insert_matches r ms (rows ++ match_row r m ∷ []) (suc n)
  unfolding insert_matches
  insert_matches_fresh m ms rows n e = rw e refl

  insert_matches_keeps :
      (q : JobMatch → Bool) (ms : List Matched) (rows : List JobMatch) (n : ℕ)
      → exists q rows ≡ true
      → exists q (insert_matches r ms rows n).0 ≡ true
  unfolding insert_matches
  insert_matches_keeps q [] rows n e = e
  insert_matches_keeps q (m ∷ ms) rows n e =
      elim (Bool-cases (exists (of_user_and_hash r.user_id m.external_hash) rows)) [
        | inl t ↦ rw t (insert_matches_keeps q ms rows n e)
        | inr t ↦ rw t (insert_matches_keeps q ms _ (suc n) (exists-append-left q rows _ e))
      ]

  IsStored-as :
      (ms : List Matched) (a b : List JobMatch × ℕ)
      → a ≡ b
      → All (IsStored b.0) ms
      → All (IsStored a.0) ms
  IsStored-as ms a b e known = rw e known

  insert_matches_stores :
      (ms : List Matched) (rows : List JobMatch) (n : ℕ)
      → All (IsStored (insert_matches r ms rows n).0) ms
  insert_matches_stores [] rows n = tt
  insert_matches_stores (m ∷ ms) rows n =
      elim (Bool-cases (exists (of_user_and_hash r.user_id m.external_hash) rows)) [
        | inl t ↦
            IsStored-as (m ∷ ms) _ _ (insert_matches_old m ms rows n t)
              (insert_matches_keeps _ ms rows n t, insert_matches_stores ms rows n)
        | inr t ↦ IsStored-as (m ∷ ms) _ _ (insert_matches_fresh m ms rows n t) (
          insert_matches_keeps _ ms _ (suc n) (
              exists-append-right (of_user_and_hash r.user_id m.external_hash) rows
                (match_row r m ∷ [])
                (exists-single _ (match_row r m)
                  (rw (==-refl r.user_id, eq_refl m.external_hash) refl))),
          insert_matches_stores ms _ (suc n),
        )
      ]

  insert_matches_known :
      (ms : List Matched) (rows : List JobMatch) (n : ℕ)
      → All (IsStored rows) ms
      → insert_matches r ms rows n ≡ (rows, n)
  unfolding insert_matches
  insert_matches_known [] rows n known = refl
  insert_matches_known (m ∷ ms) rows n (e, known) =
      insert_matches_old m ms rows n e ∙ (insert_matches_known ms rows n known)

-- Inserting the matches of a result a second time inserts nothing and counts nothing, so a retried
-- run adds no match twice.
pub insert_matches_again :
    (r : Run) (ms : List Matched) (rows : List JobMatch) (n k : ℕ)
    → insert_matches r ms (insert_matches r ms rows n).0 k ≡ ((insert_matches r ms rows n).0, k)
insert_matches_again r ms rows n k =
    insert_matches_known r ms _ k (insert_matches_stores r ms rows n)

-- `uq_job_matches_user_hash`: no two rows have the same user and hash.
unfoldable pub IsUnique : List JobMatch → Type 0
IsUnique rows =
    (user_id : ℕ) (hash : String) → length (select (of_user_and_hash user_id hash) rows) ≤ 1

select_free : {A : Type 0} (p : A → Bool) (xs : List A) → exists p xs ≡ false → select p xs ≡ []
unfolding select exists
select_free p [] e = refl
select_free p (x ∷ xs) e = ground (arith, select_free p xs)

select-append :
    {A : Type 0} (p : A → Bool) (xs ys : List A) → select p (xs ++ ys) ≡ select p xs ++ select p ys
unfolding select
select-append p [] ys = refl
select-append p (x ∷ xs) ys = elim (Bool-cases (p x)) [
  | inl t ↦ rw t (ap (λ zs. x ∷ zs) (select-append p xs ys))
  | inr t ↦ rw t (select-append p xs ys)
]

==-eq : (a b : ℕ) → (a == b) ≡ true → a ≡ b
==-eq a b h = ground arith

both : (a b : Bool) → (a && b) ≡ true → (a ≡ true) × (b ≡ true)
both true b h = (refl, h)
both false b h = ground arith

append-IsUnique :
    (r : Run) (m : Matched) (rows : List JobMatch)
    → exists (of_user_and_hash r.user_id m.external_hash) rows ≡ false
    → IsUnique rows
    → IsUnique (rows ++ match_row r m ∷ [])
unfolding IsUnique select
append-IsUnique r m rows free unique user_id hash =
    let p = of_user_and_hash user_id hash in
    rw (select-append p rows (match_row r m ∷ [])) (elim (Bool-cases (p (match_row r m))) [
      | inl t ↦
          let (same, text) = both (r.user_id == user_id) (str_eq m.external_hash hash) t in
          let u : r.user_id ≡ user_id = ==-eq r.user_id user_id same in
          let h : m.external_hash ≡ hash = (eq_iff m.external_hash hash).0 text in
          rw (t, select_free p rows (rw (u, h) at free)) (omega arith)
      | inr t ↦ rw t (omega (arith, length-append (select p rows) [], unique user_id hash))
    ])

-- Saving matches keeps the rows unique by user and hash, whatever the result repeats.
pub insert_matches-IsUnique :
    (r : Run) (ms : List Matched) (rows : List JobMatch) (n : ℕ)
    → IsUnique rows
    → IsUnique (insert_matches r ms rows n).0
unfolding insert_matches
insert_matches-IsUnique r [] rows n unique = unique
insert_matches-IsUnique r (m ∷ ms) rows n unique =
    elim (Bool-cases (exists (of_user_and_hash r.user_id m.external_hash) rows)) [
      | inl t ↦ rw t (insert_matches-IsUnique r ms rows n unique)
      | inr t ↦ rw t (insert_matches-IsUnique r ms _ (suc n) (append-IsUnique r m rows t unique))
    ]

module _ (report_key : ℕ → ℕ → String) (subject_of : List JobMatch → String) where
  send_report_sent :
      (now : ℕ) (r r' : Run) (rows : List JobMatch) (to : Option (ℕ × String)) (w w' : World)
      → run_by_id r.id w ≡ some r'
      → send_report report_key subject_of now r rows to w ≡ (w', true)
      → (run_by_id r.id w' ≡ some (record r' { notified_at = some now }))
        × (length w'.sent ≡ suc (length w.sent))
  send_report_sent now r r' rows none w w' found h = ground arith
  send_report_sent now r r' rows (some (i, address)) w w' found h =
      let world = ap (λ (z : World × Bool). z.0) (sym h) in
      rw world (
        find-update_where-some (λ q. q.id == r.id) (λ q. q.id == r.id)
            (λ (q : Run). record q { notified_at = some now }) w.db.runs r' (λ y. refl) found
            (find_holds (λ q. q.id == r.id) w.db.runs r' found),
        length-append w.sent _ ∙ omega arith,
      )

  notify_rows_sent :
      (now : ℕ) (r : Run) (rows : List JobMatch) (w w' : World)
      → run_by_id r.id w ≡ some r
      → notify_rows report_key subject_of now r rows w ≡ (w', true)
      → (r' : Run) × (run_by_id r.id w' ≡ some r')
        × (r'.notified_at ≡ some now)
        × (length w'.sent ≡ suc (length w.sent))
  notify_rows_sent now r [] w w' found h = ground arith
  notify_rows_sent now r (m ∷ ms) w w' found h =
      let (stored, sent) =
        send_report_sent now r (record r { report_key = some (report_key r.user_id r.id) }) (m ∷ ms)
          (find (λ a. a.0 == r.user_id) w.db.addresses) (with_report report_key subject_of r w) w'
          (find-update_where-some (λ q. q.id == r.id) (λ q. q.id == r.id)
            (λ (q : Run). record q { report_key = some (report_key r.user_id r.id) }) w.db.runs r
            (λ y. refl) found (==-refl r.id))
          h in
      (_, stored, refl, sent)

ne : false ≢ true
ne e = ground arith

notify_noted :
    (report_key : ℕ → ℕ → String) (subject_of : List JobMatch → String) (later t : ℕ) (r : Run)
    (w : World)
    → r.notified_at ≡ some t
    → notify_if_needed report_key subject_of later r w ≡ (w, false)
unfolding notify_if_needed
notify_noted report_key subject_of later t r w e = rw e refl

-- A run that was mailed about is never mailed about again: the second call changes nothing.
pub notify_once :
    (report_key : ℕ → ℕ → String) (subject_of : List JobMatch → String) (now later : ℕ) (r : Run)
    (w w' : World)
    → run_by_id r.id w ≡ some r
    → notify_if_needed report_key subject_of now r w ≡ (w', true)
    → (r' : Run) × (run_by_id r.id w' ≡ some r')
      × (r'.notified_at ≡ some now)
      × (length w'.sent ≡ suc (length w.sent))
      × (notify_if_needed report_key subject_of later r' w' ≡ (w', false))
unfolding notify_if_needed
notify_once report_key subject_of now later r w w' found h = elim (Option-cases r.notified_at) [
  | inl e ↦
      let (r', stored, at, sent) =
        notify_rows_sent report_key subject_of now r (report_rows r.id w) w w' found (rw e at h) in
      (r', stored, at, sent, notify_noted report_key subject_of later now r' w' at)
  | inr (t, e) ↦
      elim (ne (
        ap (λ (z : World × Bool). z.1)
          (sym (notify_noted report_key subject_of now t r w e) ∙ h))) [ ]
]
