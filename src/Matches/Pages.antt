-- ===== src/Matches/Pages.antt =====
-- The pages of routers/matches.py.
use mathlib.Core.List.{Perm, Mem}
use mathlib.Core.List.Perm
use recruit_me.Prelude.{
  ℕ, zero, suc, ◌≤◌, ◌+◌, ◌*◌, ◌-◌, ◌≡◌, refl, ap, ◌∙◌, String, Bool, true, false, List, [], ◌∷◌,
  ◌++◌, select, length, take, drop, order_by, arith, order_by-perm, IsOrdered, order_by-IsOrdered,
  length-order_by, ordered_unique, sym,
}
use recruit_me.Matches.{MatchRow, MatchQuery, is_wanted, by_match, list_matches}

module _ {A : Type 0} where
  take-empty : (n : ℕ) → take {A = A} n [] ≡ []
  take-empty zero = refl
  take-empty (suc n) = refl

  drop-empty : (n : ℕ) → drop {A = A} n [] ≡ []
  drop-empty zero = refl
  drop-empty (suc n) = refl

  take_all : (n : ℕ) (xs : List A) → length xs ≤ n → take n xs ≡ xs
  take_all n [] h = take-empty n
  take_all zero (x ∷ xs) h = absurd (omega (arith, h))
  take_all (suc n) (x ∷ xs) h = ap (λ ys. x ∷ ys) (take_all n xs (omega (arith, h)))

  -- Two stretches, one after the other.
  take-append-take : (m n : ℕ) (xs : List A) → take m xs ++ take n (drop m xs) ≡ take (m + n) xs
  take-append-take zero n xs = ap (λ k. take k xs) (omega arith)
  take-append-take (suc m) n [] = rw (take-empty n, take-empty (suc m + n)) refl
  take-append-take (suc m) n (x ∷ xs) =
      let step : suc m + n ≡ suc (m + n) = omega arith in
      rw step (ap (λ ys. x ∷ ys) (take-append-take m n xs))

  drop-drop : (m n : ℕ) (xs : List A) → drop n (drop m xs) ≡ drop (m + n) xs
  drop-drop zero n xs = ap (λ k. drop k xs) (omega arith)
  drop-drop (suc m) n [] = rw (drop-empty n, drop-empty (suc m + n)) refl
  drop-drop (suc m) n (x ∷ xs) =
      let step : suc m + n ≡ suc (m + n) = omega arith in rw step (drop-drop m n xs)

  -- `count` pages from the page `page` on, counted from nought.
  windows : ℕ → ℕ → ℕ → List A → List A
  windows page zero size xs = []
  windows page (suc count) size xs =
      take size (drop (page * size) xs) ++ windows (suc page) count size xs

  windows-eq :
      (page count size : ℕ) (xs : List A)
      → windows page count size xs ≡ take (count * size) (drop (page * size) xs)
  unfolding windows
  windows-eq page zero size xs = let nothing : 0 * size ≡ 0 = omega arith in rw nothing refl
  windows-eq page (suc count) size xs =
      let next : suc page * size ≡ page * size + size = omega arith in
      let more : suc count * size ≡ size + count * size = omega arith in
      rw
        (
          windows-eq (suc page) count size xs,
          next,
          ← drop-drop (page * size) size xs,
          take-append-take size (count * size) (drop (page * size) xs),
          more,
        )
        refl

-- `ORDER BY match_percentage DESC, created_at DESC`: the same rows in that order, which leaves open in
-- which order rows with the same two values come.
abbrev pub IsAnswer : (List MatchRow → List MatchRow) → Type 0
IsAnswer sort = (rows : List MatchRow) → Perm (sort rows) rows × IsOrdered by_match (sort rows)

-- The items of `count` pages from the page `page` on, each by the order of its own query.
abbrev pub items_of_pages :
    (ℕ → List MatchRow → List MatchRow)
    → (String → String → Bool)
    → ℕ
    → MatchQuery
    → ℕ
    → ℕ
    → ℕ
    → List MatchRow
    → List MatchRow
items_of_pages sorts ilike user_id query page zero page_size rows = []
items_of_pages sorts ilike user_id query page (suc count) page_size rows =
    (list_matches (sorts page) ilike user_id query page page_size rows).items
    ++ items_of_pages sorts ilike user_id query (suc page) count page_size rows

by_match_total : (x y : MatchRow) → by_match x y ≡ false → by_match y x ≡ true
by_match_total x y h = ground arith

by_match_trans :
    (x y z : MatchRow) → by_match x y ≡ true → by_match y z ≡ true → by_match x z ≡ true
by_match_trans x y z h k = ground arith

by_match_refl : (x : MatchRow) → by_match x x ≡ true
by_match_refl x = ground arith

-- The stable sort is one such order.
pub order_by-IsAnswer : IsAnswer (order_by by_match)
order_by-IsAnswer rows =
    (order_by-perm by_match rows, order_by-IsOrdered by_match by_match_total by_match_trans rows)

-- No two rows that the query asks for have the same percentage and the same time.
abbrev pub IsUntied : (String → String → Bool) → ℕ → MatchQuery → List MatchRow → Type 0
IsUntied ilike user_id query rows =
    (x y : MatchRow)
    → Mem x (select (is_wanted ilike user_id query) rows)
    → Mem y (select (is_wanted ilike user_id query) rows)
    → x.row.match_percentage ≡ y.row.match_percentage
    → x.created_at ≡ y.created_at
    → x ≡ y

same_keys :
    (x y : MatchRow)
    → by_match x y ≡ true
    → by_match y x ≡ true
    → (x.row.match_percentage ≡ y.row.match_percentage) × (x.created_at ≡ y.created_at)
same_keys x y h k = (ground arith, ground arith)

module _ (sorts : ℕ → List MatchRow → List MatchRow) (ilike : String → String → Bool) (user_id : ℕ)
    (query : MatchQuery) (page_size : ℕ) (rows : List MatchRow)
    (answers : (page : ℕ) → IsAnswer (sorts page))
    (untied : IsUntied ilike user_id query rows) where
  abbrev wanted : List MatchRow
  wanted = select (is_wanted ilike user_id query) rows

  sorts_agree : (page : ℕ) → sorts page wanted ≡ order_by by_match wanted
  sorts_agree page =
      let (perm, ordered) = answers page wanted in
      let (perm', ordered') = order_by-IsAnswer wanted in
      sym (
        ordered_unique by_match by_match_refl (order_by by_match wanted) (sorts page wanted)
          (Perm.trans perm' (Perm.symm perm))
          (λ x y m n h k.
            let (percentage, time) = same_keys x y h k in
            untied x y ((Perm.mem_iff perm').0 m) ((Perm.mem_iff perm').0 n) percentage time)
          ordered' ordered)

  items-windows :
      (page count : ℕ)
      → items_of_pages sorts ilike user_id query (suc page) count page_size rows
        ≡ windows page count page_size (order_by by_match wanted)
  unfolding list_matches windows
  items-windows page zero = refl
  items-windows page (suc count) =
      let before : suc page - 1 ≡ page = omega arith in
      rw (before, sorts_agree (suc page), items-windows (suc page) count) refl

  -- If no two rows of the query tie, in percentage and time, the pages from the first on, once they are
  -- as many as the total needs, hold together just the rows that the user's query asks for, each as
  -- often as it is stored, and one after the other they are in the order of percentage and then age,
  -- however the database orders the rows of each page's query within its `ORDER BY`.
  pub list_matches_complete :
      (count : ℕ)
      → (list_matches (sorts 1) ilike user_id query 1 page_size rows).total ≤ count * page_size
      → Perm (items_of_pages sorts ilike user_id query 1 count page_size rows) wanted
        × IsOrdered by_match (items_of_pages sorts ilike user_id query 1 count page_size rows)
  unfolding list_matches
  list_matches_complete count enough =
      let sorted = order_by by_match wanted in
      let nothing : 0 * page_size ≡ 0 = omega arith in
      let all : items_of_pages sorts ilike user_id query 1 count page_size rows ≡ sorted =
        items-windows 0 count
        ∙ windows-eq 0 count page_size sorted
        ∙ ap (λ k. take (count * page_size) (drop k sorted)) nothing
        ∙ take_all (count * page_size) sorted (rw (length-order_by by_match wanted) enough) in
      rw all (order_by-IsAnswer wanted)
