-- ===== src/Prelude/Tables.antt =====
-- A table as the list of its rows: `select ... where`, `update ... where`, `delete ... where`.
use mathlib.Core.Path.{◌≡◌, refl}
use mathlib.Core.Bool.{Bool, true, false}
use mathlib.Core.List.{List, [], ◌∷◌, ◌++◌}
use mathlib.Core.Option.{Option, none, some, some-injective}
use mathlib.Core.Option
use native.Mathlib.Omega.{arith}
use recruit_me.Prelude.Tests.{if◌then◌else◌, Bool-cases}
use recruit_me.Prelude.Lists.{All}
use mathlib.Core.Logic.{inl, inr}

module _ {ℓ} {A : Type ℓ} where
  -- the first row that passes the test
  unfoldable pub find : (A → Bool) → List A → Option A
  find p [] = none
  find p (x ∷ xs) = if p x then some x else find p xs

  unfoldable pub exists : (A → Bool) → List A → Bool
  exists p [] = false
  exists p (x ∷ xs) = if p x then true else exists p xs

  abbrev pub change_if : (A → Bool) → (A → A) → A → A
  change_if p f x = if p x then f x else x

  unfoldable pub update_where : (A → Bool) → (A → A) → List A → List A
  update_where p f [] = []
  update_where p f (x ∷ xs) = change_if p f x ∷ update_where p f xs

  -- the rows that pass the test
  unfoldable pub select : (A → Bool) → List A → List A
  select p [] = []
  select p (x ∷ xs) = if p x then x ∷ select p xs else select p xs

  unfoldable pub delete_where : (A → Bool) → List A → List A
  delete_where p [] = []
  delete_where p (x ∷ xs) = if p x then delete_where p xs else x ∷ delete_where p xs

module _ {ℓ} {A : Type ℓ} where
  pub find_holds : (p : A → Bool) (xs : List A) (x : A) → find p xs ≡ some x → p x ≡ true
  unfolding find
  find_holds p [] x e = cc
  find_holds p (y ∷ xs) x e = elim (Bool-cases (p y)) [
    | inl t ↦ ground arith
    | inr f ↦ ground (arith, find_holds p xs x)
  ]

  pub find-none_of_exists : (p : A → Bool) (xs : List A) → exists p xs ≡ false → find p xs ≡ none
  unfolding find exists
  find-none_of_exists p [] e = refl
  find-none_of_exists p (x ∷ xs) e = ground (arith, find-none_of_exists p xs)

  pub exists-update_where :
      (q p : A → Bool) (f : A → A) (xs : List A)
      → ((x : A) → q (f x) ≡ q x)
      → exists q (update_where p f xs) ≡ exists q xs
  unfolding exists update_where
  exists-update_where q p f [] h = refl
  exists-update_where q p f (x ∷ xs) h = elim (Bool-cases (p x)) [
    | inl t ↦ rw (t, h x, exists-update_where q p f xs h) refl
    | inr t ↦ rw (t, exists-update_where q p f xs h) refl
  ]

  -- A search whose test the update does not affect finds the same row, updated.
  pub find-update_where :
      (q p : A → Bool) (f : A → A) (xs : List A)
      → ((x : A) → q (f x) ≡ q x)
      → find q (update_where p f xs) ≡ Option.map (change_if p f) (find q xs)
  unfolding find update_where
  find-update_where q p f [] h = refl
  find-update_where q p f (x ∷ xs) h = elim (Bool-cases (p x)) [
    | inl t ↦
        rw (t, h x)
          (elim (Bool-cases (q x)) [
            | inl u ↦ rw (u, t)
            | inr u ↦ rw u (find-update_where q p f xs h)
          ])
    | inr t ↦ rw t (elim (Bool-cases (q x)) [
      | inl u ↦ rw (u, t)
      | inr u ↦ rw u (find-update_where q p f xs h)
    ])
  ]

  pub find-update_where-some :
      (q p : A → Bool) (f : A → A) (xs : List A) (x : A)
      → ((y : A) → q (f y) ≡ q y)
      → find q xs ≡ some x
      → p x ≡ true
      → find q (update_where p f xs) ≡ some (f x)
  find-update_where-some q p f xs x h e t = rw (find-update_where q p f xs h, e) (rw t refl)

  pub find-update_where_other :
      (q p : A → Bool) (f : A → A) (xs : List A)
      → ((y : A) → q (f y) ≡ q y)
      → ((y : A) → q y ≡ true → p y ≡ false)
      → find q (update_where p f xs) ≡ find q xs
  unfolding find update_where
  find-update_where_other q p f [] h k = refl
  find-update_where_other q p f (x ∷ xs) h k =
      ground (arith, h x, k x, find-update_where_other q p f xs h k)

  pub find-single : (p : A → Bool) (x : A) → p x ≡ true → find p (x ∷ []) ≡ some x
  unfolding find
  find-single p x e = rw e

  pub exists-append-left :
      (p : A → Bool) (xs ys : List A) → exists p xs ≡ true → exists p (xs ++ ys) ≡ true
  unfolding exists
  exists-append-left p [] ys e = cc
  exists-append-left p (x ∷ xs) ys e = ground (arith, exists-append-left p xs ys)

  pub exists-append-right :
      (p : A → Bool) (xs ys : List A) → exists p ys ≡ true → exists p (xs ++ ys) ≡ true
  unfolding exists
  exists-append-right p [] ys e = e
  exists-append-right p (x ∷ xs) ys e = ground (arith, exists-append-right p xs ys)

  pub exists-single : (p : A → Bool) (x : A) → p x ≡ true → exists p (x ∷ []) ≡ true
  unfolding exists
  exists-single p x e = rw e refl

  pub find-append-some :
      (p : A → Bool) (xs ys : List A) (x : A) → find p xs ≡ some x → find p (xs ++ ys) ≡ some x
  unfolding find
  find-append-some p [] ys x e = cc
  find-append-some p (y ∷ xs) ys x e = ground (arith, find-append-some p xs ys x)

  pub find-append-none :
      (p : A → Bool) (xs ys : List A) → find p xs ≡ none → find p (xs ++ ys) ≡ find p ys
  unfolding find
  find-append-none p [] ys e = refl
  find-append-none p (y ∷ xs) ys e = ground (arith, find-append-none p xs ys)

  -- A selection in a wider one.
  pub select-select :
      (q p : A → Bool) (xs : List A)
      → ((x : A) → q x ≡ true → p x ≡ true)
      → select q (select p xs) ≡ select q xs
  unfolding select
  select-select q p [] h = refl
  select-select q p (x ∷ xs) h = ground (arith, h x, select-select q p xs h)

  pub find-select :
      (q p : A → Bool) (xs : List A) (x : A)
      → find q xs ≡ some x
      → p x ≡ true
      → find q (select p xs) ≡ some x
  unfolding find select
  find-select q p [] x e h = cc
  find-select q p (y ∷ xs) x e h = ground (arith, find-select q p xs x)

  pub find-delete_where :
      (q p : A → Bool) (xs : List A)
      → ((x : A) → q x ≡ true → p x ≡ true)
      → find q (delete_where p xs) ≡ none
  unfolding find delete_where
  find-delete_where q p [] h = refl
  find-delete_where q p (x ∷ xs) h = ground (arith, h x, find-delete_where q p xs h)

  pub find-delete_where_other :
      (q p : A → Bool) (xs : List A)
      → ((x : A) → q x ≡ true → p x ≡ false)
      → find q (delete_where p xs) ≡ find q xs
  unfolding find delete_where
  find-delete_where_other q p [] h = refl
  find-delete_where_other q p (x ∷ xs) h = ground (arith, h x, find-delete_where_other q p xs h)

  pub select-delete_where_other :
      (q p : A → Bool) (xs : List A)
      → ((x : A) → q x ≡ true → p x ≡ false)
      → select q (delete_where p xs) ≡ select q xs
  unfolding select delete_where
  select-delete_where_other q p [] h = refl
  select-delete_where_other q p (x ∷ xs) h = ground (arith, h x, select-delete_where_other q p xs h)

module _ {ℓ κ} {A : Type ℓ} (P : A → Type κ) where
  pub All-update_where :
      (p : A → Bool) (f : A → A) (xs : List A)
      → ((x : A) → p x ≡ true → P x → P (f x))
      → All P xs
      → All P (update_where p f xs)
  unfolding update_where
  All-update_where p f [] h a = tt
  All-update_where p f (x ∷ xs) h (b, a) = elim (Bool-cases (p x)) [
    | inl t ↦ rw t (h x t b, All-update_where p f xs h a)
    | inr t ↦ rw t (b, All-update_where p f xs h a)
  ]

  pub All-delete_where :
      (p : A → Bool) (xs : List A) → ((x : A) → p x ≡ false → P x) → All P (delete_where p xs)
  unfolding delete_where
  All-delete_where p [] h = tt
  All-delete_where p (x ∷ xs) h = elim (Bool-cases (p x)) [
    | inl t ↦ rw t (All-delete_where p xs h)
    | inr t ↦ rw t (h x t, All-delete_where p xs h)
  ]

  pub All-delete_where_kept : (p : A → Bool) (xs : List A) → All P xs → All P (delete_where p xs)
  unfolding delete_where
  All-delete_where_kept p [] h = tt
  All-delete_where_kept p (x ∷ xs) (b, a) = elim (Bool-cases (p x)) [
    | inl t ↦ rw t (All-delete_where_kept p xs a)
    | inr t ↦ rw t (b, All-delete_where_kept p xs a)
  ]

  -- What an update establishes of every row.
  pub All-of_update_where :
      (p : A → Bool) (f : A → A) (xs : List A)
      → ((x : A) → P (change_if p f x))
      → All P (update_where p f xs)
  unfolding update_where
  All-of_update_where p f [] h = tt
  All-of_update_where p f (x ∷ xs) h = (h x, All-of_update_where p f xs h)

  pub All-find : (p : A → Bool) (xs : List A) (x : A) → All P xs → find p xs ≡ some x → P x
  unfolding find
  All-find p [] x a e = cc
  All-find p (y ∷ xs) x (b, a) e = elim (Bool-cases (p y)) [
    | inl t ↦ let same : y ≡ x = ground arith in rw (← same) b
    | inr t ↦ All-find p xs x a (rw t at e)
  ]
