-- ===== src/Prelude/Sorting.antt =====
-- Python's `sorted` and SQL's `ORDER BY`: a stable insertion sort, its order and its rows; pages.
use Prim.Native.Nat.{ℕ, zero, suc}
use mathlib.Core.Path.{◌≡◌, refl, ap, ◌∙◌}
use mathlib.Core.Logic.{inl, inr}
use mathlib.Core.Bool.{Bool, true, false}
use mathlib.Core.List.{List, [], ◌∷◌, ◌++◌, Perm}
use mathlib.Core.List.Perm
use recruit_me.Prelude.Tests.{if◌then◌else◌, Bool-cases}
use recruit_me.Prelude.Lists.{All, length, take, drop}

module _ {ℓ} {A : Type ℓ} where
  -- Insertion by a key, behind the rows that have the same.
  unfoldable pub insert_by : (A → A → Bool) → A → List A → List A
  insert_by before x [] = x ∷ []
  insert_by before x (y ∷ ys) = if before x y then x ∷ y ∷ ys else y ∷ insert_by before x ys

  unfoldable pub order_by : (A → A → Bool) → List A → List A
  unfolding insert_by
  order_by before [] = []
  order_by before (x ∷ xs) = insert_by before x (order_by before xs)

module _ {A : Type 0} (before : A → A → Bool) where
  insert_by-perm : (x : A) (ys : List A) → Perm (insert_by before x ys) (x ∷ ys)
  unfolding insert_by
  insert_by-perm x [] = Perm.refl (x ∷ [])
  insert_by-perm x (y ∷ ys) = elim (Bool-cases (before x y)) [
    | inl t ↦ rw t (Perm.refl (x ∷ y ∷ ys))
    | inr t ↦ rw t (Perm.trans (Perm.cons y (insert_by-perm x ys)) (Perm.swap x y ys))
  ]

  -- A sort keeps the rows, as often as they occur.
  pub order_by-perm : (xs : List A) → Perm (order_by before xs) xs
  unfolding order_by
  order_by-perm [] = Perm.refl []
  order_by-perm (x ∷ xs) =
      Perm.trans (insert_by-perm x (order_by before xs)) (Perm.cons x (order_by-perm xs))

  length-insert_by : (x : A) (ys : List A) → length (insert_by before x ys) ≡ suc (length ys)
  unfolding insert_by
  length-insert_by x [] = refl
  length-insert_by x (y ∷ ys) = elim (Bool-cases (before x y)) [
    | inl t ↦ rw t refl
    | inr t ↦ rw t (ap suc (length-insert_by x ys))
  ]

  pub length-order_by : (xs : List A) → length (order_by before xs) ≡ length xs
  unfolding order_by
  length-order_by [] = refl
  length-order_by (x ∷ xs) = length-insert_by x (order_by before xs) ∙ ap suc (length-order_by xs)

  -- Each row stands before all that follow it.
  abbrev pub IsOrdered : List A → Type 0
  IsOrdered [] = Unit
  IsOrdered (x ∷ xs) = All (λ y. before x y ≡ true) xs × IsOrdered xs

  module _ (total : (x y : A) → before x y ≡ false → before y x ≡ true)
      (trans : (x y z : A) → before x y ≡ true → before y z ≡ true → before x z ≡ true) where
    All-before :
        (x y : A) (ys : List A)
        → before x y ≡ true
        → All (λ z. before y z ≡ true) ys
        → All (λ z. before x z ≡ true) ys
    All-before x y [] h a = tt
    All-before x y (z ∷ ys) h (b, a) = (trans x y z h b, All-before x y ys h a)

    All-insert_by :
        (y x : A) (ys : List A)
        → before y x ≡ true
        → All (λ z. before y z ≡ true) ys
        → All (λ z. before y z ≡ true) (insert_by before x ys)
    unfolding insert_by
    All-insert_by y x [] h a = (h, tt)
    All-insert_by y x (z ∷ ys) h (b, a) = elim (Bool-cases (before x z)) [
      | inl t ↦ rw t (h, (b, a))
      | inr t ↦ rw t (b, All-insert_by y x ys h a)
    ]

    insert_by-IsOrdered : (x : A) (ys : List A) → IsOrdered ys → IsOrdered (insert_by before x ys)
    unfolding insert_by
    insert_by-IsOrdered x [] o = (tt, tt)
    insert_by-IsOrdered x (y ∷ ys) (a, o) = elim (Bool-cases (before x y)) [
      | inl t ↦ rw t ((t, All-before x y ys t a), (a, o))
      | inr t ↦ rw t (All-insert_by y x ys (total x y t) a, insert_by-IsOrdered x ys o)
    ]

    -- A sort by a total and transitive test is ordered by it.
    pub order_by-IsOrdered : (xs : List A) → IsOrdered (order_by before xs)
    unfolding order_by
    order_by-IsOrdered [] = tt
    order_by-IsOrdered (x ∷ xs) = insert_by-IsOrdered x (order_by before xs) (order_by-IsOrdered xs)

-- What holds of every row holds of the sorted and of the first ones.
module _ {A : Type 0} (P : A → Type 0) where
  All-insert :
      (before : A → A → Bool) (x : A) (ys : List A) → P x → All P ys → All P (insert_by before x ys)
  unfolding insert_by
  All-insert before x [] p a = (p, tt)
  All-insert before x (y ∷ ys) p (q, a) = elim (Bool-cases (before x y)) [
    | inl t ↦ rw t (p, (q, a))
    | inr t ↦ rw t (q, All-insert before x ys p a)
  ]

  pub All-order_by : (before : A → A → Bool) (xs : List A) → All P xs → All P (order_by before xs)
  unfolding order_by
  All-order_by before [] a = tt
  All-order_by before (x ∷ xs) (p, a) =
      All-insert before x (order_by before xs) p (All-order_by before xs a)

  pub All-take : (n : ℕ) (xs : List A) → All P xs → All P (take n xs)
  All-take zero xs a = tt
  All-take (suc n) [] a = tt
  All-take (suc n) (x ∷ xs) (p, a) = (p, All-take n xs a)

pub take-IsOrdered :
    {A : Type 0} (before : A → A → Bool) (n : ℕ) (xs : List A)
    → IsOrdered before xs
    → IsOrdered before (take n xs)
take-IsOrdered before zero xs o = tt
take-IsOrdered before (suc n) [] o = tt
take-IsOrdered before (suc n) (x ∷ xs) (a, o) =
    (All-take (λ y. before x y ≡ true) n xs a, take-IsOrdered before n xs o)

module _ {A : Type 0} (before : A → A → Bool) where
  All-drop : (P : A → Type 0) (n : ℕ) (xs : List A) → All P xs → All P (drop n xs)
  All-drop P zero xs a = a
  All-drop P (suc n) [] a = tt
  All-drop P (suc n) (x ∷ xs) (p, a) = All-drop P n xs a

  -- The first rows of a sorted list stand before all others.
  pub take_before_drop :
      (n : ℕ) (xs : List A)
      → IsOrdered before xs
      → All (λ a. All (λ b. before a b ≡ true) (drop n xs)) (take n xs)
  take_before_drop zero xs o = tt
  take_before_drop (suc n) [] o = tt
  take_before_drop (suc n) (x ∷ xs) (a, o) =
      (All-drop (λ y. before x y ≡ true) n xs a, take_before_drop n xs o)

pub take-drop : {A : Type 0} (n : ℕ) (xs : List A) → take n xs ++ drop n xs ≡ xs
take-drop zero xs = refl
take-drop (suc n) [] = refl
take-drop (suc n) (x ∷ xs) = ap (λ ys. x ∷ ys) (take-drop n xs)
