-- ===== src/Prelude/Keys.antt =====
-- Tables with a primary key, and the rows that a change of one row leaves.
use Prim.Native.Nat.{ℕ}
use mathlib.Core.Path.{◌≡◌, refl, ap}
use mathlib.Core.Logic.{inl, inr}
use mathlib.Core.Bool.{Bool, true, false}
use mathlib.Core.Option.{some}
use mathlib.Core.List.{List, [], ◌∷◌}
use native.Mathlib.Omega.{arith}
use recruit_me.Prelude.Tests.{Bool-cases, ◌==◌, some_inj}
use recruit_me.Prelude.Tables.{find, exists, select, update_where, delete_where, find_holds}

module _ {A : Type 0} (key : A → ℕ) where
  -- No two rows have the same key.
  abbrev pub IsKeyed : List A → Type 0
  IsKeyed [] = Unit
  IsKeyed (x ∷ xs) = (exists (λ y. key y == key x) xs ≡ false) × IsKeyed xs

  absent_key :
      (id k : ℕ) (xs : List A)
      → (k == id) ≡ true
      → exists (λ y. key y == k) xs ≡ false
      → exists (λ y. key y == id) xs ≡ false
  absent_key id k xs e h = let same : k ≡ id = ground arith in rw (← same) h

update_where_absent :
    {A : Type 0} (q : A → Bool) (f : A → A) (xs : List A)
    → exists q xs ≡ false
    → update_where q f xs ≡ xs
unfolding exists update_where
update_where_absent q f [] h = refl
update_where_absent q f (x ∷ xs) h = elim (Bool-cases (q x)) [
  | inl t ↦ absurd (true-ne-false (rw t at h))
  | inr t ↦ rw t (ap (λ ys. x ∷ ys) (update_where_absent q f xs (rw t at h)))
]
  where
    true-ne-false : ◌≡◌ {A = Bool} true false → ⊥
    true-ne-false e = cc

delete_where_absent :
    {A : Type 0} (q : A → Bool) (xs : List A) → exists q xs ≡ false → delete_where q xs ≡ xs
unfolding exists delete_where
delete_where_absent q [] h = refl
delete_where_absent q (x ∷ xs) h = elim (Bool-cases (q x)) [
  | inl t ↦ absurd (true-ne-false (rw t at h))
  | inr t ↦ rw t (ap (λ ys. x ∷ ys) (delete_where_absent q xs (rw t at h)))
]
  where
    true-ne-false : ◌≡◌ {A = Bool} true false → ⊥
    true-ne-false e = cc

module _ {A : Type 0} (key : A → ℕ) (p : A → Bool) (id : ℕ) where
  -- An update of a row outside a selection leaves the selection.
  pub select-update_where :
      (f : A → A) (xs : List A) (m : A)
      → ((x : A) → p (f x) ≡ p x)
      → IsKeyed key xs
      → find (λ x. key x == id) xs ≡ some m
      → p m ≡ false
      → select p (update_where (λ x. key x == id) f xs) ≡ select p xs
  unfolding find select update_where
  select-update_where f [] m keep keyed found out = refl
  select-update_where f (x ∷ xs) m keep (fresh, keyed) found out = elim (Bool-cases (key x == id)) [
    | inl t ↦
        let same : x ≡ m = some_inj (rw t at found) in
        let hidden : p x ≡ false = rw same out in
        rw
          (
            t,
            keep x,
            hidden,
            update_where_absent (λ y. key y == id) f xs (absent_key key id (key x) xs t fresh),
          )
          refl
    | inr t ↦
        let rest = select-update_where f xs m keep keyed (rw t at found) out in rw (t, rest) refl
  ]

  pub select-delete_where :
      (xs : List A) (m : A)
      → IsKeyed key xs
      → find (λ x. key x == id) xs ≡ some m
      → p m ≡ false
      → select p (delete_where (λ x. key x == id) xs) ≡ select p xs
  unfolding find select delete_where
  select-delete_where [] m keyed found out = refl
  select-delete_where (x ∷ xs) m (fresh, keyed) found out = elim (Bool-cases (key x == id)) [
    | inl t ↦
        let same : x ≡ m = some_inj (rw t at found) in
        let hidden : p x ≡ false = rw same out in
        rw
          (
            t,
            hidden,
            delete_where_absent (λ y. key y == id) xs (absent_key key id (key x) xs t fresh),
          )
          refl
    | inr t ↦ let rest = select-delete_where xs m keyed (rw t at found) out in rw (t, rest) refl
  ]

module _ {A : Type 0} (key : A → ℕ) (id : ℕ) where
  -- A row that was found by its key has it.
  pub key_of_found : (xs : List A) (m : A) → find (λ x. key x == id) xs ≡ some m → key m ≡ id
  key_of_found xs m found = from_test (key m) (find_holds (λ x. key x == id) xs m found)
    where
      from_test : (k : ℕ) → (k == id) ≡ true → k ≡ id
      from_test k h = ground arith
