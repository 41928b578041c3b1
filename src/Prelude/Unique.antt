-- ===== src/Prelude/Unique.antt =====
-- Two ordered lists of the same rows, where no two rows tie, are one list.
use mathlib.Core.Path.{◌≡◌, sym, ap, ◌∙◌, subst}
use mathlib.Core.Logic.{∥∥₁_elim}
use mathlib.Core.Bool.{Bool, true}
use mathlib.Core.List.{List, [], ◌∷◌, Perm, Mem, Memᴰ, mem-cons_self, mem-cons_of_mem}
use mathlib.Core.List.Perm
use mathlib.Core.List.Memᴰ
use recruit_me.Prelude.Lists.{All}
use recruit_me.Prelude.Sorting.{IsOrdered}

pub All-of_mem : {A : Type 0} (P : A → Type 0) (x : A) (xs : List A) → All P xs → Memᴰ x xs → P x
All-of_mem P x [] a m = absurd (Memᴰ.not-nil m)
All-of_mem P x (y ∷ ys) (p, a) (Memᴰ.head e) = subst P (sym e) p
All-of_mem P x (y ∷ ys) (p, a) (Memᴰ.tail m) = All-of_mem P x ys a m

is_true_prop : (b : Bool) → IsProp (b ≡ true)
is_true_prop b = hlevel

module _ {A : Type 0} (before : A → A → Bool) (reflexive : (x : A) → before x x ≡ true) where
  -- No two rows of the list stand on either side of each other.
  abbrev pub HasNoTies : List A → Type 0
  HasNoTies xs = (x y : A) → Mem x xs → Mem y xs → before x y ≡ true → before y x ≡ true → x ≡ y

  first_before :
      (x y : A) (ys : List A) → All (λ z. before y z ≡ true) ys → Mem x (y ∷ ys) → before y x ≡ true
  first_before x y ys all m =
      ∥∥₁_elim m (is_true_prop (before y x))
        (All-of_mem (λ z. before y z ≡ true) x (y ∷ ys) (reflexive y, all))

  pub ordered_unique :
      (xs ys : List A)
      → Perm xs ys
      → HasNoTies xs
      → IsOrdered before xs
      → IsOrdered before ys
      → xs ≡ ys
  ordered_unique [] ys p untied o o' = Perm.nil-eq p
  ordered_unique (x ∷ xs) [] p untied o o' = Perm.eq-nil p
  ordered_unique (x ∷ xs) (y ∷ ys) p untied (first, o) (first', o') =
      let y_in : Mem y (x ∷ xs) = (Perm.mem_iff p).1 mem-cons_self in
      let x_in : Mem x (y ∷ ys) = (Perm.mem_iff p).0 mem-cons_self in
      let same : y ≡ x =
        untied y x y_in mem-cons_self (first_before x y ys first' x_in)
          (first_before y x xs first y_in) in
      ap (λ z. z ∷ xs) (sym same)
      ∙ ap (λ l. y ∷ l)
          (ordered_unique xs ys (Perm.cons_inv (subst (λ z. Perm (z ∷ xs) (y ∷ ys)) (sym same) p))
            (λ a b in_a in_b. untied a b (mem-cons_of_mem x in_a) (mem-cons_of_mem x in_b)) o o')
