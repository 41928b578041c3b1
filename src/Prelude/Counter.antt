-- ===== src/Prelude/Counter.antt =====
-- Python's `Counter` of texts: the counts in the order of the first occurrences.
use Prim.Native.Nat.{ℕ, suc, ◌+◌}
use Prim.Native.String.{String}
use mathlib.Core.Path.{◌≡◌, refl, sym, ◌∙◌}
use mathlib.Core.Logic.{inl, inr}
use mathlib.Core.Bool.{Bool, true, false}
use mathlib.Core.List.{List, [], ◌∷◌}
use native.Mathlib.Omega.{arith}
use recruit_me.Prelude.Tests.{if◌then◌else◌, Bool-cases, leb}
use recruit_me.Prelude.Lists.{take, All, All-imp}
use recruit_me.Prelude.Sorting.{
  order_by, IsOrdered, order_by-IsOrdered, All-order_by, All-take, take-IsOrdered,
}
use recruit_me.Prelude.Text.{str_eq, eq_iff, eq_refl}

abbrev pub Tally : Type 0
Tally = List (String × ℕ)

-- `counter[text] += 1`
unfoldable pub count_one : String → Tally → Tally
count_one text [] = (text, 1) ∷ []
count_one text ((s, n) ∷ rest) =
    if str_eq s text then (s, suc n) ∷ rest else (s, n) ∷ count_one text rest

-- `counter.update(texts)`
unfoldable pub count_all : List String → Tally → Tally
count_all [] counter = counter
count_all (s ∷ ss) counter = count_all ss (count_one s counter)

-- `counter[text]`
unfoldable pub count_of : String → Tally → ℕ
count_of text [] = 0
count_of text ((s, n) ∷ rest) = if str_eq s text then n else count_of text rest

abbrev pub more_common : String × ℕ → String × ℕ → Bool
more_common a b = leb b.1 a.1

-- `counter.most_common(n)`
unfoldable pub most_common : ℕ → Tally → Tally
most_common n counter = take n (order_by more_common counter)

-- `texts.count(text)`
unfoldable pub occurrences : String → List String → ℕ
occurrences text [] = 0
occurrences text (s ∷ ss) =
    let rest = occurrences text ss in if str_eq s text then suc rest else rest

pub str_eq_sym : (s t : String) → str_eq t s ≡ false → str_eq s t ≡ false
str_eq_sym s t h = elim (Bool-cases (str_eq s t)) [
  | inl u ↦
      let same : s ≡ t = (eq_iff s t).0 u in absurd (true-ne-false (sym (eq_refl t) ∙ rw same at h))
  | inr u ↦ u
]
  where
    true-ne-false : ◌≡◌ {A = Bool} true false → ⊥
    true-ne-false e = cc

count_of-count_one :
    (text s : String) (counter : Tally)
    → count_of text (count_one s counter)
      ≡ (if str_eq s text then suc (count_of text counter) else count_of text counter)
unfolding count_of count_one
count_of-count_one text s [] = refl
count_of-count_one text s ((t, n) ∷ rest) = elim (Bool-cases (str_eq t s)) [
  | inl u ↦
      let same : t ≡ s = (eq_iff t s).0 u in
      rw (u, ← same) (elim (Bool-cases (str_eq t text)) [ inl v ↦ rw v refl | inr v ↦ rw v refl ])
  | inr u ↦ elim (Bool-cases (str_eq t text)) [
    | inl v ↦
        let same : t ≡ text = (eq_iff t text).0 v in
        rw (u, v, str_eq_sym s text (rw same at u)) refl
    | inr v ↦ rw (u, v) (count_of-count_one text s rest)
  ]
]

count_of-count_all-start :
    (text : String) (texts : List String) (counter : Tally)
    → count_of text (count_all texts counter) ≡ count_of text counter + occurrences text texts
unfolding count_all occurrences
count_of-count_all-start text [] counter = omega arith
count_of-count_all-start text (s ∷ ss) counter =
    let rest = count_of-count_all-start text ss (count_one s counter) in
    let one = count_of-count_one text s counter in
    elim (Bool-cases (str_eq s text)) [
      | inl u ↦
          let one' : count_of text (count_one s counter) ≡ suc (count_of text counter) =
            rw u at one in
          rw (u, rest, one') (omega arith)
      | inr u ↦
          let one' : count_of text (count_one s counter) ≡ count_of text counter = rw u at one in
          rw (u, rest, one') refl
    ]

-- A counter holds the number of occurrences of each text.
pub count_of-count_all :
    (text : String) (texts : List String)
    → count_of text (count_all texts []) ≡ occurrences text texts
unfolding count_of
count_of-count_all text texts = count_of-count_all-start text texts [] ∙ omega arith

-- No text has two entries.
abbrev IsSimple : Tally → Type 0
IsSimple [] = Unit
IsSimple ((s, n) ∷ rest) = All (λ e. str_eq s e.0 ≡ false) rest × IsSimple rest

All-count_one :
    (s text : String) (counter : Tally)
    → str_eq s text ≡ false
    → All (λ e. str_eq s e.0 ≡ false) counter
    → All (λ e. str_eq s e.0 ≡ false) (count_one text counter)
unfolding count_one
All-count_one s text [] h a = (h, tt)
All-count_one s text ((t, n) ∷ rest) h (b, a) = elim (Bool-cases (str_eq t text)) [
  | inl u ↦ rw u (b, a)
  | inr u ↦ rw u (b, All-count_one s text rest h a)
]

count_one-IsSimple :
    (text : String) (counter : Tally) → IsSimple counter → IsSimple (count_one text counter)
unfolding count_one
count_one-IsSimple text [] h = (tt, tt)
count_one-IsSimple text ((s, n) ∷ rest) (a, h) = elim (Bool-cases (str_eq s text)) [
  | inl u ↦ rw u (a, h)
  | inr u ↦ rw u (All-count_one s text rest u a, count_one-IsSimple text rest h)
]

count_all-IsSimple :
    (texts : List String) (counter : Tally) → IsSimple counter → IsSimple (count_all texts counter)
unfolding count_all
count_all-IsSimple [] counter h = h
count_all-IsSimple (s ∷ ss) counter h =
    count_all-IsSimple ss (count_one s counter) (count_one-IsSimple s counter h)

All-count_of : (counter : Tally) → IsSimple counter → All (λ e. count_of e.0 counter ≡ e.1) counter
unfolding count_of
All-count_of [] h = tt
All-count_of ((s, n) ∷ rest) (a, h) =
    (rw (eq_refl s) refl, later s n rest rest a (All-count_of rest h))
  where
    later :
        (s : String) (n : ℕ) (full some_of : Tally)
        → All (λ e. str_eq s e.0 ≡ false) some_of
        → All (λ e. count_of e.0 full ≡ e.1) some_of
        → All (λ e. count_of e.0 ((s, n) ∷ full) ≡ e.1) some_of
    later s n full [] a b = tt
    later s n full (e ∷ es) (x, a) (y, b) = (rw x y, later s n full es a b)

more_common_total : (a b : String × ℕ) → more_common a b ≡ false → more_common b a ≡ true
more_common_total (s, m) (t, n) h = ground arith

more_common_trans :
    (a b c : String × ℕ) → more_common a b ≡ true → more_common b c ≡ true → more_common a c ≡ true
more_common_trans (s, m) (t, n) (u, k) h i = ground arith

-- Each entry of the most common ones has the number of its occurrences, and none stands before one
-- that occurs more often.
pub most_common_exact :
    (n : ℕ) (texts : List String)
    → let entries = most_common n (count_all texts []) in
      All (λ e. e.1 ≡ occurrences e.0 texts) entries × IsOrdered more_common entries
unfolding most_common
most_common_exact n texts =
    let counter = count_all texts [] in
    let counts =
      All-imp (λ e. count_of e.0 counter ≡ e.1) (λ e. e.1 ≡ occurrences e.0 texts) counter
        (λ e h. sym h ∙ count_of-count_all e.0 texts)
        (All-count_of counter (count_all-IsSimple texts [] tt)) in
    (
      All-take (λ e. e.1 ≡ occurrences e.0 texts) n (order_by more_common counter)
          (All-order_by (λ e. e.1 ≡ occurrences e.0 texts) more_common counter counts),
      take-IsOrdered more_common n (order_by more_common counter)
          (order_by-IsOrdered more_common more_common_total more_common_trans counter),
    )
