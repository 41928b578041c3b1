-- ===== src/Errors/Inversion.antt =====
-- What each step of a method that returned, or raised, has done.
use recruit_me.Prelude.{◌≡◌, refl, sym, ap, Bool, true, false, Option, none, some}
use recruit_me.Errors.{
  AppError, Result, ok, err, Exec, gets, or_raise, raise_if, modify, unless_taken, continue, ◌>>=◌,
  ◌>>◌,
}

pub ok-injective {ℓ} : {A : Type ℓ} {a b : A} → ok a ≡ ok b → a ≡ b
ok-injective e = cc

pub err-ne-ok {ℓ} :
    {A S : Type ℓ} {e : AppError} {a : A} {s s' : S}
    → ◌≡◌ {A = Result A × S} (err e, s) (ok a, s')
    → ⊥
err-ne-ok h = cc

module _ {S A B : Type 0} {w w' : S} {b : B} where
  pub bind-eq-ok :
      (m : Exec S A) (k : A → Exec S B)
      → (m >>= k) w ≡ (ok b, w')
      → (a : A) × (v : S) × (m w ≡ (ok a, v)) × (k a v ≡ (ok b, w'))
  unfolding ◌>>=◌
  bind-eq-ok m k h = go (m w) refl h
    where
      go :
          (z : Result A × S)
          → m w ≡ z
          → continue k z ≡ (ok b, w')
          → (a : A) × (v : S) × (m w ≡ (ok a, v)) × (k a v ≡ (ok b, w'))
      go (ok a, v) e h' = (a, v, e, h')
      go (err x, v) e h' = absurd (err-ne-ok h')

  pub or_raise-eq-ok :
      (o : Option A) (e : AppError) (k : A → Exec S B)
      → (or_raise o e >>= k) w ≡ (ok b, w')
      → (a : A) × (o ≡ some a) × (k a w ≡ (ok b, w'))
  unfolding ◌>>=◌
  or_raise-eq-ok none e k h = cc
  or_raise-eq-ok (some a) e k h = (a, refl, h)

module _ {S B : Type 0} {w w' : S} {b : B} where
  pub raise_if-eq-ok :
      (c : Bool) (e : AppError) (k : Exec S B)
      → (raise_if c e >> k) w ≡ (ok b, w')
      → (c ≡ false) × (k w ≡ (ok b, w'))
  unfolding ◌>>=◌
  raise_if-eq-ok true e k h = cc
  raise_if-eq-ok false e k h = (refl, h)

  pub modify-eq-ok :
      (f : S → S) (k : Exec S B) → (modify f >> k) w ≡ (ok b, w') → k (f w) ≡ (ok b, w')
  unfolding ◌>>=◌
  modify-eq-ok f k h = h

module _ {S A B : Type 0} {w w' : S} {r : Result B} where
  pub gets-eq : (f : S → A) (k : A → Exec S B) → (gets f >>= k) w ≡ (r, w') → k (f w) w ≡ (r, w')
  unfolding ◌>>=◌
  gets-eq f k h = h

pub unless_taken-eq-ok :
    {S : Type 0} (taken : Bool) (added w w' : S) {u : Unit}
    → unless_taken taken added w ≡ (ok u, w')
    → (taken ≡ false) × (w' ≡ added)
unfolding unless_taken
unless_taken-eq-ok true added w w' h = absurd (err-ne-ok h)
unless_taken-eq-ok false added w w' h = (refl, sym (ap (λ z. z.1) h))

pub or_raise_last :
    {S A : Type 0} {w w' : S} {a : A} (o : Option A) (e : AppError)
    → or_raise o e w ≡ (ok a, w')
    → (o ≡ some a) × (w' ≡ w)
or_raise_last none e h = absurd (err-ne-ok h)
or_raise_last (some b) e h = (ap some (ok-injective (ap (λ z. z.0) h)), sym (ap (λ z. z.1) h))

-- The same steps forwards.
module _ {S A B : Type 0} {w v : S} where
  pub bind-ok : (m : Exec S A) (k : A → Exec S B) (a : A) → m w ≡ (ok a, v) → (m >>= k) w ≡ k a v
  unfolding ◌>>=◌
  bind-ok m k a e = ap (continue k) e

  pub bind-err :
      (m : Exec S A) (k : A → Exec S B) (x : AppError) → m w ≡ (err x, v) → (m >>= k) w ≡ (err x, v)
  unfolding ◌>>=◌
  bind-err m k x e = ap (continue k) e

module _ {S A B : Type 0} {w : S} where
  pub gets-bind : (f : S → A) (k : A → Exec S B) → (gets f >>= k) w ≡ k (f w) w
  unfolding ◌>>=◌
  gets-bind f k = refl

  pub or_raise-some :
      (o : Option A) (e : AppError) (k : A → Exec S B) (a : A)
      → o ≡ some a
      → (or_raise o e >>= k) w ≡ k a w
  unfolding ◌>>=◌
  or_raise-some o e k a h = rw h refl

  pub or_raise-none :
      (o : Option A) (e : AppError) (k : A → Exec S B)
      → o ≡ none
      → (or_raise o e >>= k) w ≡ (err e, w)
  unfolding ◌>>=◌
  or_raise-none o e k h = rw h refl

module _ {S B : Type 0} {w : S} where
  pub raise_if-false :
      (c : Bool) (e : AppError) (k : Exec S B) → c ≡ false → (raise_if c e >> k) w ≡ k w
  unfolding ◌>>=◌
  raise_if-false c e k h = rw h refl

  pub raise_if-true :
      (c : Bool) (e : AppError) (k : Exec S B) → c ≡ true → (raise_if c e >> k) w ≡ (err e, w)
  unfolding ◌>>=◌
  raise_if-true c e k h = rw h refl

pub unless_taken-false :
    {S : Type 0} (taken : Bool) (added w : S)
    → taken ≡ false
    → unless_taken taken added w ≡ (ok tt, added)
unfolding unless_taken
unless_taken-false taken added w h = rw h refl
