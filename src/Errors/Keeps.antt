-- ===== src/Errors/Keeps.antt =====
-- What an action keeps true of its state, whether it answers or raises.
use recruit_me.Prelude.{Bool, true, false, Option, none, some}
use recruit_me.Errors.{
  AppError, Result, ok, err, Exec, gets, or_raise, raise_if, unless_taken, continue, ◌>>=◌, ◌>>◌,
}

module _ {S : Type 0} (P : S → Type 0) where
  abbrev pub Keeps : {A : Type 0} → Exec S A → Type 0
  Keeps m = (s : S) → P s → P (m s).1

  pub Keeps-bind :
      {A B : Type 0} (m : Exec S A) (k : A → Exec S B)
      → Keeps m
      → ((a : A) → Keeps (k a))
      → Keeps (m >>= k)
  unfolding ◌>>=◌
  Keeps-bind {A} {B} m k h h' s p = go (m s) (h s p)
    where
      go : (z : Result A × S) → P z.1 → P (continue k z).1
      go (ok a, v) q = h' a v q
      go (err e, v) q = q

  pub Keeps-or_raise : {A : Type 0} (o : Option A) (e : AppError) → Keeps (or_raise o e)
  Keeps-or_raise none e s p = p
  Keeps-or_raise (some a) e s p = p

  pub Keeps-raise_if : (c : Bool) (e : AppError) → Keeps (raise_if c e)
  Keeps-raise_if true e s p = p
  Keeps-raise_if false e s p = p

  pub keeps_unless_taken :
      (taken : Bool) (added s : S) → P s → P added → P (unless_taken taken added s).1
  unfolding unless_taken
  keeps_unless_taken true added s p q = p
  keeps_unless_taken false added s p q = q

  pub keeps_gets_at :
      {A B : Type 0} (f : S → A) (k : A → Exec S B) (s : S)
      → P (k (f s) s).1
      → P ((gets f >>= k) s).1
  unfolding ◌>>=◌
  keeps_gets_at f k s h = h

  pub keeps_raise_if_at :
      {B : Type 0} (c : Bool) (e : AppError) (k : Exec S B) (s : S)
      → P s
      → P (k s).1
      → P ((raise_if c e >> k) s).1
  unfolding ◌>>=◌
  keeps_raise_if_at true e k s p h = p
  keeps_raise_if_at false e k s p h = h
