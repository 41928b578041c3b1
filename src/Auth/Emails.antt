-- ===== src/Auth/Emails.antt =====
-- Accounts have different ids and different addresses: the unique columns of models/user.py.
use recruit_me.Prelude.{
  ℕ, ◌≡◌, refl, String, Bool, true, false, ◌&&◌, not, List, [], ◌∷◌, ◌++◌, ◌==◌, All, All-imp,
  All-append, All-update_where, All-delete_where_kept, exists, update_where, delete_where,
  change_if, str_eq_sym, Bool-cases, inl, inr, arith, if◌then◌else◌,
}
use recruit_me.Auth.State.{User, World, Platform, same_email}

split_exists : (b c : Bool) → (if b then true else c) ≡ false → (b ≡ false) × (c ≡ false)
split_exists true c h = cc
split_exists false c h = (refl, h)

==-false_sym : (m n : ℕ) → (m == n) ≡ false → (n == m) ≡ false
==-false_sym m n h = ground arith

module _ (pf : Platform) where
  abbrev pub Differs : User → User → Type 0
  Differs u v = ((v.id == u.id) ≡ false) × (same_email pf v.email u.email ≡ false)

  abbrev pub IsDistinct : List User → Type 0
  IsDistinct [] = Unit
  IsDistinct (u ∷ us) = All (Differs u) us × IsDistinct us

  abbrev pub HasDistinctUsers : World → Type 0
  HasDistinctUsers w = IsDistinct w.db.users

  pub IsDistinct-append :
      (us : List User) (u : User)
      → exists (λ v. v.id == u.id) us ≡ false
      → exists (λ v. same_email pf v.email u.email) us ≡ false
      → IsDistinct us
      → IsDistinct (us ++ u ∷ [])
  unfolding exists
  IsDistinct-append [] u h k d = (tt, tt)
  IsDistinct-append (x ∷ us) u h k (a, d) =
      let (id_ne, h') = split_exists (x.id == u.id) _ h in
      let (email_ne, k') = split_exists (same_email pf x.email u.email) _ k in
      (
        All-append (Differs x) us (u ∷ []) a
            ((==-false_sym x.id u.id id_ne, str_eq_sym _ _ email_ne), tt),
        IsDistinct-append us u h' k' d,
      )

  -- A write that leaves the ids and the addresses.
  pub IsDistinct-update_where :
      (p : User → Bool) (f : User → User) (us : List User)
      → ((u : User) → ((f u).id ≡ u.id) × ((f u).email ≡ u.email))
      → IsDistinct us
      → IsDistinct (update_where p f us)
  unfolding update_where
  IsDistinct-update_where p f [] h d = tt
  IsDistinct-update_where p f (u ∷ us) h (a, d) =
      let (id_same, email_same) = changed u in
      (
        All-imp (Differs u) (Differs (change_if p f u)) (update_where p f us)
            (λ v e. rw (id_same, email_same) e)
            (All-update_where (Differs u) p f us (λ v t e. let (i, m) = h v in rw (i, m) e) a),
        IsDistinct-update_where p f us h d,
      )
    where
      changed : (v : User) → ((change_if p f v).id ≡ v.id) × ((change_if p f v).email ≡ v.email)
      changed v = elim (Bool-cases (p v)) [ inl t ↦ rw t (h v) | inr t ↦ rw t (refl, refl) ]

  pub IsDistinct-delete_where :
      (p : User → Bool) (us : List User) → IsDistinct us → IsDistinct (delete_where p us)
  unfolding delete_where
  IsDistinct-delete_where p [] d = tt
  IsDistinct-delete_where p (u ∷ us) (a, d) = elim (Bool-cases (p u)) [
    | inl t ↦ rw t (IsDistinct-delete_where p us d)
    | inr t ↦ rw t (All-delete_where_kept (Differs u) p us a, IsDistinct-delete_where p us d)
  ]

  -- Writing an address that no other account holds to the account with an id.
  pub IsDistinct-set_email :
      (id : ℕ) (email : String) (us : List User)
      → exists (λ u. not (u.id == id) && same_email pf u.email email) us ≡ false
      → IsDistinct us
      → IsDistinct (update_where (λ u. u.id == id) (λ u. record u { email = email }) us)
  unfolding update_where exists
  IsDistinct-set_email id email [] h d = tt
  IsDistinct-set_email id email (u ∷ us) h (a, d) =
      let (here, later) = split_exists (not (u.id == id) && same_email pf u.email email) _ h in
      let rest = IsDistinct-set_email id email us later d in
      elim (Bool-cases (u.id == id)) [
        | inl t ↦ let same : id ≡ u.id = ground arith in rw t (moved u us same later a, rest)
        | inr t ↦ rw t (kept u us (rw t at here) later a, rest)
      ]
    where
      moved :
          (u : User) (us : List User)
          → id ≡ u.id
          → exists (λ v. not (v.id == id) && same_email pf v.email email) us ≡ false
          → All (Differs u) us
          → All
              (Differs (record u { email = email }))
              (update_where (λ v. v.id == id) (λ v. record v { email = email }) us)
      moved u [] s h a = tt
      moved u (v ∷ us) s h ((i, m), a) =
          let (here, later) = split_exists (not (v.id == id) && same_email pf v.email email) _ h in
          let other : (v.id == id) ≡ false = rw s i in
          rw other ((i, rw other at here), moved u us s later a)

      kept :
          (u : User) (us : List User)
          → same_email pf u.email email ≡ false
          → exists (λ v. not (v.id == id) && same_email pf v.email email) us ≡ false
          → All (Differs u) us
          → All (Differs u) (update_where (λ v. v.id == id) (λ v. record v { email = email }) us)
      kept u [] n h a = tt
      kept u (v ∷ us) n h ((i, m), a) =
          let (_, later) = split_exists (not (v.id == id) && same_email pf v.email email) _ h in
          elim (Bool-cases (v.id == id)) [
            | inl t ↦ rw t ((i, str_eq_sym _ _ n), kept u us n later a)
            | inr t ↦ rw t ((i, m), kept u us n later a)
          ]
