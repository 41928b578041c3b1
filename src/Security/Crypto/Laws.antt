-- ===== src/Security/Crypto/Laws.antt =====
-- The keys of security/crypto.py: what a table of keys holds, and how a rotation extends it.
use mathlib.Core.Path.{subst}
use recruit_me.Prelude.{
  ℕ, ◌≡◌, refl, sym, ap, String, true, Option, none, some, [], ◌∷◌, ◌==◌, if◌then◌else◌, leb, inl,
  inr, Bool-cases, exists, arith,
}
use recruit_me.Security.Crypto.{
  KeySettings, Cipher, Failure, Outcome, value, failure, ◌>>=◌, value_or, Keys, key_at, max_version,
  MasterKey, decode_key, read_keys, or_development, has_version, current_of, env_master_key, key,
  encrypt, decrypt, zero_key,
}

pub value-injective : {A : Type 0} {a b : A} → value a ≡ value b → a ≡ b
value-injective e = cc

failure-ne-value : {A : Type 0} {e : Failure} {a : A} → failure e ≡ value a → ⊥
failure-ne-value h = cc

pub bind-eq-value :
    {A B : Type 0} (m : Outcome A) (k : A → Outcome B) (b : B)
    → (m >>= k) ≡ value b
    → (a : A) × (m ≡ value a) × (k a ≡ value b)
unfolding ◌>>=◌
bind-eq-value (value a) k b h = (a, refl, h)
bind-eq-value (failure e) k b h = cc

pub value_or-eq-value :
    {A : Type 0} (o : Option A) (e : Failure) (a : A) → value_or o e ≡ value a → o ≡ some a
value_or-eq-value none e a h = cc
value_or-eq-value (some b) e a h = ap some (value-injective h)

-- A version that is in a table has a key there.
key_at-has_version :
    (v : ℕ) (keys : Keys) → has_version v keys ≡ true → (k : String) × (key_at v keys ≡ some k)
unfolding exists key_at
key_at-has_version v [] h = cc
key_at-has_version v ((w, k) ∷ keys) h = elim (Bool-cases (w == v)) [
  | inl t ↦ (k, rw t refl)
  | inr t ↦ let (l, e) = key_at-has_version v keys (rw t at h) in (l, rw t e)
]

key_at_cons :
    (u v : ℕ) (k m : String) (keys : Keys)
    → key_at u keys ≡ some m
    → (l : String) × (key_at u ((v, k) ∷ keys) ≡ some l)
unfolding key_at
key_at_cons u v k m keys e = elim (Bool-cases (v == u)) [
  | inl t ↦ (k, rw t refl)
  | inr t ↦ (m, rw t e)
]

key_at_second :
    (u v w : ℕ) (k l m : String) (keys : Keys)
    → key_at u ((v, k) ∷ keys) ≡ some m
    → (n : String) × (key_at u ((v, k) ∷ (w, l) ∷ keys) ≡ some n)
unfolding key_at
key_at_second u v w k l m keys e = elim (Bool-cases (v == u)) [
  | inl t ↦ (k, rw t refl)
  | inr t ↦ let (n, e') = key_at_cons u w l m keys (rw t at e) in (n, rw t e')
]

key_at-max_version :
    (v : ℕ) (k : String) (keys : Keys)
    → (l : String) × (key_at (max_version v keys) ((v, k) ∷ keys) ≡ some l)
unfolding key_at
key_at-max_version v k [] = (k, ground arith)
key_at-max_version v k ((w, l) ∷ keys) = elim (Bool-cases (leb v w)) [
  | inl t ↦
      let (m, e) = key_at-max_version w l keys in
      let step = ap (λ b. max_version (if b then w else v) keys) t in
      subst (λ u. (n : String) × (key_at u ((v, k) ∷ (w, l) ∷ keys) ≡ some n)) (sym step)
        (key_at_cons (max_version w keys) v k m ((w, l) ∷ keys) e)
  | inr t ↦
      let (m, e) = key_at-max_version v k keys in
      let step = ap (λ b. max_version (if b then w else v) keys) t in
      subst (λ u. (n : String) × (key_at u ((v, k) ∷ (w, l) ∷ keys) ≡ some n)) (sym step)
        (key_at_second (max_version v keys) v w k l m keys e)
]

unfoldable pub IsFilled : Keys → Type 0
IsFilled [] = ⊥
IsFilled (k ∷ keys) = Unit

key_at-current_of :
    (v : ℕ) (keys : Keys)
    → IsFilled keys
    → (k : String) × (key_at (current_of v keys) keys ≡ some k)
unfolding IsFilled
key_at-current_of v [] f = absurd f
key_at-current_of v ((w, k) ∷ keys) f = elim (Bool-cases (has_version v ((w, k) ∷ keys))) [
  | inl t ↦ rw t (key_at-has_version v ((w, k) ∷ keys) t)
  | inr t ↦ rw t (key_at-max_version w k keys)
]

or_development-IsFilled :
    (c : Cipher) (s : KeySettings) (read keys : Keys)
    → or_development c s read ≡ value keys
    → IsFilled keys
unfolding ◌>>=◌ IsFilled
or_development-IsFilled c s (k ∷ read) keys h = rw (← value-injective h) tt
or_development-IsFilled c s [] keys h = elim (Bool-cases s.is_prod) [
  | inl t ↦ absurd (failure-ne-value (rw t at h))
  | inr t ↦
      let (k, e, e') = bind-eq-value (decode_key c zero_key) _ keys (rw t at h) in
      rw (← value-injective e') tt
]

pub env_master_key-eq :
    (c : Cipher) (s : KeySettings) (p : MasterKey)
    → env_master_key c s ≡ value p
    → (read : Keys) × (read_keys c s ≡ value read)
      × (or_development c s read ≡ value p.keys)
      × (p.current_version ≡ current_of s.credential_key_version p.keys)
unfolding env_master_key
env_master_key-eq c s p h =
    let (read, e, h') = bind-eq-value (read_keys c s) _ p h in
    let (keys, e', h'') = bind-eq-value (or_development c s read) _ p h' in
    let at_keys = ap (λ q. q.keys) (value-injective h'') in
    let at_current = ap (λ q. q.current_version) (value-injective h'') in
    (read, e, rw (← at_keys) e', rw (← at_keys) (sym at_current))

-- When the settings give keys at all, they have one for the current version, whatever version the
-- settings name, so that a secret is always sealed, under that version.
pub encrypt_succeeds :
    (c : Cipher) (s : KeySettings) (p : MasterKey) (nonce plaintext : String)
    → env_master_key c s ≡ value p
    → (k : String) × (key_at p.current_version p.keys ≡ some k)
      × (encrypt c p nonce plaintext
          ≡ value (c.seal_bytes k nonce plaintext, (nonce, p.current_version)))
unfolding encrypt key ◌>>=◌
encrypt_succeeds c s p nonce plaintext h =
    let (read, e, e', e'') = env_master_key-eq c s p h in
    let (k, f) =
      key_at-current_of s.credential_key_version p.keys
        (or_development-IsFilled c s read p.keys e') in
    let f' : key_at p.current_version p.keys ≡ some k = rw e'' f in (k, f', rw f' refl)

pub decrypt_at :
    (c : Cipher) (p : MasterKey) (k nonce plaintext : String) (version : ℕ)
    → key_at version p.keys ≡ some k
    → decrypt c p (c.seal_bytes k nonce plaintext) nonce version ≡ value plaintext
unfolding decrypt key ◌>>=◌
decrypt_at c p k nonce plaintext version e = rw (e, c.open-seal k nonce plaintext) refl
