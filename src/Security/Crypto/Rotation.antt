-- ===== src/Security/Crypto/Rotation.antt =====
-- security/crypto.py when a key is added to the settings.
use Prim.Native.String
use recruit_me.Prelude.{
  ℕ, ◌≡◌, refl, sym, ◌∙◌, String, false, none, some, List, [], ◌∷◌, ◌++◌, ◌==◌, inl, inr,
  Bool-cases, str_eq, strip, split, partition, arith, some_inj,
}
use recruit_me.Security.Crypto.{
  KeySettings, Cipher, value, ◌>>=◌, Keys, set_key, key_at, MasterKey, decode_key, read_part,
  read_parts, read_keys, or_development, env_master_key, key, encrypt, decrypt,
}
use recruit_me.Security.Crypto.Laws.{
  value-injective, bind-eq-value, value_or-eq-value, IsFilled, env_master_key-eq, encrypt_succeeds,
}

set_key-IsFilled : (v : ℕ) (k : String) (keys : Keys) → IsFilled (set_key v k keys)
unfolding set_key IsFilled
set_key-IsFilled v k [] = tt
set_key-IsFilled v k ((w, l) ∷ keys) = elim (Bool-cases (w == v)) [
  | inl t ↦ rw t tt
  | inr t ↦ rw t tt
]

-- A new version leaves the keys of the others.
key_at-set_key :
    (v w : ℕ) (k l : String) (keys : Keys)
    → key_at v keys ≡ none
    → key_at w keys ≡ some l
    → key_at w (set_key v k keys) ≡ some l
unfolding key_at set_key
key_at-set_key v w k l [] e e' = cc
key_at-set_key v w k l ((u, m) ∷ keys) e e' = ground (arith, key_at-set_key v w k l keys)

read_part-eq :
    (c : Cipher) (part : String) (keys read : Keys)
    → read_part c part keys ≡ value read
    → (v : ℕ) × (k : String) × (c.int (partition ":" (strip part)).0 ≡ some v)
      × (decode_key c (partition ":" (strip part)).1 ≡ value k)
      × (read ≡ set_key v k keys)
read_part-eq c part keys read h =
    let (v, e, h') = bind-eq-value _ _ read h in
    let (k, e', h'') = bind-eq-value _ _ read h' in
    (v, k, value_or-eq-value _ _ v e, e', sym (value-injective h''))

read_parts-append :
    (c : Cipher) (parts more : List String) (keys read : Keys)
    → read_parts c (parts ++ more) keys ≡ value read
    → (first : Keys) × (read_parts c parts keys ≡ value first)
      × (read_parts c more first ≡ value read)
unfolding read_parts ◌>>=◌
read_parts-append c [] more keys read h = (keys, refl, h)
read_parts-append c (part ∷ parts) more keys read h =
    let (next, e, h') = bind-eq-value (read_part c part keys) _ read h in
    let (first, e', e'') = read_parts-append c parts more next read h' in (first, rw e e', e'')

read_parts-IsFilled :
    (c : Cipher) (part : String) (parts : List String) (keys read : Keys)
    → read_parts c (part ∷ parts) keys ≡ value read
    → IsFilled read
unfolding read_parts
read_parts-IsFilled c part [] keys read h =
    let (next, e, h') = bind-eq-value (read_part c part keys) _ read h in
    let (v, k, _, _, e') = read_part-eq c part keys next e in
    rw (← value-injective h', e') (set_key-IsFilled v k keys)
read_parts-IsFilled c part (other ∷ parts) keys read h =
    let (next, e, h') = bind-eq-value (read_part c part keys) _ read h in
    read_parts-IsFilled c other parts next read h'

split_nonempty : (sep s : String) → (t : String) × (ts : List String) × (split sep s ≡ t ∷ ts)
unfolding split
split_nonempty sep String.[] = ("", [], refl)
split_nonempty sep (String.◌∷◌ c s) =
    let (t, ts, e) = split_nonempty sep s in
    elim (Bool-cases (str_eq (String.◌∷◌ c String.[]) sep)) [
      | inl u ↦ ("", split sep s, rw u refl)
      | inr u ↦ (String.◌++◌ (String.◌∷◌ c String.[]) t, ts, rw (u, e) refl)
    ]

-- The keys of settings with a table are the table's.
keys_of_table :
    (c : Cipher) (s : KeySettings) (p : MasterKey)
    → str_eq (strip s.credential_master_keys) "" ≡ false
    → env_master_key c s ≡ value p
    → read_parts c (split "," (strip s.credential_master_keys)) [] ≡ value p.keys
unfolding read_keys IsFilled
keys_of_table c s p given h =
    let (read, e, e', _) = env_master_key-eq c s p h in
    let parts : read_parts c (split "," (strip s.credential_master_keys)) [] ≡ value read =
      rw given at e in
    let (t, ts, e'') = split_nonempty "," (strip s.credential_master_keys) in
    let filled = read_parts-IsFilled c t ts [] read (rw e'' at parts) in
    rw (same read filled e') parts
  where
    same : (read : Keys) → IsFilled read → or_development c s read ≡ value p.keys → p.keys ≡ read
    same [] f e = absurd f
    same (k ∷ read) f e = sym (value-injective e)

key_at_later :
    (v w : ℕ) (first old next new : Keys) (k l : String) (u : ℕ)
    → first ≡ old
    → next ≡ set_key w k first
    → next ≡ new
    → v ≡ w
    → key_at v old ≡ none
    → key_at u old ≡ some l
    → key_at u new ≡ some l
key_at_later v w first old next new k l u e e' e'' same fresh there =
    rw (← e'', e', e, ← same) (key_at-set_key v u k l old fresh there)

-- A text that was sealed under settings with a table of keys is opened under later settings, when
-- these have one part more at the end of the table, of a version that the table did not have, and
-- whatever version the later settings make the current one.
pub decrypt-encrypt :
    (c : Cipher) (old new : KeySettings) (p q : MasterKey) (part nonce plaintext : String) (v : ℕ)
    → env_master_key c old ≡ value p
    → env_master_key c new ≡ value q
    → str_eq (strip old.credential_master_keys) "" ≡ false
    → str_eq (strip new.credential_master_keys) "" ≡ false
    → split "," (strip new.credential_master_keys)
      ≡ split "," (strip old.credential_master_keys) ++ part ∷ []
    → c.int (partition ":" (strip part)).0 ≡ some v
    → key_at v p.keys ≡ none
    → (encrypt c p nonce plaintext >>= λ row. decrypt c q row.0 row.1.0 row.1.1) ≡ value plaintext
unfolding ◌>>=◌ decrypt key read_parts
decrypt-encrypt c old new p q part nonce plaintext v hp hq given given' parts is_v fresh =
    let read_old = keys_of_table c old p given hp in
    let read_new = keys_of_table c new q given' hq in
    let (first, e, e') =
      read_parts-append c (split "," (strip old.credential_master_keys)) (part ∷ []) [] q.keys
        (rw parts at read_new) in
    let same : first ≡ p.keys = value-injective (sym e ∙ read_old) in
    let (next, e'', last) = bind-eq-value (read_part c part first) _ q.keys e' in
    let (w, k, is_w, _, is_set) = read_part-eq c part first next e'' in
    let (l, at_p, sealed) = encrypt_succeeds c old p nonce plaintext hp in
    let at_q : key_at p.current_version q.keys ≡ some l =
      key_at_later v w first p.keys next q.keys k l p.current_version same is_set
        (value-injective last) (some_inj (sym is_v ∙ is_w)) fresh at_p in
    rw (sealed, at_q, c.open-seal l nonce plaintext) refl
