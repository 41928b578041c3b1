-- ===== src/Credentials/Samples.antt =====
-- An envelope for tests. It writes a dash before each character of a text and a dot after it, and uses
-- the key's version as a count.
use recruit_me.Prelude.{
  ℕ, zero, suc, ◌≡◌, refl, String, Option, none, some, [], ◌∷◌, length, str_eq, if◌then◌else◌,
}
use recruit_me.Credentials.{Envelope, Secret}

abbrev pub write_text : String → String → String
write_text String.[] rest = String.◌∷◌ "." rest
write_text (String.◌∷◌ c s) rest = String.◌∷◌ "-" (String.◌∷◌ c (write_text s rest))

abbrev pub read_text : String → Option (String × String)
read_text String.[] = none
read_text (String.◌∷◌ c String.[]) = some ("", "")
read_text (String.◌∷◌ c (String.◌∷◌ d s)) =
    if str_eq (String.◌∷◌ c String.[]) "."
    then some ("", String.◌∷◌ d s)
    else (elim (read_text s) [ none ↦ none | some (t, rest) ↦ some (String.◌∷◌ d t, rest) ])

pub read_text-write_text : (s rest : String) → read_text (write_text s rest) ≡ some (s, rest)
read_text-write_text String.[] String.[] = refl
read_text-write_text String.[] (String.◌∷◌ d rest) = refl
read_text-write_text (String.◌∷◌ c s) rest = rw (read_text-write_text s rest) refl

abbrev pub write_pairs : Secret → String
write_pairs [] = ""
write_pairs ((k, v) ∷ rest) = write_text k (write_text v (write_pairs rest))

abbrev pub with_value : (String → Option Secret) → String → Option (String × String) → Option Secret
with_value read k none = none
with_value read k (some (v, rest)) = elim (read rest) [ none ↦ none | some s ↦ some ((k, v) ∷ s) ]

abbrev pub with_key : (String → Option Secret) → Option (String × String) → Option Secret
with_key read none = none
with_key read (some (k, rest)) = with_value read k (read_text rest)

abbrev pub read_pairs : ℕ → String → Option Secret
read_pairs zero text = some []
read_pairs (suc n) text = with_key (read_pairs n) (read_text text)

pub read_pairs-write_pairs : (s : Secret) → read_pairs (length s) (write_pairs s) ≡ some s
read_pairs-write_pairs [] = refl
read_pairs-write_pairs ((k, v) ∷ rest) =
    rw
      (
        read_text-write_text k (write_text v (write_pairs rest)),
        read_text-write_text v (write_pairs rest),
        read_pairs-write_pairs rest,
      )
      refl

abbrev pub small_envelope : Envelope
small_envelope = record {
  seal = λ salt s. (write_pairs s, ("", length s));
  open_sealed = λ text nonce count. read_pairs count text;
  open-seal = λ salt s. read_pairs-write_pairs s;
}
