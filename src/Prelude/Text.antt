-- ===== src/Prelude/Text.antt =====
-- Text: equality of strings as a test, and prefixes counted in characters.
use Prim.Native.Nat.{ℕ, zero, suc}
use mathlib.Core.List.{List, [], ◌∷◌}
use recruit_me.Prelude.Tests.{if◌then◌else◌}
use mathlib.Core.Bool.{Bool, true, false, ◌&&◌, ◌||◌}
use Prim.Native.String
use Prim.Native.String.{String}
pub use text.Mathlib.Text.{◌==◌ as str_eq}
use text.Mathlib.Text.{◌==◌}
pub use text.Mathlib.TextEquality.{eq_iff}
pub use text.Mathlib.TextPositions.{eq_refl}

-- Python's `s[:n]`
abbrev pub prefix : ℕ → String → String
prefix zero s = ""
prefix (suc n) String.[] = ""
prefix (suc n) (String.◌∷◌ c s) = String.◌∷◌ c (prefix n s)

-- Python's `needle in s`
abbrev pub has_prefix : String → String → Bool
has_prefix String.[] s = true
has_prefix (String.◌∷◌ c needle) String.[] = false
has_prefix (String.◌∷◌ c needle) (String.◌∷◌ d s) =
    (String.◌∷◌ c String.[] == String.◌∷◌ d String.[]) && has_prefix needle s

abbrev pub contains : String → String → Bool
contains needle String.[] = needle == ""
contains needle (String.◌∷◌ c s) = has_prefix needle (String.◌∷◌ c s) || contains needle s

-- `sep.join(texts)`
abbrev pub join : String → List String → String
join sep [] = ""
join sep (s ∷ []) = s
join sep (s ∷ t ∷ ts) = String.◌++◌ s (String.◌++◌ sep (join sep (t ∷ ts)))

abbrev blank : String → Bool
blank c = (c == " ") || (c == "\n") || (c == "\t") || (c == "\r")

abbrev lstrip : String → String
lstrip String.[] = ""
lstrip (String.◌∷◌ c s) = if blank (String.◌∷◌ c String.[]) then lstrip s else String.◌∷◌ c s

abbrev rstrip : String → String
rstrip String.[] = ""
rstrip (String.◌∷◌ c s) =
    let rest = rstrip s in
    if blank (String.◌∷◌ c String.[]) && (rest == "") then "" else String.◌∷◌ c rest

-- `text.strip()`, of ASCII white space
unfoldable pub strip : String → String
strip s = rstrip (lstrip s)

abbrev put_first : String → List String → List String
put_first c [] = c ∷ []
put_first c (s ∷ ts) = String.◌++◌ c s ∷ ts

-- `text.split(sep)`, of a separator of one character
unfoldable pub split : String → String → List String
split sep String.[] = "" ∷ []
split sep (String.◌∷◌ c s) =
    let rest = split sep s in
    if String.◌∷◌ c String.[] == sep then "" ∷ rest else put_first (String.◌∷◌ c String.[]) rest

-- `text.partition(sep)`, without the separator
unfoldable pub partition : String → String → String × String
partition sep String.[] = ("", "")
partition sep (String.◌∷◌ c s) =
    let rest = partition sep s in
    if String.◌∷◌ c String.[] == sep then ("", s) else (String.◌∷◌ c rest.0, rest.1)

-- The number of characters.
abbrev pub size : String → ℕ
size String.[] = 0
size (String.◌∷◌ c s) = suc (size s)

abbrev nonempty : List String → List String
nonempty [] = []
nonempty (s ∷ ss) = if s == "" then nonempty ss else s ∷ nonempty ss

abbrev pieces : String → List String
pieces String.[] = "" ∷ []
pieces (String.◌∷◌ c s) =
    let rest = pieces s in
    if blank (String.◌∷◌ c String.[]) then "" ∷ rest else put_first (String.◌∷◌ c String.[]) rest

-- `text.split()`, at ASCII white space
unfoldable pub words : String → List String
words s = nonempty (pieces s)
