-- ===== src/Security/Base64.antt =====
-- `base64.RawStdEncoding` and `base64.RawURLEncoding` of Go's library, which password.go and
-- token.go call: no padding, trailing bits not checked, line breaks skipped when decoding.
pub mod Roundtrip
use gotra.Prelude.{
  ℕ, ◌+◌, ◌-◌, ◌*◌, ◌/◌, ◌%◌, Str, Bool, true, false, ◌||◌, ◌&&◌, Option, none, some, List, [], ◌∷◌,
  ltb, leb, ◌==◌, if◌then◌else◌, codes,
}

-- The two characters in which the alphabets differ.
pub record Alphabet : Type 0 where
  pub char_62 : ℕ
  pub char_63 : ℕ

abbrev pub std : Alphabet
std = record { char_62 = b'+'; char_63 = b'/' }

abbrev pub url : Alphabet
url = record { char_62 = b'-'; char_63 = b'_' }

-- The character of a six-bit value.
unfoldable pub symbol : Alphabet → ℕ → ℕ
symbol a v =
    if ltb v 26
    then b'A' + v
    else if ltb v 52
    then b'a' + (v - 26)
    else if ltb v 62
    then b'0' + (v - 52)
    else if v == 62
    then a.char_62
    else a.char_63

-- The value of a character, if it is in the alphabet.
unfoldable pub value : Alphabet → ℕ → Option ℕ
value a c =
    if leb b'A' c && leb c b'Z'
    then some (c - b'A')
    else if leb b'a' c && leb c b'z'
    then some (c - b'a' + 26)
    else if leb b'0' c && leb c b'9'
    then some (c - b'0' + 52)
    else if c == a.char_62
    then some 62
    else if c == a.char_63
    then some 63
    else none

-- EncodeToString
unfoldable pub encode : Alphabet → List ℕ → Str
encode a [] = []
encode a (x ∷ []) = symbol a (x / 4) ∷ symbol a (x % 4 * 16) ∷ []
encode a (x ∷ y ∷ []) =
    symbol a (x / 4) ∷ symbol a (x % 4 * 16 + y / 16) ∷ symbol a (y % 16 * 4) ∷ []
encode a (x ∷ y ∷ z ∷ rest) =
    symbol a (x / 4)
    ∷ symbol a (x % 4 * 16 + y / 16)
    ∷ symbol a (y % 16 * 4 + z / 64)
    ∷ symbol a (z % 64)
    ∷ encode a rest

-- The values of the characters, line breaks left out; `none` at a character outside the alphabet.
unfoldable pub values : Alphabet → Str → Option (List ℕ)
values a [] = some []
values a (c ∷ s) =
    let rest = values a s in
    if c == 10 || c == 13 then rest else elim (value a c) [
      | none ↦ none
      | some v ↦ elim rest [ none ↦ none | some vs ↦ some (v ∷ vs) ]
    ]

-- The bytes of groups of four values, the last group of two or three.
unfoldable pub bytes : List ℕ → Option (List ℕ)
bytes [] = some []
bytes (p ∷ []) = none
bytes (p ∷ q ∷ []) = some ((p * 4 + q / 16) ∷ [])
bytes (p ∷ q ∷ r ∷ []) = some ((p * 4 + q / 16) ∷ (q % 16 * 16 + r / 4) ∷ [])
bytes (p ∷ q ∷ r ∷ s ∷ rest) = elim (bytes rest) [
  | none ↦ none
  | some bs ↦ some ((p * 4 + q / 16) ∷ (q % 16 * 16 + r / 4) ∷ (r % 4 * 64 + s) ∷ bs)
]

-- DecodeString
unfoldable pub decode : Alphabet → Str → Option (List ℕ)
unfolding values bytes
decode a s = elim (values a s) [ none ↦ none | some vs ↦ bytes vs ]
