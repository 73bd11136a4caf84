-- ===== src/Security/Token/Labels.antt =====
-- What the labels cut from opaque tokens look like, and when two tokens have the same hash.
use gotra.Prelude.{
  ℕ, ◌+◌, ◌*◌, ◌/◌, ◌%◌, ◌<◌, ◌≡◌, refl, ap, Str, Bool, true, List, [], ◌∷◌, All, all, arith,
  to_lower, ◌||◌, ◌&&◌, leb, ◌==◌, not, ◌↔◌, &&-true, Bool-cases, inl, inr,
}
use gotra.Security.Base64.{url, symbol, encode}
use gotra.Security.Token.{opaque_token, hex, hex_digit, hash_token, label, is_lower_alnum}

-- A character that an opaque token can have.
abbrev token_char : ℕ → Bool
token_char c =
    leb b'A' c && leb c b'Z'
    || (leb b'a' c && leb c b'z' || (leb b'0' c && leb c b'9' || (c == b'-' || c == b'_')))

symbol-token_char : (v : ℕ) → v < 64 → token_char (symbol url v) ≡ true
unfolding symbol
symbol-token_char v h = ground arith

-- Every character of an opaque token is a letter, a digit, a dash or an underscore.
pub opaque_token_chars :
    (bs : List ℕ) → All (λ b. b < 256) bs → all token_char (opaque_token bs) ≡ true
unfolding opaque_token encode
opaque_token_chars [] h = refl
opaque_token_chars (x ∷ []) h =
    rw (symbol-token_char (x / 4) (omega arith), symbol-token_char (x % 4 * 16) (omega arith))
opaque_token_chars (x ∷ y ∷ []) h = rw (
  symbol-token_char (x / 4) (omega arith),
  symbol-token_char (x % 4 * 16 + y / 16) (omega arith),
  symbol-token_char (y % 16 * 4) (omega arith),
)
opaque_token_chars (x ∷ y ∷ z ∷ rest) h = rw (
  symbol-token_char (x / 4) (omega arith),
  symbol-token_char (x % 4 * 16 + y / 16) (omega arith),
  symbol-token_char (y % 16 * 4 + z / 64) (omega arith),
  symbol-token_char (z % 64) (omega arith),
  opaque_token_chars rest h.1.1.1,
)

label-cons_char :
    (c : ℕ)
    → token_char c ≡ true
    → not (c == b'_' || c == b'-') ≡ true
    → is_lower_alnum (to_lower c) ≡ true
unfolding is_lower_alnum to_lower
label-cons_char c h k = ground arith

label_chars : (token : Str) → all token_char token ≡ true → all is_lower_alnum (label token) ≡ true
unfolding label
label_chars [] h = refl
label_chars (c ∷ s) h =
    let (here, rest) = &&-true (token_char c) (all token_char s) h in
    elim (Bool-cases (not (c == b'_' || c == b'-'))) [
      | inl keep ↦ rw keep (rw (label-cons_char c here keep) (label_chars s rest))
      | inr drop ↦ rw drop (label_chars s rest)
    ]

-- A label cut from an opaque token has only lower-case letters and digits.
pub label-opaque_token :
    (bs : List ℕ) → All (λ b. b < 256) bs → all is_lower_alnum (label (opaque_token bs)) ≡ true
label-opaque_token bs h = label_chars (opaque_token bs) (opaque_token_chars bs h)

hex_digit-injective : (u v : ℕ) → u < 16 → v < 16 → hex_digit u ≡ hex_digit v → u ≡ v
unfolding hex_digit
hex_digit-injective u v h k e = ground arith

hex-injective :
    (xs ys : List ℕ) → All (λ b. b < 256) xs → All (λ b. b < 256) ys → hex xs ≡ hex ys → xs ≡ ys
unfolding hex
hex-injective [] [] h k e = refl
hex-injective [] (y ∷ ys) h k e = cc
hex-injective (x ∷ xs) [] h k e = cc
hex-injective (x ∷ xs) (y ∷ ys) h k e = ground (
  arith,
  hex-injective xs ys,
  hex_digit-injective (x / 16) (y / 16),
  hex_digit-injective (x % 16) (y % 16),
)

-- Where SHA-256 returns bytes, two tokens have the same stored hash exactly if they have the same
-- digest.
pub hash_token_iff :
    (sha256 : Str → List ℕ)
    → ((s : Str) → All (λ b. b < 256) (sha256 s))
    → (s t : Str) → (hash_token sha256 s ≡ hash_token sha256 t) ↔ (sha256 s ≡ sha256 t)
unfolding hash_token
hash_token_iff sha256 bytes s t = (hex-injective _ _ (bytes s) (bytes t), ap hex)
