-- ===== src/Security/Scan.antt =====
-- `fmt.Sprintf` with `%d` and `fmt.Sscanf` with literals and `%d`, of Go's library, on ASCII input.
use gotra.Prelude.{
  ℕ, zero, suc, ◌+◌, ◌-◌, ◌*◌, ◌/◌, ◌%◌, ◌^◌, Str, Bool, ◌||◌, ◌&&◌, Option, none, some, [], ◌∷◌,
  ltb, leb, ◌==◌, if◌then◌else◌,
}

-- The decimal digits of `n` before `rest`; `fuel` bounds their number.
unfoldable pub digits : ℕ → ℕ → Str → Str
digits zero n rest = rest
digits (suc fuel) n rest =
    let more = digits fuel (n / 10) ((b'0' + n % 10) ∷ rest) in
    if ltb n 10 then (b'0' + n) ∷ rest else more

-- %d of a number below 10 ^ 20
unfoldable pub decimal : ℕ → Str
unfolding digits
decimal n = digits 20 n []

unfoldable pub is_digit : ℕ → Bool
is_digit c = leb b'0' c && leb c b'9'

-- SkipSpace: `none` at a line feed.
unfoldable pub skip_space : Str → Option Str
skip_space [] = some []
skip_space (c ∷ s) =
    let rest = skip_space s in
    if c == 10
    then none
    else if c == 32 || c == 9 || c == 11 || c == 12 || c == 13
    then rest
    else some (c ∷ s)

-- The longest run of digits, as a number, and what follows.
unfoldable pub scan_digits : ℕ → Str → ℕ × Str
unfolding is_digit
scan_digits n [] = (n, [])
scan_digits n (c ∷ s) =
    let more = scan_digits (n * 10 + (c - b'0')) s in if is_digit c then more else (n, c ∷ s)

unfoldable pub scan_number : ℕ → Str → Option (ℕ × Str)
unfolding is_digit scan_digits
scan_number limit [] = none
scan_number limit (c ∷ s) =
    let (n, rest) = scan_digits 0 (c ∷ s) in
    if is_digit c && ltb n limit then some (n, rest) else none

-- `%d` into an unsigned variable whose values are below `limit`.
unfoldable pub scan_uint : ℕ → Str → Option (ℕ × Str)
unfolding skip_space scan_number
scan_uint limit s = elim (skip_space s) [ none ↦ none | some t ↦ scan_number limit t ]

unfoldable pub after_sign : Str → Str
after_sign [] = []
after_sign (c ∷ s) = if c == b'+' || c == b'-' then s else c ∷ s

unfoldable pub magnitude_limit : Str → ℕ
magnitude_limit [] = 2 ^ 63
magnitude_limit (c ∷ s) = if c == b'-' then 2 ^ 63 + 1 else 2 ^ 63

-- `%d` into an `int`: its magnitude.
unfoldable pub scan_int : Str → Option (ℕ × Str)
unfolding skip_space scan_number after_sign magnitude_limit
scan_int s = elim (skip_space s) [
  | none ↦ none
  | some t ↦ scan_number (magnitude_limit t) (after_sign t)
]

-- Literal characters of a format.
unfoldable pub expect : Str → Str → Option Str
expect [] s = some s
expect (p ∷ ps) [] = none
expect (p ∷ ps) (c ∷ s) = if p == c then expect ps s else none

-- A chain of steps, each of which may stop the scan.
infixl 5 ◌>>=◌
abbrev pub ◌>>=◌ {ℓ κ} : {A : Type ℓ} {B : Type κ} → Option A → (A → Option B) → Option B
none >>= f = none
some a >>= f = f a
