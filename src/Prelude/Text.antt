-- ===== src/Prelude/Text.antt =====
-- Go strings as lists of bytes, with the functions of Go's `strings` that the program calls.
use Prim.Native.Nat.{ℕ, ◌+◌}
use Prim.Native.Char.{code}
use Prim.Native.String.{String}
use mathlib.Core.Path.{◌≡◌, refl}
use mathlib.Core.Logic.{◌↔◌}
use mathlib.Core.Bool.{Bool, true, false, ◌&&◌, ◌||◌}
use mathlib.Core.Option.{Option, none, some}
use mathlib.Core.List.{List, [], ◌∷◌, ◌++◌}
use native.Mathlib.Omega.{arith}
use gotra.Prelude.Tests.{leb, ◌==◌, ==_iff, ==_refl, if◌then◌else◌}

abbrev pub Str : Type 0
Str = List ℕ

-- The bytes of an ASCII literal.
abbrev pub codes : String → Str
codes String.[] = []
codes (String.◌∷◌ c s) = code c ∷ codes s

-- ==
unfoldable pub str_eq : Str → Str → Bool
str_eq [] [] = true
str_eq [] (y ∷ ys) = false
str_eq (x ∷ xs) [] = false
str_eq (x ∷ xs) (y ∷ ys) = x == y && str_eq xs ys

pub str_eq_iff : (s t : Str) → (str_eq s t ≡ true) ↔ (s ≡ t)
unfolding str_eq
str_eq_iff [] [] = (λ _. refl, λ _. refl)
str_eq_iff [] (y ∷ ys) = (λ e. cc, λ e. cc)
str_eq_iff (x ∷ xs) [] = (λ e. cc, λ e. cc)
str_eq_iff (x ∷ xs) (y ∷ ys) = ground (arith, str_eq_iff xs ys, ==_iff x y)

pub str_eq_refl : (s : Str) → str_eq s s ≡ true
str_eq_refl s = (str_eq_iff s s).1 refl

-- strings.HasPrefix
unfoldable pub has_prefix : Str → Str → Bool
has_prefix s [] = true
has_prefix [] (p ∷ ps) = false
has_prefix (c ∷ s) (p ∷ ps) = c == p && has_prefix s ps

-- strings.IndexByte, with the text before the first hit and the text after it.
unfoldable pub cut_byte : ℕ → Str → Option (Str × Str)
cut_byte b [] = none
cut_byte b (c ∷ s) =
    if c == b
    then some ([], s)
    else elim (cut_byte b s) [ none ↦ none | some (l, r) ↦ some (c ∷ l, r) ]

-- The text has no byte `b`.
unfoldable pub lacks : ℕ → Str → Bool
lacks b [] = true
lacks b (c ∷ s) = if c == b then false else lacks b s

pub cut_byte-append : (b : ℕ) (l r : Str) → lacks b l ≡ true → cut_byte b (l ++ b ∷ r) ≡ some (l, r)
unfolding cut_byte lacks
cut_byte-append b [] r h = ground arith
cut_byte-append b (c ∷ l) r h = ground (arith, cut_byte-append b l r)

-- ASCII lower case of one byte.
unfoldable pub to_lower : ℕ → ℕ
to_lower c = if leb b'A' c && leb c b'Z' then c + 32 else c

pub to_lower_idem : (c : ℕ) → to_lower (to_lower c) ≡ to_lower c
unfolding to_lower
to_lower_idem c = ground arith

-- unicode.IsSpace on ASCII.
unfoldable pub is_space : ℕ → Bool
is_space c = c == 32 || leb 9 c && leb c 13

unfoldable pub trim_left : Str → Str
unfolding is_space
trim_left [] = []
trim_left (c ∷ s) = let rest = trim_left s in if is_space c then rest else c ∷ s

-- `c ∷ s`, or nothing where `s` is empty and `c` a space.
unfoldable pub cons_trimmed : ℕ → Str → Str
unfolding is_space
cons_trimmed c [] = if is_space c then [] else c ∷ []
cons_trimmed c (d ∷ s) = c ∷ d ∷ s

unfoldable pub trim_right : Str → Str
unfolding cons_trimmed
trim_right [] = []
trim_right (c ∷ s) = cons_trimmed c (trim_right s)

-- strings.TrimSpace
unfoldable pub trim_space : Str → Str
unfolding trim_left trim_right
trim_space s = trim_right (trim_left s)

-- strings.ToLower on ASCII
unfoldable pub lower : Str → Str
unfolding to_lower
lower [] = []
lower (c ∷ s) = to_lower c ∷ lower s

pub lacks-append : (b : ℕ) (l r : Str) → lacks b (l ++ r) ≡ (lacks b l && lacks b r)
unfolding lacks
lacks-append b [] r = refl
lacks-append b (c ∷ l) r = ground (arith, lacks-append b l r)

pub cut_byte-none : (b : ℕ) (s : Str) → lacks b s ≡ true → cut_byte b s ≡ none
unfolding cut_byte lacks
cut_byte-none b [] h = refl
cut_byte-none b (c ∷ s) h = ground (arith, cut_byte-none b s)

-- strings.TrimPrefix
unfoldable pub trim_prefix : Str → Str → Str
trim_prefix s [] = s
trim_prefix [] (p ∷ ps) = []
trim_prefix (c ∷ s) (p ∷ ps) =
    let rest = trim_prefix s ps in if has_prefix (c ∷ s) (p ∷ ps) then rest else c ∷ s

pub trim_prefix-has_prefix : (s p : Str) → has_prefix s p ≡ true → s ≡ p ++ trim_prefix s p
unfolding trim_prefix has_prefix
trim_prefix-has_prefix s [] h = refl
trim_prefix-has_prefix [] (p ∷ ps) h = cc
trim_prefix-has_prefix (c ∷ s) (p ∷ ps) h = ground (arith, trim_prefix-has_prefix s ps)

pub has_prefix-append : (p s : Str) → has_prefix (p ++ s) p ≡ true
unfolding has_prefix
has_prefix-append [] s = has_prefix-empty s
  where
    has_prefix-empty : (s : Str) → has_prefix s [] ≡ true
    has_prefix-empty [] = refl
    has_prefix-empty (c ∷ s) = refl
has_prefix-append (c ∷ p) s = ground (arith, has_prefix-append p s, ==_refl c)

pub trim_prefix-append : (p s : Str) → trim_prefix (p ++ s) p ≡ s
unfolding trim_prefix
trim_prefix-append [] [] = refl
trim_prefix-append [] (c ∷ s) = refl
trim_prefix-append (c ∷ p) s = rw (has_prefix-append (c ∷ p) s) (trim_prefix-append p s)

pub trim_prefix-other : (s p : Str) → has_prefix s p ≡ false → trim_prefix s p ≡ s
unfolding trim_prefix
trim_prefix-other [] [] h = refl
trim_prefix-other [] (c ∷ p) h = refl
trim_prefix-other (c ∷ s) [] h = refl
trim_prefix-other (c ∷ s) (d ∷ p) h = rw h refl

-- A text that lacks a byte has no prefix that contains it.
pub has_prefix-lacks :
    (b : ℕ) (s p : Str) → lacks b s ≡ true → lacks b p ≡ false → has_prefix s p ≡ false
unfolding has_prefix lacks
has_prefix-lacks b s [] h k = ground arith
has_prefix-lacks b [] (d ∷ p) h k = refl
has_prefix-lacks b (c ∷ s) (d ∷ p) h k = ground (arith, has_prefix-lacks b s p)
