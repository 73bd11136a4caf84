-- ===== src/Prelude/Sorting.antt =====
-- sort.Strings: the byte order of texts, and insertion by a key.

use mathlib.Core.Bool.{Bool, true, false, ◌||◌, ◌&&◌}
use mathlib.Core.List.{List, [], ◌∷◌}
use gotra.Prelude.Tests.{◌==◌, ltb, if◌then◌else◌}
use gotra.Prelude.Text.{Str}

-- <= on strings
unfoldable pub str_leb : Str → Str → Bool
str_leb [] t = true
str_leb (c ∷ s) [] = false
str_leb (c ∷ s) (d ∷ t) = ltb c d || c == d && str_leb s t

unfoldable pub insert_by {ℓ} : {A : Type ℓ} → (A → Str) → A → List A → List A
unfolding str_leb
insert_by key x [] = x ∷ []
insert_by key x (y ∷ ys) =
    let rest = insert_by key x ys in if str_leb (key x) (key y) then x ∷ y ∷ ys else y ∷ rest

unfoldable pub sort_by {ℓ} : {A : Type ℓ} → (A → Str) → List A → List A
unfolding insert_by
sort_by key [] = []
sort_by key (x ∷ xs) = insert_by key x (sort_by key xs)
