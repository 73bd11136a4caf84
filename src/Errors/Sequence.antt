-- ===== src/Errors/Sequence.antt =====
-- Calls one after the other: `v, err := f(); if err != nil { return err }`.
use gotra.Prelude.{◌≡◌, refl}
use gotra.Errors.{Outcome, ok, err, panic}

infixl 5 ◌>>=◌ ◌>>◌
abbrev pub ◌>>=◌ {ℓ κ} : {A : Type ℓ} {B : Type κ} → Outcome A → (A → Outcome B) → Outcome B
◌>>=◌ (ok a) f = f a
◌>>=◌ (err e) f = err e
◌>>=◌ panic f = panic

abbrev pub ◌>>◌ {ℓ κ} : {A : Type ℓ} {B : Type κ} → Outcome A → Outcome B → Outcome B
r >> s = r >>= λ _. s

-- A sequence that returns has returned from its first call.
pub sequence_ok {ℓ κ} :
    {A : Type ℓ} {B : Type κ} (r : Outcome A) (f : A → Outcome B) {b : B}
    → (r >>= f) ≡ ok b
    → (a : A) × (r ≡ ok a) × (f a ≡ ok b)
sequence_ok (ok a) f h = (a, refl, h)
sequence_ok (err e) f h = cc
sequence_ok panic f h = cc
