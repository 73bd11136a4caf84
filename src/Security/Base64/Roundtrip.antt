-- ===== src/Security/Base64/Roundtrip.antt =====
-- Decoding what was encoded, and the characters that an encoding can have.
use gotra.Prelude.{
  ℕ, ◌+◌, ◌*◌, ◌/◌, ◌%◌, ◌<◌, ◌≡◌, refl, ◌≢◌, Str, true, some, List, [], ◌∷◌, All, arith, lacks,
}
use gotra.Security.Base64.{std, symbol, value, encode, values, bytes, decode}

value-symbol-std : (v : ℕ) → v < 64 → value std (symbol std v) ≡ some v
unfolding value symbol
value-symbol-std v h = ground arith

-- No symbol of the standard alphabet is a line break or a dollar sign.
symbol-std : (v : ℕ) → (symbol std v ≢ 10) × (symbol std v ≢ 13) × (symbol std v ≢ b'$')
unfolding symbol
symbol-std v = (ground arith, ground arith, ground arith)

-- One character of an encoding is read back as its value.
values-symbol :
    (v : ℕ) (s : Str) (vs : List ℕ)
    → v < 64
    → values std s ≡ some vs
    → values std (symbol std v ∷ s) ≡ some (v ∷ vs)
unfolding values
values-symbol v s vs h e = ground (arith, value-symbol-std v, symbol-std v)

-- The six-bit values that an encoding writes.
sextets : List ℕ → List ℕ
sextets [] = []
sextets (x ∷ []) = x / 4 ∷ x % 4 * 16 ∷ []
sextets (x ∷ y ∷ []) = x / 4 ∷ (x % 4 * 16 + y / 16) ∷ y % 16 * 4 ∷ []
sextets (x ∷ y ∷ z ∷ rest) =
    x / 4 ∷ (x % 4 * 16 + y / 16) ∷ (y % 16 * 4 + z / 64) ∷ z % 64 ∷ sextets rest

values-encode :
    (bs : List ℕ) → All (λ b. b < 256) bs → values std (encode std bs) ≡ some (sextets bs)
unfolding encode sextets
values-encode [] h = unfold values in refl
values-encode (x ∷ []) h =
    values-symbol _ _ _ (omega arith) (values-symbol _ _ _ (omega arith) (unfold values in refl))
values-encode (x ∷ y ∷ []) h =
    values-symbol _ _ _ (omega arith) (
      values-symbol _ _ _ (omega arith) (values-symbol _ _ _ (omega arith) (unfold values in refl)))
values-encode (x ∷ y ∷ z ∷ rest) h = values-symbol _ _ _ (omega arith) (
    values-symbol _ _ _ (omega arith) (
      values-symbol _ _ _ (omega arith)
        (values-symbol _ _ _ (omega arith) (values-encode rest h.1.1.1))))

bytes-sextets : (bs : List ℕ) → All (λ b. b < 256) bs → bytes (sextets bs) ≡ some bs
unfolding bytes sextets
bytes-sextets [] h = refl
bytes-sextets (x ∷ []) h = ground arith
bytes-sextets (x ∷ y ∷ []) h = ground arith
bytes-sextets (x ∷ y ∷ z ∷ rest) h = ground (arith, bytes-sextets rest)

-- Decoding the encoding of bytes gives the bytes back.
pub decode-encode : (bs : List ℕ) → All (λ b. b < 256) bs → decode std (encode std bs) ≡ some bs
unfolding decode
decode-encode bs h = ground (arith, values-encode bs, bytes-sextets bs)

-- An encoding has no dollar sign.
pub lacks-encode : (bs : List ℕ) → lacks b'$' (encode std bs) ≡ true
unfolding lacks encode
lacks-encode [] = refl
lacks-encode (x ∷ []) = ground (arith, symbol-std (x / 4), symbol-std (x % 4 * 16))
lacks-encode (x ∷ y ∷ []) =
    ground (arith, symbol-std (x / 4), symbol-std (x % 4 * 16 + y / 16), symbol-std (y % 16 * 4))
lacks-encode (x ∷ y ∷ z ∷ rest) = ground (
  arith,
  symbol-std (x / 4),
  symbol-std (x % 4 * 16 + y / 16),
  symbol-std (y % 16 * 4 + z / 64),
  symbol-std (z % 64),
  lacks-encode rest,
)
