-- ===== src/Security/Password/Verifies.antt =====
-- A password against the hash that HashPassword made of a password.
use gotra.Prelude.{
  ℕ, ◌%◌, ◌^◌, ◌<◌, ◌≡◌, refl, ◌∙◌, ap, Str, true, some, List, [], ◌∷◌, ◌++◌, All, arith, length,
  lacks, str_eq, codes,
}
use gotra.Errors.{ok}
use gotra.Security.Base64.{std, encode, decode}
use gotra.Security.Base64.Roundtrip.{decode-encode, lacks-encode}
use gotra.Security.Password.{
  IdKey, default_params, phc_prefix, hash_password, split, decode_parts, decode_hash, same_hash,
  verify_decoded, verify_found, verify_password,
}

-- A part without the separator is split off.
split-append : (b : ℕ) (l r : Str) → lacks b l ≡ true → split b (l ++ b ∷ r) ≡ l ∷ split b r
unfolding split lacks
split-append b [] r h = ground arith
split-append b (c ∷ l) r h = ground (arith, split-append b l r)

split-lacks : (b : ℕ) (l : Str) → lacks b l ≡ true → split b l ≡ l ∷ []
unfolding split lacks
split-lacks b [] h = refl
split-lacks b (c ∷ l) h = ground (arith, split-lacks b l)

abbrev head_parts : List Str → List Str
head_parts rest = [] ∷ codes "argon2id" ∷ codes "v=19" ∷ codes "m=65536,t=3,p=2" ∷ rest

split-prefix : (s : Str) → split b'$' (phc_prefix default_params ++ s) ≡ head_parts (split b'$' s)
unfolding split phc_prefix default_params
split-prefix s = refl

decode_parts-head_parts :
    (a b : Str) (salt hash : List ℕ)
    → decode std a ≡ some salt
    → decode std b ≡ some hash
    → decode_parts (head_parts (a ∷ b ∷ []))
      ≡ some (
        record default_params {
          salt_length = length salt % 2 ^ 32;
          key_length = length hash % 2 ^ 32;
        },
        salt,
        hash,
      )
unfolding decode_parts str_eq default_params
decode_parts-head_parts a b salt hash ea eb = rw (ea, eb) refl

split-encoded :
    (salt hash : List ℕ)
    → split b'$' (phc_prefix default_params ++ (encode std salt ++ b'$' ∷ encode std hash))
      ≡ head_parts (encode std salt ∷ encode std hash ∷ [])
split-encoded salt hash =
    split-prefix _
    ∙ ap head_parts (
        split-append b'$' (encode std salt) (encode std hash) (lacks-encode salt)
        ∙ ap (◌∷◌ (encode std salt)) (split-lacks b'$' (encode std hash) (lacks-encode hash)))

-- What decodeHash reads from the text of HashPassword: the default costs, the salt and the hash.
pub decode_hash-hash_password :
    (salt hash : List ℕ)
    → All (λ b. b < 256) salt
    → All (λ b. b < 256) hash
    → decode_hash (phc_prefix default_params ++ (encode std salt ++ b'$' ∷ encode std hash))
      ≡ some (
        record default_params {
          salt_length = length salt % 2 ^ 32;
          key_length = length hash % 2 ^ 32;
        },
        salt,
        hash,
      )
unfolding decode_hash
decode_hash-hash_password salt hash hs hh =
    ap decode_parts (split-encoded salt hash)
    ∙ decode_parts-head_parts _ _ salt hash (decode-encode salt hs) (decode-encode hash hh)

module _ (id_key : IdKey)
    (id_key_bytes : (pw : Str) (salt : List ℕ) (t m p n : ℕ)
      → All (λ b. b < 256) (id_key pw salt t m p n))
    (length-id_key : (pw : Str) (salt : List ℕ) (t m p n : ℕ)
      → length (id_key pw salt t m p n) ≡ n) where
  abbrev key : Str → List ℕ → List ℕ
  key pw salt = id_key pw salt 3 65536 2 32

  verify_decoded-key :
      (pw' : Str) (salt hash : List ℕ)
      → length hash ≡ 32
      → verify_decoded id_key pw' (
        record default_params {
          salt_length = length salt % 2 ^ 32;
          key_length = length hash % 2 ^ 32;
        },
        salt,
        hash,
      )
        ≡ ok (str_eq hash (key pw' salt))
  unfolding verify_decoded same_hash default_params
  verify_decoded-key pw' salt hash e = rw (e, length-id_key pw' salt 3 65536 2 32) refl

  -- With an `argon2.IDKey` that returns as many bytes as it is asked for: VerifyPassword of a
  -- password against the text that HashPassword made of a password with a salt of bytes succeeds,
  -- and its answer is true exactly if the keys derived from the two passwords with that salt are
  -- equal.
  pub verify-hash_password :
      (pw pw' : Str) (salt : List ℕ)
      → All (λ b. b < 256) salt
      → verify_password id_key pw' (hash_password id_key pw salt)
        ≡ ok (str_eq (key pw salt) (key pw' salt))
  unfolding verify_password hash_password default_params
  verify-hash_password pw pw' salt h =
      ap (verify_found id_key pw')
        (decode_hash-hash_password salt (key pw salt) h (id_key_bytes pw salt 3 65536 2 32))
      ∙ verify_decoded-key pw' salt (key pw salt) (length-id_key pw salt 3 65536 2 32)
