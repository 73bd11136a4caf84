-- ===== src/Security/Password.antt =====
-- services/pkg/security/password.go. `argon2.IDKey` is an argument: password, salt, time, memory,
-- threads and key length; as its documentation says, it panics when time or threads is 0.
pub mod Verifies
use gotra.Prelude.{
  ℕ, zero, suc, ◌+◌, ◌%◌, ◌^◌, Str, Bool, true, false, ◌&&◌, ◌||◌, Option, none, some, List, [],
  ◌∷◌, ◌++◌, ◌==◌, if◌then◌else◌, codes, length, str_eq,
}
use gotra.Security.Base64.{std, encode, decode}
use gotra.Errors.{GoError, Sentinel, Outcome, ok, err, panic}
use gotra.Security.Scan.{decimal, scan_uint, scan_int, expect, ◌>>=◌}

-- argon2Params
pub record Params : Type 0 where
  pub memory : ℕ
  pub iterations : ℕ
  pub parallelism : ℕ
  pub salt_length : ℕ
  pub key_length : ℕ

-- defaultParams
unfoldable pub default_params : Params
default_params = record {
  memory = 65536;
  iterations = 3;
  parallelism = 2;
  salt_length = 16;
  key_length = 32;
}

-- argon2.Version
abbrev pub version : ℕ
version = 19

abbrev pub IdKey : Type 0
IdKey = Str → List ℕ → ℕ → ℕ → ℕ → ℕ → List ℕ

-- The text that Sprintf puts before the salt.
unfoldable pub phc_prefix : Params → Str
unfolding decimal
phc_prefix p =
    codes "$argon2id$v="
    ++ decimal version
    ++ codes "$m="
    ++ decimal p.memory
    ++ codes ",t="
    ++ decimal p.iterations
    ++ codes ",p="
    ++ decimal p.parallelism
    ++ codes "$"

-- HashPassword, from the bytes that `rand.Read` gave for the salt.
unfoldable pub hash_password : IdKey → Str → List ℕ → Str
hash_password id_key password salt =
    phc_prefix default_params ++ (encode std salt ++ b'$' ∷ encode std hash)
  where
    hash : List ℕ
    hash =
        id_key password salt default_params.iterations default_params.memory
          default_params.parallelism default_params.key_length

-- strings.Split at one byte
unfoldable pub push : ℕ → List Str → List Str
push c [] = (c ∷ []) ∷ []
push c (p ∷ ps) = (c ∷ p) ∷ ps

unfoldable pub split : ℕ → Str → List Str
unfolding push
split b [] = [] ∷ []
split b (c ∷ s) = let rest = split b s in if c == b then [] ∷ rest else push c rest

-- Sscanf(s, "v=%d", &version)
unfoldable pub scan_version : Str → Option ℕ
unfolding scan_int expect
scan_version s = do (n, rest) ← expect (codes "v=") s >>= scan_int; some n

-- Sscanf(s, "m=%d,t=%d,p=%d", ...) into two `uint32` and one `uint8`
unfoldable pub scan_params : Str → Option (ℕ × ℕ × ℕ)
unfolding scan_uint expect
scan_params s = do
  (m, s₁) ← expect (codes "m=") s >>= scan_uint (2 ^ 32)
  (t, s₂) ← expect (codes ",t=") s₁ >>= scan_uint (2 ^ 32)
  (p, rest) ← expect (codes ",p=") s₂ >>= scan_uint (2 ^ 8)
  some (m, t, p)

-- decodeHash past the test of the number of parts; `none` is ErrInvalidHash.
unfoldable pub decode_parts : List Str → Option (Params × List ℕ × List ℕ)
unfolding scan_version scan_params
decode_parts (_ ∷ kind ∷ v ∷ m ∷ s ∷ h ∷ []) =
    if str_eq kind (codes "argon2id")
    then (do
      version ← scan_version v
      (memory, iterations, parallelism) ← scan_params m
      salt ← decode std s
      hash ← decode std h
      some (
        record {
          memory = memory;
          iterations = iterations;
          parallelism = parallelism;
          salt_length = length salt % 2 ^ 32;
          key_length = length hash % 2 ^ 32;
        },
        salt,
        hash,
      ))
    else none
decode_parts _ = none

-- decodeHash
unfoldable pub decode_hash : Str → Option (Params × List ℕ × List ℕ)
unfolding split decode_parts
decode_hash encoded = decode_parts (split b'$' encoded)

-- subtle.ConstantTimeEq of the lengths as `int32`, then subtle.ConstantTimeCompare
unfoldable pub same_hash : List ℕ → List ℕ → Bool
same_hash hash other =
    if length hash % 2 ^ 32 == length other % 2 ^ 32 then str_eq hash other else false

unfoldable pub verify_decoded : IdKey → Str → Params × List ℕ × List ℕ → Outcome Bool
unfolding same_hash
verify_decoded id_key password (p, salt, hash) =
    if p.iterations == 0 || p.parallelism == 0
    then panic
    else ok (same_hash hash (id_key password salt p.iterations p.memory p.parallelism p.key_length))

unfoldable pub verify_found : IdKey → Str → Option (Params × List ℕ × List ℕ) → Outcome Bool
verify_found id_key password none = err (GoError.sentinel Sentinel.invalid_hash)
verify_found id_key password (some d) = verify_decoded id_key password d

-- VerifyPassword
unfoldable pub verify_password : IdKey → Str → Str → Outcome Bool
unfolding verify_found
verify_password id_key password encoded = verify_found id_key password (decode_hash encoded)
