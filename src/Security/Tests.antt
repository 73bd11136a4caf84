-- ===== src/Security/Tests.antt =====
-- Passwords, tokens and base64 at concrete inputs.
use gotra.Prelude.{
  ℕ, zero, suc, ◌%◌, ◌<◌, ◌≡◌, refl, Str, List, [], ◌∷◌, codes, arith, All, length, str_eq,
}
use gotra.Errors.{ok}
use gotra.Security.Password.{hash_password, verify_password, IdKey}
use gotra.Security.Password.Verifies.{verify-hash_password}

-- A derived key of as many bytes as asked for, from the bytes of the password.
abbrev demo_key : Str → ℕ → List ℕ
demo_key pw zero = []
demo_key [] (suc n) = 7 ∷ demo_key [] n
demo_key (c ∷ pw) (suc n) = c % 256 ∷ demo_key pw n

abbrev demo_id_key : IdKey
demo_id_key pw salt t m p n = demo_key pw n

demo_key-bytes : (pw : Str) (n : ℕ) → All (λ b. b < 256) (demo_key pw n)
demo_key-bytes pw zero = tt
demo_key-bytes [] (suc n) = (omega arith, demo_key-bytes [] n)
demo_key-bytes (c ∷ pw) (suc n) = (omega arith, demo_key-bytes pw n)

length-demo_key : (pw : Str) (n : ℕ) → length (demo_key pw n) ≡ n
length-demo_key pw zero = refl
length-demo_key [] (suc n) = ground (arith, length-demo_key [] n)
length-demo_key (c ∷ pw) (suc n) = ground (arith, length-demo_key pw n)

verify-hash_password_example :
    verify_password demo_id_key
      (codes "hunter3")
      (hash_password demo_id_key (codes "hunter2") (1 ∷ 2 ∷ 3 ∷ []))
    ≡ ok (str_eq (demo_key (codes "hunter2") 32) (demo_key (codes "hunter3") 32))
verify-hash_password_example =
    verify-hash_password demo_id_key (λ pw salt t m p n. demo_key-bytes pw n)
      (λ pw salt t m p n. length-demo_key pw n) (codes "hunter2") (codes "hunter3") (1 ∷ 2 ∷ 3 ∷ [])
      (ground arith)
