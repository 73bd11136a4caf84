-- ===== src/Security/Token.antt =====
-- services/pkg/security/token.go, and the labels that the gateway and the services cut from such
-- tokens (newSubdomain of gateway/server.go, the suffixes of the slugs).
pub mod Labels
use gotra.Prelude.{
  ℕ, ◌+◌, ◌-◌, ◌/◌, ◌%◌, Str, Bool, true, false, ◌||◌, ◌&&◌, not, List, [], ◌∷◌, ◌++◌, map, ltb,
  leb, ◌==◌, if◌then◌else◌, select, to_lower, all,
}
use gotra.Security.Base64.{url, encode}

-- GenerateOpaqueToken, from the bytes that `rand.Read` gave.
unfoldable pub opaque_token : List ℕ → Str
opaque_token bs = encode url bs

unfoldable pub hex_digit : ℕ → ℕ
hex_digit v = if ltb v 10 then b'0' + v else b'a' + (v - 10)

-- hex.EncodeToString
unfoldable pub hex : List ℕ → Str
unfolding hex_digit
hex [] = []
hex (x ∷ xs) = hex_digit (x / 16) ∷ hex_digit (x % 16) ∷ hex xs

-- HashToken, with SHA-256 as an argument.
unfoldable pub hash_token : (Str → List ℕ) → Str → Str
hash_token sha256 token = hex (sha256 token)

-- strings.ToLower(strings.NewReplacer("_", "", "-", "").Replace(tok))
unfoldable pub label : Str → Str
label token = map to_lower (select (λ c. not (c == b'_' || c == b'-')) token)

unfoldable pub is_lower_alnum : ℕ → Bool
is_lower_alnum c = leb b'a' c && leb c b'z' || leb b'0' c && leb c b'9'
