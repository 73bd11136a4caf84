-- ===== src/Gateway/Host.antt =====
-- services/internal/gateway/server.go: the host names of tunnels (subdomainFromHost, HostPolicy of
-- listenFunc, the public URL of register) and the path that a capture stores.
pub mod Names
use gotra.Prelude.{
  ℕ, Str, Bool, true, false, ◌&&◌, ◌||◌, Option, none, some, List, [], ◌∷◌, ◌++◌, ◌==◌,
  if◌then◌else◌, codes, cut_byte, lacks, str_eq,
}

-- strings.TrimSuffix where strings.HasSuffix, or `none`.
unfoldable pub cut_suffix : Str → Str → Option Str
cut_suffix suffix [] = if str_eq [] suffix then some [] else none
cut_suffix suffix (c ∷ s) =
    let rest = cut_suffix suffix s in
    if str_eq (c ∷ s) suffix then some [] else elim rest [ none ↦ none | some p ↦ some (c ∷ p) ]

-- The host of net.SplitHostPort between brackets, behind the first of which the text `s` stands.
unfoldable pub bracketed : Str → Option (Str × Str) → Option Str
bracketed s none = none
bracketed s (some (host, [])) = none
bracketed s (some (host, c ∷ port)) =
    if c == b':' && lacks b':' port && lacks b'[' s && lacks b']' port then some host else none

unfoldable pub plain : Str → Option (Str × Str) → Option Str
plain s none = none
plain s (some (host, port)) =
    if lacks b':' port && lacks b'[' s && lacks b']' s then some host else none

-- The host of net.SplitHostPort, or `none` for its errors.
unfoldable pub split_host : Str → Option Str
unfolding bracketed plain
split_host [] = none
split_host (c ∷ s) =
    if c == b'[' then bracketed s (cut_byte b']' s) else plain (c ∷ s) (cut_byte b':' (c ∷ s))

unfoldable pub without_port : Str → Option Str → Str
without_port host none = host
without_port host (some h) = h

unfoldable pub text_or_empty : Option Str → Str
text_or_empty none = []
text_or_empty (some s) = s

-- subdomainFromHost
unfoldable pub subdomain_from_host : Str → Str → Str
unfolding without_port text_or_empty
subdomain_from_host base host =
    text_or_empty (cut_suffix (b'.' ∷ base) (without_port host (split_host host)))

-- HostPolicy: whether a certificate may be issued for the host.
unfoldable pub host_permitted : Str → Str → Bool
host_permitted base host =
    if str_eq host base
    then true
    else elim (cut_suffix (b'.' ∷ base) host) [ none ↦ false | some s ↦ true ]

-- The host of `publicURL` in register, and the URL.
abbrev pub tunnel_host : Str → Str → Str
tunnel_host base sub = sub ++ b'.' ∷ base

abbrev pub public_url : Str → Str → Str
public_url base sub = codes "https://" ++ tunnel_host base sub

-- The path and query that handlePublic forwards.
unfoldable pub forward_path : Str → Str → Str
forward_path path [] = path
forward_path path (c ∷ query) = path ++ b'?' ∷ c ∷ query

-- The path and query that capture stores.
unfoldable pub captured_path : Str → Str × Str
captured_path path = elim (cut_byte b'?' path) [ none ↦ (path, []) | some cut ↦ cut ]
