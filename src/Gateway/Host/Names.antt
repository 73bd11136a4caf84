-- ===== src/Gateway/Host/Names.antt =====
-- Which hosts lead to a tunnel.
use gotra.Prelude.{
  lacks-append, cut_byte-none, ℕ, ◌<◌, ◌≡◌, refl, Str, Bool, true, false, ◌&&◌, ◌↔◌, ◌⊎◌, inl, inr,
  none, some, [], ◌∷◌, ◌++◌, cut_byte, lacks, str_eq, str_eq_refl, str_eq_iff, cut_byte-append,
  length, length-append, arith, Bool-cases, Option-cases,
}
use gotra.Gateway.Host.{
  cut_suffix, split_host, without_port, subdomain_from_host, host_permitted, tunnel_host,
  forward_path, captured_path, plain, text_or_empty,
}

str_eq-length : (s t : Str) → length t < length s → str_eq s t ≡ false
unfolding str_eq
str_eq-length [] t h = absurd (omega (arith, h))
str_eq-length (x ∷ s) [] h = refl
str_eq-length (x ∷ s) (y ∷ t) h = ground (arith, str_eq-length s t)

cut_suffix_refl : (suffix : Str) → cut_suffix suffix suffix ≡ some []
unfolding cut_suffix str_eq
cut_suffix_refl [] = refl
cut_suffix_refl (c ∷ s) = rw (str_eq_refl (c ∷ s)) refl

-- The suffix of a longer text is cut.
cut_suffix-append : (p suffix : Str) → cut_suffix suffix (p ++ suffix) ≡ some p
unfolding cut_suffix
cut_suffix-append [] suffix = cut_suffix_refl suffix
cut_suffix-append (c ∷ p) suffix =
    rw (str_eq-length (c ∷ p ++ suffix) suffix (omega (arith, length-append p suffix)))
      (rw (cut_suffix-append p suffix) refl)

cut_suffix_sound : (suffix s : Str) {p : Str} → cut_suffix suffix s ≡ some p → s ≡ p ++ suffix
unfolding cut_suffix
cut_suffix_sound suffix [] {p} h = ground (arith, str_eq_iff [] suffix)
cut_suffix_sound suffix (c ∷ s) {p} h = elim (Option-cases (cut_suffix suffix s)) [
  | inl e ↦ ground (arith, str_eq_iff (c ∷ s) suffix, e)
  | inr (q, e) ↦ ground (arith, str_eq_iff (c ∷ s) suffix, e, cut_suffix_sound suffix s {p = q} e)
]

-- A text without the bytes that delimit a port.
unfoldable pub is_plain : Str → Bool
is_plain s = lacks b':' s && lacks b'[' s && lacks b']' s

split_host-none : (h : Str) → is_plain h ≡ true → split_host h ≡ none
unfolding split_host is_plain lacks
split_host-none [] e = refl
split_host-none (c ∷ s) e = ground (arith, cut_byte-none b':' (c ∷ s))

split_host-port :
    (h port : Str)
    → is_plain h ≡ true
    → is_plain port ≡ true
    → split_host (h ++ b':' ∷ port) ≡ some h
unfolding split_host is_plain plain lacks cut_byte
split_host-port [] port e k = ground (arith, lacks-append b'[' [] (b':' ∷ port))
split_host-port (c ∷ s) port e k = ground (
  arith,
  cut_byte-append b':' (c ∷ s) port,
  lacks-append b'[' (c ∷ s) (b':' ∷ port),
  lacks-append b']' (c ∷ s) (b':' ∷ port),
)

is_plain-tunnel_host :
    (base sub : Str)
    → is_plain base ≡ true
    → is_plain sub ≡ true
    → is_plain (tunnel_host base sub) ≡ true
unfolding is_plain lacks
is_plain-tunnel_host base sub e k = ground (
  arith,
  lacks-append b':' sub (b'.' ∷ base),
  lacks-append b'[' sub (b'.' ∷ base),
  lacks-append b']' sub (b'.' ∷ base),
)

-- The host of a tunnel leads to its subdomain, with a port or without, where neither the names
-- nor the port contain a colon or a bracket.
pub subdomain_from_host-tunnel_host :
    (base sub port : Str)
    → is_plain base ≡ true
    → is_plain sub ≡ true
    → is_plain port ≡ true
    → (subdomain_from_host base (tunnel_host base sub) ≡ sub)
      × (subdomain_from_host base (tunnel_host base sub ++ b':' ∷ port) ≡ sub)
unfolding subdomain_from_host without_port
subdomain_from_host-tunnel_host base sub port e k l =
    let clean = is_plain-tunnel_host base sub e k in
    (
      rw (split_host-none (tunnel_host base sub) clean)
          (rw (cut_suffix-append sub (b'.' ∷ base)) refl),
      rw (split_host-port (tunnel_host base sub) port clean l)
          (rw (cut_suffix-append sub (b'.' ∷ base)) refl),
    )

-- A host leads to a subdomain that is not empty only if, without its port, it is the host of the
-- tunnel with that subdomain.
pub subdomain_from_host_sound :
    (base host : Str) (c : ℕ) (sub : Str)
    → subdomain_from_host base host ≡ c ∷ sub
    → without_port host (split_host host) ≡ tunnel_host base (c ∷ sub)
unfolding subdomain_from_host text_or_empty
subdomain_from_host_sound base host c sub h =
    let h' = without_port host (split_host host) in
    elim (Option-cases (cut_suffix (b'.' ∷ base) h')) [
      | inl e ↦ ground (arith, e)
      | inr (q, e) ↦ ground (arith, e, cut_suffix_sound (b'.' ∷ base) h' {p = q} e)
    ]

-- A certificate is issued exactly for the base domain and for the hosts of tunnels.
pub host_permitted_iff :
    (base host : Str)
    → (host_permitted base host ≡ true)
      ↔ (host ≡ base) ⊎ ((sub : Str) × (host ≡ tunnel_host base sub))
unfolding host_permitted
host_permitted_iff base host = (permitted, allowed)
  where
    permitted :
        host_permitted base host ≡ true
        → (host ≡ base) ⊎ ((sub : Str) × (host ≡ tunnel_host base sub))
    permitted h = elim (Bool-cases (str_eq host base)) [
      | inl same ↦ inl ((str_eq_iff host base).0 same)
      | inr other ↦ elim (Option-cases (cut_suffix (b'.' ∷ base) host)) [
        | inl e ↦ ground (arith, e, other)
        | inr (q, e) ↦ inr (q, cut_suffix_sound (b'.' ∷ base) host {p = q} e)
      ]
    ]

    allowed :
        (host ≡ base) ⊎ ((sub : Str) × (host ≡ tunnel_host base sub))
        → host_permitted base host ≡ true
    allowed (inl e) = rw ((str_eq_iff host base).1 e) refl
    allowed (inr (sub, e)) = ground (arith, cut_suffix-append sub (b'.' ∷ base), e)

-- Capture stores the path and the query that the public request had, where the path has no
-- question mark.
pub captured_path-forward_path :
    (path query : Str)
    → lacks b'?' path ≡ true
    → captured_path (forward_path path query) ≡ (path, query)
unfolding captured_path forward_path
captured_path-forward_path path [] h = ground (arith, cut_byte-none b'?' path h)
captured_path-forward_path path (c ∷ query) h =
    ground (arith, cut_byte-append b'?' path (c ∷ query) h)
