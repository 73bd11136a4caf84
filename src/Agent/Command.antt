-- ===== src/Agent/Command.antt =====
-- services/cmd/agent/main.go: the command line `gotra http`. The environment, the flag package and
-- strconv.Atoi are arguments.
use gotra.Prelude.{
  ℕ, ℤ, pos, negsuc, ◌≤◌, ◌≡◌, Str, Bool, true, false, ◌&&◌, Option, none, some, List, [], ◌∷◌,
  ◌++◌, codes, has_prefix, leb, if◌then◌else◌, All, arith, Bool-cases, inl, inr,
}
use gotra.Errors.{Outcome, ok, err, panic}

-- strings.HasPrefix(a, "-")
unfoldable pub is_flag : Str → Bool
is_flag a = has_prefix a (codes "-")

-- extractPositional
unfoldable pub extract_positional : List Str → Str × List Str
unfolding is_flag
extract_positional [] = ([], [])
extract_positional (a ∷ args) =
    let (found, rest) = extract_positional args in
    if is_flag a then (found, a ∷ rest) else (a, args)

-- envOr
unfoldable pub env_or : (Str → Str) → Str → Str → Str
env_or getenv key fallback = elim (getenv key) [ [] ↦ fallback | c ∷ v ↦ c ∷ v ]

-- The flags token, project and gateway, with their defaults.
pub record Flags : Type 0 where
  pub token : Str
  pub project : Str
  pub gateway : Str

unfoldable pub default_flags : (Str → Str) → Flags
unfolding env_or
default_flags getenv = record {
  token = getenv (codes "GOTRA_TOKEN");
  project = getenv (codes "GOTRA_PROJECT");
  gateway = env_or getenv (codes "GOTRA_GATEWAY") (codes "ws://localhost:8081/ws/agent");
}

-- agent.Config
pub record Config : Type 0 where
  pub gateway_url : Str
  pub token : Str
  pub project_id : Str
  pub local_port : ℕ

-- What runHTTP does before it connects: it exits with a status, or runs the agent.
pub data Command : Type 0 where
  exits : ℕ → Command
  connects : Config → Command

unfoldable pub port_or_exit : Outcome ℤ → Option ℕ
port_or_exit (ok (pos n)) = if leb 1 n && leb n 65535 then some n else none
port_or_exit (ok (negsuc n)) = none
port_or_exit (err e) = none
port_or_exit panic = none

unfoldable pub with_flags : Flags → Option ℕ → Command
with_flags flags none = exits 1
with_flags flags (some port) = elim flags.token [
  | [] ↦ exits 1
  | c ∷ token ↦ elim flags.project [
    | [] ↦ exits 1
    | d ∷ project ↦ connects (record {
      gateway_url = flags.gateway;
      token = c ∷ token;
      project_id = d ∷ project;
      local_port = port;
    })
  ]
]

-- runHTTP, where `parse` is fs.Parse, which exits with status 2 where it fails.
unfoldable pub run_http :
    (Str → Str) → (Flags → List Str → Option Flags) → (Str → Outcome ℤ) → List Str → Command
unfolding extract_positional default_flags with_flags port_or_exit
run_http getenv parse atoi args =
    let (port_arg, rest) = extract_positional args in
    elim (parse (default_flags getenv) rest) [
      | none ↦ exits 2
      | some flags ↦ elim port_arg [
        | [] ↦ exits 1
        | c ∷ s ↦ with_flags flags (port_or_exit (atoi (c ∷ s)))
      ]
    ]

-- Either every argument is a flag, or the first that is not is taken out.
pub data Extracted : List Str → Str × List Str → Type 0 where
  all_flags : {args : List Str} → All (λ a. is_flag a ≡ true) args → Extracted args ([], args)
  taken :
      (before : List Str) (a : Str) (after : List Str)
      → All (λ x. is_flag x ≡ true) before
      → is_flag a ≡ false
      → Extracted (before ++ a ∷ after) (a, before ++ after)

Extracted-flag :
    (a : Str) (args : List Str) (r : Str × List Str)
    → is_flag a ≡ true
    → Extracted args r
    → Extracted (a ∷ args) (r.0, a ∷ r.1)
Extracted-flag a args r h (all_flags hs) = all_flags (h, hs)
Extracted-flag a args r h (taken before b after hs k) = taken (a ∷ before) b after (h, hs) k

-- The argument that extractPositional returns is the first that starts with no "-", and the rest
-- are the other arguments in their order; where all start with "-", it returns "" and all of them.
pub extract_positional_lem : (args : List Str) → Extracted args (extract_positional args)
unfolding extract_positional
extract_positional_lem [] = all_flags tt
extract_positional_lem (a ∷ args) = elim (Bool-cases (is_flag a)) [
  | inl e ↦
      rw (extract_positional, e)
        (Extracted-flag a args (extract_positional args) e (extract_positional_lem args))
  | inr e ↦ rw (extract_positional, e) (taken [] a args tt e)
]

-- The agent connects only with a port from 1 to 65535, a token and a project.
pub run_http_connects :
    (getenv : Str → Str) (parse : Flags → List Str → Option Flags) (atoi : Str → Outcome ℤ)
    (args : List Str) {c : Config}
    → run_http getenv parse atoi args ≡ connects c
    → (1 ≤ c.local_port) × (c.local_port ≤ 65535) × (c.token ≡ [] → ⊥) × (c.project_id ≡ [] → ⊥)
unfolding run_http with_flags port_or_exit
run_http_connects getenv parse atoi args h = ground arith
