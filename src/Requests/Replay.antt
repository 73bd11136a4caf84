-- ===== src/Requests/Replay.antt =====
-- services/internal/requests/service.go: List, Get and Replay. The HTTP client is an argument: the
-- status and the body that it reads for a request to the gateway, or its error.
use gotra.Prelude.{
  lacks-append, cut_byte-none, trim_prefix, trim_prefix-append, trim_prefix-other, has_prefix-lacks,
  ℕ, ℤ, ◌≡◌, refl, ◌∙◌, ap, Str, true, Option, none, some, List, [], ◌∷◌, ◌++◌, ◌==◌, codes,
  cut_byte, lacks, if◌then◌else◌, take, arith,
}
use gotra.Errors.{Outcome}
use gotra.Store.{ModifiedRequest}
use gotra.Store.Action.{Env, M, pure, lift, ◌>>=◌}
use gotra.Gateway.Host.{public_url, tunnel_host, captured_path, forward_path}
use gotra.Gateway.Host.Names.{captured_path-forward_path}
use gotra.Requests.{Summary, Detail, ReplayContext}
use gotra.Requests.Repository.{list_for_project, get_for_user, get_replay_context, save_replay}

-- ReplayInput, where a missing field is no override.
pub record ReplayInput : Type 0 where
  pub method : Option Str
  pub path : Option Str
  pub headers : Option (List (Str × List Str))
  pub body : Option Str

-- ReplayResult
pub record ReplayResult : Type 0 where
  pub replay_id : ℕ
  pub status : ℤ
  pub body : Str
  pub duration_ms : ℕ

-- What Replay gives net/http: the method, the text of the URL and the body for
-- http.NewRequestWithContext, and the Host and the headers that it sets on the result. What net/http
-- makes of them is the argument `send`.
pub record Outgoing : Type 0 where
  pub method : Str
  pub url : Str
  pub host : Str
  pub headers : List (Str × List Str)
  pub body : Str

-- `if in.Method != nil && *in.Method != ""`
unfoldable pub override : Str → Option Str → Str
override original none = original
override original (some []) = original
override original (some (c ∷ s)) = c ∷ s

abbrev pub override_any : {A : Type 0} → A → Option A → A
override_any original none = original
override_any original (some x) = x

-- The path with the query.
unfoldable pub original_path : Str → Str → Str
original_path path [] = path
original_path path (c ∷ query) = path ++ b'?' ∷ c ∷ query

unfoldable pub until_slash : Str → Option (Str × Str) → Str
until_slash u none = u
until_slash u (some (host, rest)) = host

-- hostFromPublicURL
unfoldable pub host_from_public_url : Str → Str
unfolding until_slash trim_prefix
host_from_public_url u =
    let v = trim_prefix (trim_prefix u (codes "https://")) (codes "http://") in
    until_slash v (cut_byte b'/' v)

-- strings.TrimRight(s, "/")
unfoldable pub cons_unslashed : ℕ → Str → Str
cons_unslashed c [] = if c == b'/' then [] else c ∷ []
cons_unslashed c (d ∷ s) = c ∷ d ∷ s

unfoldable pub trim_slashes : Str → Str
unfolding cons_unslashed
trim_slashes [] = []
trim_slashes (c ∷ s) = cons_unslashed c (trim_slashes s)

-- 32 << 20
abbrev pub max_body : ℕ
max_body = 33554432

-- The request of Replay, from the stored one and the overrides.
unfoldable pub modified_of : ReplayContext → ReplayInput → ModifiedRequest
unfolding override original_path
modified_of rc input = record {
  method = override rc.method input.method;
  path = override (original_path rc.path rc.query) input.path;
  headers = override_any rc.headers input.headers;
  body = override_any rc.body input.body;
}

unfoldable pub outgoing_of : Str → ReplayContext → ModifiedRequest → Outgoing
unfolding host_from_public_url trim_slashes
outgoing_of gateway_url rc m = record {
  method = m.method;
  url = trim_slashes gateway_url ++ m.path;
  host = host_from_public_url rc.tunnel_public_url;
  headers = m.headers;
  body = m.body;
}

module _ (env : Env) where
  -- List
  unfoldable pub list : ℕ → ℕ → ℤ → M (List Summary)
  list user_id project_id limit = list_for_project env user_id project_id limit

  -- Get
  unfoldable pub get : ℕ → ℕ → M Detail
  get user_id request_id = get_for_user env user_id request_id

  -- Replay, with cfg.GatewayInternalURL, the client and the time that it took.
  unfoldable pub replay :
      Str → (Outgoing → Outcome (ℤ × Str)) → ℕ → ℕ → ℕ → ReplayInput → M ReplayResult
  unfolding modified_of outgoing_of
  replay gateway_url send elapsed user_id request_id input = do
    rc ← get_replay_context env user_id request_id
    (status, body) ← lift (send (outgoing_of gateway_url rc (modified_of rc input)))
    id ←
        save_replay env rc.request_id rc.project_id (modified_of rc input) status
          (take max_body body) elapsed
    pure (record {
      replay_id = id;
      status = status;
      body = take max_body body;
      duration_ms = elapsed;
    })

lacks-tunnel_host :
    (base sub : Str)
    → lacks b'/' base ≡ true
    → lacks b'/' sub ≡ true
    → lacks b'/' (tunnel_host base sub) ≡ true
unfolding lacks
lacks-tunnel_host base sub h k = ground (arith, lacks-append b'/' sub (b'.' ∷ base))

-- The Host header of a replay is the host of the tunnel that the gateway gave the public URL for,
-- where its names have no slash.
pub host_from_public_url-public_url :
    (base sub : Str)
    → lacks b'/' base ≡ true
    → lacks b'/' sub ≡ true
    → host_from_public_url (public_url base sub) ≡ tunnel_host base sub
unfolding host_from_public_url until_slash lacks
host_from_public_url-public_url base sub h k =
    let slashless = lacks-tunnel_host base sub h k in
    rw
      (
        host_from_public_url,
        trim_prefix-append (codes "https://") (tunnel_host base sub),
        trim_prefix-other (tunnel_host base sub) (codes "http://")
            (has_prefix-lacks b'/' (tunnel_host base sub) (codes "http://") slashless refl),
        cut_byte-none b'/' (tunnel_host base sub) slashless,
      )
      refl

-- Replaying a captured request sends the path and the query that the public request had, where the
-- path has no question mark.
pub modified_of-captured :
    (rc : ReplayContext) (path query : Str)
    → lacks b'?' path ≡ true
    → (rc.path, rc.query) ≡ captured_path (forward_path path query)
    → (modified_of rc (record { method = none; path = none; headers = none; body = none })).path
      ≡ forward_path path query
unfolding modified_of override original_path forward_path
modified_of-captured rc path query h e =
    original_path-forward_path rc.path rc.query
    ∙ ap {A = Str × Str} (λ x. forward_path x.0 x.1) (e ∙ captured_path-forward_path path query h)
  where
    original_path-forward_path : (p q : Str) → original_path p q ≡ forward_path p q
    original_path-forward_path p [] = refl
    original_path-forward_path p (c ∷ q) = refl
