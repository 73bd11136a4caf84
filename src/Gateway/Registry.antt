-- ===== src/Gateway/Registry.antt =====
-- services/internal/gateway/registry.go: the registries of all gateway instances, and the routes
-- in Redis by which they find each other. A connection is the address of its AgentConn, an
-- instance its identifier; both are numbers. A route is kept under its subdomain, where the code
-- has the key "gw:route:" before it.
pub mod Routes
pub mod Backed
use gotra.Prelude.{
  ℕ, ◌+◌, Str, Bool, true, false, ◌&&◌, not, Option, none, some, List, [], ◌∷◌, ◌++◌, ◌==◌, ltb,
  if◌then◌else◌, str_eq, find, select, any,
}
use gotra.Errors.{GoError, Sentinel, Outcome, ok, err}

-- An entry of Registry.bySub
pub record Entry : Type 0 where
  pub sub : Str
  pub conn : ℕ

-- The value of a route key with the time at which it expires.
pub record Route : Type 0 where
  pub sub : Str
  pub owner : ℕ
  pub expires : ℕ

-- The instances with their entries, Redis, and the connections on which `close` was called.
pub record Cluster : Type 0 where
  pub nodes : ℕ → List Entry
  pub routes : List Route
  pub closed : List ℕ
  pub now : ℕ
  pub clustered : Bool

-- routeTTL, in seconds
abbrev pub route_ttl : ℕ
route_ttl = 90

abbrev pub conn_of : Option Entry → Option ℕ
conn_of none = none
conn_of (some e) = some e.conn

abbrev pub has_sub : Str → Entry → Bool
has_sub sub e = str_eq e.sub sub

-- localLookup
unfoldable pub local_lookup : Cluster → ℕ → Str → Option ℕ
local_lookup s i sub = conn_of (find (has_sub sub) (s.nodes i))

abbrev pub without : Str → List Entry → List Entry
without sub es = select (λ (e : Entry). not (str_eq e.sub sub)) es

abbrev pub set_node : ℕ → List Entry → (ℕ → List Entry) → ℕ → List Entry
set_node i es nodes j = if j == i then es else nodes j

-- The routes without the one of a subdomain: DEL.
abbrev pub unrouted : Str → List Route → List Route
unrouted sub rs = select (λ (r : Route). not (str_eq r.sub sub)) rs

abbrev pub close_old : Option ℕ → List ℕ → List ℕ
close_old none closed = closed
close_old (some c) closed = c ∷ closed

-- SET of the route, where there is a client and the call does not fail.
unfoldable pub publish : Bool → Str → ℕ → Cluster → Cluster
publish works sub i s =
    if s.clustered && works
    then record s {
      routes = record { sub = sub; owner = i; expires = s.now + route_ttl } ∷ unrouted sub s.routes;
    }
    else s

-- DEL of the route, where there is a client and the call does not fail.
unfoldable pub withdraw : Bool → Str → Cluster → Cluster
withdraw works sub s =
    if s.clustered && works then record s { routes = unrouted sub s.routes } else s

-- The part of add under the lock: the old connection is closed and replaced.
unfoldable pub hold : ℕ → Str → ℕ → Cluster → Cluster
unfolding local_lookup
hold i sub conn s = record s {
  nodes = set_node i (record { sub = sub; conn = conn } ∷ without sub (s.nodes i)) s.nodes;
  closed = close_old (local_lookup s i sub) s.closed;
}

-- add, at the instance `i`
unfoldable pub add : Bool → ℕ → Str → ℕ → Cluster → Cluster
unfolding publish hold
add works i sub conn s = publish works sub i (hold i sub conn s)

abbrev pub is_current : Option ℕ → ℕ → Bool
is_current none conn = false
is_current (some c) conn = c == conn

-- The part of remove under the lock.
unfoldable pub let_go : ℕ → Str → ℕ → Cluster → Cluster
unfolding local_lookup
let_go i sub conn s = record s {
  nodes =
      set_node i
        (if is_current (local_lookup s i sub) conn then without sub (s.nodes i) else s.nodes i)
        s.nodes;
}

-- remove, at the instance `i`
unfoldable pub remove : Bool → ℕ → Str → ℕ → Cluster → Cluster
unfolding withdraw let_go
remove works i sub conn s = withdraw works sub (let_go i sub conn s)

-- The route of a subdomain that has not expired.
unfoldable pub live_route : Cluster → Str → Option Route
live_route s sub = find (λ (r : Route). str_eq r.sub sub && ltb s.now r.expires) s.routes

-- ownerInstance, where `fault` is the error of the driver
unfoldable pub owner_instance : Option ℕ → Cluster → Str → Outcome ℕ
unfolding live_route
owner_instance fault s sub =
    if s.clustered
    then elim fault [
      | some n ↦ err (GoError.library n)
      | none ↦ elim (live_route s sub) [
        | none ↦ err (GoError.sentinel Sentinel.no_tunnel)
        | some r ↦ ok r.owner
      ]
    ]
    else err (GoError.sentinel Sentinel.no_tunnel)

-- A SET that is under way: the instance and the subdomain.
abbrev pub Setting : Type 0
Setting = ℕ × Str

-- A tick of refreshLoop under the lock: one SET for every entry of the instance.
unfoldable pub snapshot : ℕ → List Entry → List Setting
snapshot i [] = []
snapshot i (e ∷ es) = (i, e.sub) ∷ snapshot i es

-- Time passes.
abbrev pub wait : ℕ → Cluster → Cluster
wait t s = record s { now = s.now + t }
