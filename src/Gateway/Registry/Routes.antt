-- ===== src/Gateway/Registry/Routes.antt =====
-- What add and remove do to the look-ups and to the routes.
use gotra.Prelude.{
  ℕ, ◌≡◌, refl, Str, Bool, true, false, ◌&&◌, none, some, List, [], ◌∷◌, ◌==◌, ==_refl, ==_iff, ltb,
  if◌then◌else◌, str_eq, str_eq_refl, str_eq_iff, find, arith,
}
use gotra.Errors.{GoError, Sentinel, ok, err}
use gotra.Gateway.Registry.{
  Entry, Route, Cluster, local_lookup, owner_instance, hold, let_go, add, remove, publish, withdraw,
  live_route, without, unrouted, close_old, has_sub, is_current,
}

find-without : (sub : Str) (es : List Entry) → find (has_sub sub) (without sub es) ≡ none
find-without sub [] = refl
find-without sub (e ∷ es) = ground (arith, find-without sub es)

pub find-without_other :
    (sub sub' : Str) (es : List Entry)
    → str_eq sub' sub ≡ false
    → find (has_sub sub') (without sub es) ≡ find (has_sub sub') es
find-without_other sub sub' [] h = refl
find-without_other sub sub' (e ∷ es) h = ground (
  arith,
  find-without_other sub sub' es h,
  str_eq_iff e.sub sub,
  str_eq_iff e.sub sub',
  str_eq_iff sub' sub,
)

-- After `add`, the instance looks the subdomain up as the new connection, the connection that it
-- had is closed, and where Redis works its route leads to the instance.
pub local_lookup-add :
    (works : Bool) (i : ℕ) (sub : Str) (conn : ℕ) (s : Cluster)
    → let s' = add works i sub conn s in
      (local_lookup s' i sub ≡ some conn)
      × (s'.closed ≡ close_old (local_lookup s i sub) s.closed)
      × (owner_instance none s' sub ≡ (
          if s.clustered
          then (if works then ok i else owner_instance none s sub)
          else err (GoError.sentinel Sentinel.no_tunnel)))
unfolding add hold publish local_lookup owner_instance live_route
local_lookup-add works i sub conn s =
    (ground (arith, ==_refl i, str_eq_refl sub), ground arith, ground (arith, str_eq_refl sub))

-- `add` and `remove` leave the look-ups of other subdomains and of other instances as they were.
pub local_lookup-other :
    (works : Bool) (i j : ℕ) (sub sub' : Str) (conn : ℕ) (s : Cluster)
    → (j == i && str_eq sub' sub) ≡ false
    → (local_lookup (add works i sub conn s) j sub' ≡ local_lookup s j sub')
      × (local_lookup (remove works i sub conn s) j sub' ≡ local_lookup s j sub')
unfolding add hold remove let_go publish withdraw local_lookup
local_lookup-other works i j sub sub' conn s h = (
  ground (
    arith,
    find-without_other sub sub' (s.nodes i),
    ==_iff j i,
    str_eq_iff sub' sub,
    str_eq_iff sub sub',
  ),
  ground (arith, find-without_other sub sub' (s.nodes i), ==_iff j i, str_eq_iff sub' sub),
)

-- `remove` takes an entry away only if it is the one of the connection that is removed.
pub local_lookup-remove :
    (works : Bool) (i : ℕ) (sub : Str) (conn : ℕ) (s : Cluster)
    → local_lookup (remove works i sub conn s) i sub
      ≡ (if is_current (local_lookup s i sub) conn then none else local_lookup s i sub)
unfolding remove let_go withdraw local_lookup
local_lookup-remove works i sub conn s = ground (arith, find-without sub (s.nodes i), ==_refl i)

find-unrouted :
    (now : ℕ) (sub : Str) (rs : List Route)
    → find (λ (r : Route). str_eq r.sub sub && ltb now r.expires) (unrouted sub rs) ≡ none
find-unrouted now sub [] = refl
find-unrouted now sub (r ∷ rs) = ground (arith, find-unrouted now sub rs)

-- Where Redis works, `remove` withdraws the route of the subdomain, also where the entry is that
-- of another connection and stays.
pub owner_instance-remove :
    (i : ℕ) (sub : Str) (conn : ℕ) (s : Cluster)
    → owner_instance none (remove true i sub conn s) sub ≡ err (GoError.sentinel Sentinel.no_tunnel)
unfolding remove let_go withdraw owner_instance live_route
owner_instance-remove i sub conn s = ground (arith, find-unrouted s.now sub s.routes)
