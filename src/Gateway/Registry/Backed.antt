-- ===== src/Gateway/Registry/Backed.antt =====
-- The runs of a cluster of gateways, in single steps: the parts of add, remove and refreshLoop under
-- the lock, and their calls of Redis, each of which may fail, in whatever order they interleave.
-- Instances may stop at any time.
use gotra.Prelude.{
  ℕ, ◌+◌, ◌≤◌, ◌≡◌, refl, Str, Bool, true, false, ◌&&◌, none, some, List, [], ◌∷◌, ◌++◌, ◌==◌,
  ==_iff, ==_refl, ltb, subst, sym, str_eq, str_eq_refl, str_eq_iff, find, find-true, any, select,
  not, All, arith, Bool-cases, Option-cases, inl, inr,
}
use gotra.Prelude.Alls.{All-append, All-map, All-cons_if}
use gotra.Errors.{GoError, Sentinel, ok, err}
use gotra.Gateway.Registry.{
  Entry, Route, Cluster, Setting, local_lookup, owner_instance, publish, withdraw, live_route, hold,
  let_go, snapshot, wait, close_old, unrouted, without, set_node, is_current,
}

-- Instances without connections, and no routes.
abbrev pub idle : ℕ → Cluster
idle now = record { nodes = λ i. []; routes = []; closed = []; now = now; clustered = true }

-- An instance stops and loses its connections. What it has in Redis stays.
abbrev pub crash : ℕ → Cluster → Cluster
crash i s = record s { nodes = set_node i [] s.nodes }

-- The states that a cluster reaches, with the subdomains that `add` has stored at an instance and
-- the calls of SET that are under way.
pub data Reaches : List Setting → List Setting → Cluster → Type 0 where
  started : {now : ℕ} → Reaches [] [] (idle now)
  stored :
      {log under_way : List Setting} {s : Cluster} (i : ℕ) (sub : Str) (conn : ℕ)
      → Reaches log under_way s
      → Reaches ((i, sub) ∷ log) ((i, sub) ∷ under_way) (hold i sub conn s)
  ticked :
      {log under_way : List Setting} {s : Cluster} (i : ℕ)
      → Reaches log under_way s
      → Reaches log (snapshot i (s.nodes i) ++ under_way) s
  was_set :
      {log : List Setting} (before after : List Setting) {s : Cluster} (works : Bool) (i : ℕ)
      (sub : Str)
      → Reaches log (before ++ (i, sub) ∷ after) s
      → Reaches log (before ++ after) (publish works sub i s)
  removed :
      {log under_way : List Setting} {s : Cluster} (i : ℕ) (sub : Str) (conn : ℕ)
      → Reaches log under_way s
      → Reaches log under_way (let_go i sub conn s)
  was_deleted :
      {log under_way : List Setting} {s : Cluster} (works : Bool) (sub : Str)
      → Reaches log under_way s
      → Reaches log under_way (withdraw works sub s)
  crashed :
      {log under_way : List Setting} {s : Cluster} (i : ℕ)
      → Reaches log under_way s
      → Reaches log under_way (crash i s)
  passed :
      {log under_way : List Setting} {s : Cluster} (t : ℕ)
      → Reaches log under_way s
      → Reaches log under_way (wait t s)

-- `add` has stored the subdomain at the instance.
abbrev pub has_stored : List Setting → ℕ → Str → Bool
has_stored log i sub = any (λ (x : Setting). x.0 == i && str_eq x.1 sub) log

-- What holds of a route, of a SET under way, and of an entry.
record Known (log : List Setting) (now : ℕ) (r : Route) : Type 0 where
  by_owner : has_stored log r.owner r.sub ≡ true
  short : r.expires ≤ now + 90

abbrev Due : List Setting → Setting → Type 0
Due log x = has_stored log x.0 x.1 ≡ true

abbrev Placed : List Setting → ℕ → Entry → Type 0
Placed log i e = has_stored log i e.sub ≡ true

record Sound (log under_way : List Setting) (s : Cluster) : Type 0 where
  routes : All (Known log s.now) s.routes
  due : All (Due log) under_way
  placed : (i : ℕ) → All (Placed log i) (s.nodes i)

All-select :
    {A : Type 0} (P : A → Type 0) (p : A → Bool) (xs : List A) → All P xs → All P (select p xs)
All-select P p [] h = tt
All-select P p (x ∷ xs) h = All-cons_if P (p x) x (select p xs) (λ e. h.0) (All-select P p xs h.1)

All-front : {A : Type 0} (P : A → Type 0) (xs ys : List A) → All P (xs ++ ys) → All P xs × All P ys
All-front P [] ys h = (tt, h)
All-front P (x ∷ xs) ys h = let (a, b) = All-front P xs ys h.1 in ((h.0, a), b)

snapshot-Due :
    (log : List Setting) (i : ℕ) (es : List Entry)
    → All (Placed log i) es
    → All (Due log) (snapshot i es)
unfolding snapshot
snapshot-Due log i [] h = tt
snapshot-Due log i (e ∷ es) h = (h.0, snapshot-Due log i es h.1)

-- What an instance stores stays in the log.
grows :
    (log : List Setting) (x : Setting) (i : ℕ) (sub : Str)
    → has_stored log i sub ≡ true
    → has_stored (x ∷ log) i sub ≡ true
grows log x i sub h = ground (arith, h)

log-grows :
    {log under_way : List Setting} {s : Cluster} (x : Setting)
    → Sound log under_way s
    → Sound (x ∷ log) under_way s
log-grows {log} {under_way} {s} x h = record {
  routes =
      All-map (Known log s.now) (Known (x ∷ log) s.now) s.routes
        (λ r k. record { by_owner = grows log x r.owner r.sub k.by_owner; short = k.short })
        h.routes;
  due = All-map (Due log) (Due (x ∷ log)) under_way (λ y k. grows log x y.0 y.1 k) h.due;
  placed = λ i.
      All-map (Placed log i) (Placed (x ∷ log) i) (s.nodes i) (λ e k. grows log x i e.sub k)
        (h.placed i);
}

-- The entries of one instance change.
set_node-All :
    (P : ℕ → Entry → Type 0) (i : ℕ) (es : List Entry) (nodes : ℕ → List Entry)
    → All (P i) es
    → ((j : ℕ) → All (P j) (nodes j))
    → (j : ℕ) → All (P j) (set_node i es nodes j)
set_node-All P i es nodes h k j = elim (Bool-cases (j == i)) [
  | inl e ↦
      let same : j ≡ i = ground (arith, ==_iff j i) in
      rw e (subst (λ (x : ℕ). All (P x) es) (sym same) h)
  | inr e ↦ rw e (k j)
]

set_node-Sound :
    {log under_way : List Setting} {s : Cluster} (i : ℕ) (es : List Entry) (closed : List ℕ)
    → All (Placed log i) es
    → Sound log under_way s
    → Sound log under_way (record s { nodes = set_node i es s.nodes; closed = closed })
set_node-Sound {log} {s = s} i es closed h k = record {
  routes = k.routes;
  due = k.due;
  placed = set_node-All (Placed log) i es s.nodes h k.placed;
}

hold-Sound :
    {log under_way : List Setting} {s : Cluster} (i : ℕ) (sub : Str) (conn : ℕ)
    → Sound log under_way s
    → Sound ((i, sub) ∷ log) ((i, sub) ∷ under_way) (hold i sub conn s)
unfolding hold
hold-Sound {log} {under_way} {s} i sub conn h =
    let later = log-grows (i, sub) h in
    let new : has_stored ((i, sub) ∷ log) i sub ≡ true =
      ground (arith, ==_refl i, str_eq_refl sub) in
    let kept =
      All-select (Placed ((i, sub) ∷ log) i) (λ (e : Entry). not (str_eq e.sub sub)) (s.nodes i)
        (later.placed i) in
    let placed =
      set_node-Sound i (record { sub = sub; conn = conn } ∷ without sub (s.nodes i))
        (close_old (local_lookup s i sub) s.closed) (new, kept) later in
    record { routes = placed.routes; due = (new, placed.due); placed = placed.placed }

let_go-Sound :
    {log under_way : List Setting} {s : Cluster} (i : ℕ) (sub : Str) (conn : ℕ)
    → Sound log under_way s
    → Sound log under_way (let_go i sub conn s)
unfolding let_go
let_go-Sound {log} {s = s} i sub conn h =
    set_node-Sound i _ s.closed
      (elim (Bool-cases (is_current (local_lookup s i sub) conn)) [
        | inl e ↦ rw e (
            All-select (Placed log i) (λ (e : Entry). not (str_eq e.sub sub)) (s.nodes i)
              (h.placed i))
        | inr e ↦ rw e (h.placed i)
      ])
      h

All-unrouted :
    (log : List Setting) (now : ℕ) (sub : Str) (rs : List Route)
    → All (Known log now) rs
    → All (Known log now) (unrouted sub rs)
All-unrouted log now sub rs h =
    All-select (Known log now) (λ (r : Route). not (str_eq r.sub sub)) rs h

withdraw-Sound :
    {log under_way : List Setting} {s : Cluster} (works : Bool) (sub : Str)
    → Sound log under_way s
    → Sound log under_way (withdraw works sub s)
unfolding withdraw
withdraw-Sound {log} {s = s} works sub h = elim (Bool-cases (s.clustered && works)) [
  | inl e ↦ rw e (record {
    routes = All-unrouted log s.now sub s.routes h.routes;
    due = h.due;
    placed = h.placed;
  })
  | inr e ↦ rw e h
]

publish-Sound :
    {log : List Setting} (before after : List Setting) {s : Cluster} (works : Bool) (i : ℕ)
    (sub : Str)
    → Sound log (before ++ (i, sub) ∷ after) s
    → Sound log (before ++ after) (publish works sub i s)
unfolding publish
publish-Sound {log} before after {s} works i sub h =
    let (front, back) = All-front (Due log) before ((i, sub) ∷ after) h.due in
    let due = All-append (Due log) before after front back.1 in
    elim (Bool-cases (s.clustered && works)) [
      | inl e ↦ rw e (record {
        routes = (
          record { by_owner = back.0; short = omega arith },
          All-unrouted log s.now sub s.routes h.routes,
        );
        due = due;
        placed = h.placed;
      })
      | inr e ↦ rw e (record { routes = h.routes; due = due; placed = h.placed })
    ]

Sound-Reaches :
    {log under_way : List Setting} {s : Cluster} → Reaches log under_way s → Sound log under_way s
Sound-Reaches started = record { routes = tt; due = tt; placed = λ i. tt }
Sound-Reaches (stored i sub conn r) = hold-Sound i sub conn (Sound-Reaches r)
Sound-Reaches (ticked {log} {under_way} {s} i r) =
    let h = Sound-Reaches r in
    record {
      routes = h.routes;
      due =
          All-append (Due log) (snapshot i (s.nodes i)) under_way
            (snapshot-Due log i (s.nodes i) (h.placed i)) h.due;
      placed = h.placed;
    }
Sound-Reaches (was_set before after works i sub r) =
    publish-Sound before after works i sub (Sound-Reaches r)
Sound-Reaches (removed i sub conn r) = let_go-Sound i sub conn (Sound-Reaches r)
Sound-Reaches (was_deleted works sub r) = withdraw-Sound works sub (Sound-Reaches r)
Sound-Reaches (crashed {s = s} i r) = set_node-Sound i [] s.closed tt (Sound-Reaches r)
Sound-Reaches (passed {log} {s = s} t r) =
    let h = Sound-Reaches r in
    record {
      routes =
          All-map (Known log s.now) (Known log (s.now + t)) s.routes
            (λ r k. record { by_owner = k.by_owner; short = omega (arith, k.short) }) h.routes;
      due = h.due;
      placed = h.placed;
    }

All-find :
    {A : Type 0} (P : A → Type 0) (p : A → Bool) (xs : List A) {x : A}
    → All P xs
    → find p xs ≡ some x
    → P x
All-find P p [] h e = cc
All-find P p (x ∷ xs) {x = y} h e = elim (Bool-cases (p x)) [
  | inl k ↦ let same : x ≡ y = cc (rw k at e) in subst P same h.0
  | inr k ↦ All-find P p xs {x = y} h.1 (rw k at e)
]

expire :
    (log : List Setting) (now t : ℕ) (sub : Str) (rs : List Route)
    → 90 ≤ t
    → All (Known log now) rs
    → find (λ (r : Route). str_eq r.sub sub && ltb (now + t) r.expires) rs ≡ none
expire log now t sub [] h k = refl
expire log now t sub (r ∷ rs) h (k, ks) =
    let short = k.short in
    let late : ltb (now + t) r.expires ≡ false = ground arith in
    ground (arith, late, expire log now t sub rs h ks)

-- However the steps of add, remove and refreshLoop interleave, whichever calls of Redis fail and
-- whichever instances stop: an instance that ownerInstance names for a subdomain is one at which
-- add has stored a connection for it, and 90 seconds later, without a further SET, ownerInstance
-- names none for the subdomain.
pub owner_instance-stored :
    {log under_way : List Setting} {s : Cluster} (sub : Str) (i t : ℕ)
    → Reaches log under_way s
    → owner_instance none s sub ≡ ok i
    → 90 ≤ t
    → (has_stored log i sub ≡ true)
      × (owner_instance none (wait t s) sub ≡ err (GoError.sentinel Sentinel.no_tunnel))
unfolding owner_instance live_route
owner_instance-stored {log} {s = s} sub i t r h late =
    let sound = Sound-Reaches r in
    let expired = expire log s.now t sub s.routes late sound.routes in
    elim (Option-cases (live_route s sub)) [
      | inl e ↦ ground (arith, e)
      | inr (route, e) ↦
          let known =
            All-find (Known log s.now) (λ (r : Route). str_eq r.sub sub && ltb s.now r.expires)
              s.routes {x = route} sound.routes e in
          let same =
            find-true (λ (r : Route). str_eq r.sub sub && ltb s.now r.expires) s.routes {x = route}
              e in
          let owner = known.by_owner in
          (ground (arith, e, h, same, owner, str_eq_iff route.sub sub), ground (arith, expired))
    ]
