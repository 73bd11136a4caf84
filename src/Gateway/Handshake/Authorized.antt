-- ===== src/Gateway/Handshake/Authorized.antt =====
-- Which agents get a tunnel, and how a refused one leaves the registry.
use gotra.Prelude.{
  ℕ, ℤ, ◌≡◌, refl, ◌∙◌, sym, ap, subst, Str, Bool, false, Option, none, some, codes, str_eq, arith,
  any, ==_refl,
}
use gotra.Errors.{Outcome, ok}
use gotra.Store.{Member, Tunnel}
use gotra.Store.Action.{
  Env, World, statement, row_or, attempt, ignore, random_bytes, Attempt, got, failed,
}
use gotra.Store.Action.Laws.{bind_ok}
use gotra.Auth.Tokens.{generate_opaque_token, token_or_fail}
use gotra.Tunnels.{
  member_of, project_role, create_tunnel, insert_tunnel, set_status, valid_port, role_viewer,
}
use gotra.Gateway.Host.{public_url}
use gotra.Gateway.Registry.{Cluster, local_lookup, add}
use gotra.Gateway.Registry.Routes.{local_lookup-add, local_lookup-remove}
use gotra.Gateway.Handshake.{
  member_role, may_open, some_or_refuse, created_or_wrapped, minted_subdomain, new_subdomain,
  create_active, open_tunnel, announce,
}

some_or_refuse-ok :
    {A : Type 0} (message : Str) (o : Option A) (w : World) {a : A} {w' : World}
    → some_or_refuse message o w ≡ (ok a, w')
    → (o ≡ some a) × (w' ≡ w)
unfolding some_or_refuse
some_or_refuse-ok message none w h = ground arith
some_or_refuse-ok message (some a) w h = (ground arith, ground arith)

may_open-ok :
    (role : Str) (w : World) {x : Unit {0}} {w' : World}
    → may_open role w ≡ (ok x, w')
    → (str_eq role role_viewer ≡ false) × (w' ≡ w)
unfolding may_open
may_open-ok role w h = ground arith

module _ (env : Env) where
  role-ok :
      (user_id project_id : ℕ) (found : Attempt Str) (w : World) {v w' : World} {role : Str}
      → attempt (project_role env user_id project_id) w ≡ (ok found, v)
      → member_role found v ≡ (ok role, w')
      → (m : Member) × (member_of user_id project_id w.committed ≡ some m)
        × (m.role ≡ role)
        × (w'.committed ≡ w.committed)
  unfolding project_role statement row_or member_role
  role-ok user_id project_id (got r) w h k = ground arith
  role-ok user_id project_id (failed e) w h k = ground arith

  new_subdomain-keeps : (w : World) → (new_subdomain env w).1.committed ≡ w.committed
  unfolding new_subdomain minted_subdomain generate_opaque_token token_or_fail random_bytes
  new_subdomain-keeps w = ground arith

  made-ok :
      (project_id : ℕ) (url : Str) (port : ℕ) (made : Attempt Tunnel) (w : World) {v w' : World}
      {t : Tunnel}
      → attempt (create_tunnel env project_id url port) w ≡ (ok made, v)
      → created_or_wrapped made v ≡ (ok t, w')
      → (t.project_id ≡ project_id)
        × (t.public_url ≡ url)
        × (t.local_port ≡ port)
        × (any (λ (x : Tunnel). str_eq x.public_url url) w.committed.tunnels ≡ false)
  unfolding create_tunnel insert_tunnel statement row_or created_or_wrapped
  made-ok project_id url port (got x) w h k = ground arith
  made-ok project_id url port (failed e) w h k = ground arith

  same_pair :
      {A B : Type 0} {a a' : A} {b b' : B} {w w' : World}
      → ◌≡◌ {A = Outcome (A × B) × World} (ok (a, b), w) (ok (a', b'), w')
      → (a ≡ a') × (b ≡ b')
  same_pair h = (ground arith, ground arith)

  module _ (parse_token parse_uuid : Str → Option ℕ) (base : Str) where
    create_active-ok :
        (project_id port : ℕ) (w : World) {t : Tunnel} {sub : Str} {w' : World}
        → create_active env parse_token parse_uuid base project_id port w ≡ (ok (t, sub), w')
        → (t.project_id ≡ project_id)
          × (t.public_url ≡ public_url base sub)
          × (t.local_port ≡ port)
          × (any (λ (x : Tunnel). str_eq x.public_url t.public_url) w.committed.tunnels ≡ false)
    unfolding create_active
    create_active-ok project_id port w {t} {sub} {w'} h =
        let (s, w1, e1, k1) = bind_ok (new_subdomain env) _ w h in
        let kept : w1.committed ≡ w.committed =
          ap (λ r. r.1.committed) (sym e1) ∙ new_subdomain-keeps w in
        let (made, w2, e2, k2) =
          bind_ok (attempt (create_tunnel env project_id (public_url base s) port)) _ w1 k1 in
        let (x, w3, e3, k3) = bind_ok (created_or_wrapped made) _ w2 k2 in
        let (_, w4, e4, k4) = bind_ok (ignore (set_status env x.id (codes "active"))) _ w3 k3 in
        let (same_t, same_s) =
          same_pair {a = x} {a' = t} {b = s} {b' = sub} {w = w4} {w' = w'} k4 in
        let (a, b, c, d) = made-ok project_id (public_url base s) port made w1 e2 e3 in
        let url : t.public_url ≡ public_url base s =
          ap (λ (y : Tunnel). y.public_url) (sym same_t) ∙ b in
        (
          ap (λ (y : Tunnel). y.project_id) (sym same_t) ∙ a,
          url ∙ ap (public_url base) same_s,
          ap (λ (y : Tunnel). y.local_port) (sym same_t) ∙ c,
          subst (λ u. any (λ (x : Tunnel). str_eq x.public_url u) w.committed.tunnels ≡ false)
              (sym url) (rw kept at d),
        )

    -- Where the handshake gives an agent a tunnel, its token names a user who is a member of the
    -- project that it names and no viewer, the port was between 1 and 65535, and the tunnel is for
    -- that project and port, under the public URL of the subdomain, which no tunnel had.
    pub open_tunnel_sound :
        (token project : Str) (local_port : ℤ) (w : World) {t : Tunnel} {sub : Str} {w' : World}
        → open_tunnel env parse_token parse_uuid base token project local_port w ≡ (ok (t, sub), w')
        → (user_id project_id : ℕ) × (parse_token token ≡ some user_id)
          × (parse_uuid project ≡ some project_id)
          × ((m : Member) × (member_of user_id project_id w.committed ≡ some m)
              × (str_eq m.role role_viewer ≡ false))
          × (valid_port local_port ≡ some t.local_port)
          × (t.project_id ≡ project_id)
          × (t.public_url ≡ public_url base sub)
          × (any (λ (x : Tunnel). str_eq x.public_url t.public_url) w.committed.tunnels ≡ false)
    unfolding open_tunnel
    open_tunnel_sound token project local_port w {t} {sub} {w'} h =
        let (user_id, w1, e1, k1) =
          bind_ok (some_or_refuse (codes "invalid token") (parse_token token)) _ w h in
        let (project_id, w2, e2, k2) =
          bind_ok (some_or_refuse (codes "invalid project_id") (parse_uuid project)) _ w1 k1 in
        let (found, w3, e3, k3) = bind_ok (attempt (project_role env user_id project_id)) _ w2 k2 in
        let (role, w4, e4, k4) = bind_ok (member_role found) _ w3 k3 in
        let (_, w5, e5, k5) = bind_ok (may_open role) _ w4 k4 in
        let (port, w6, e6, k6) =
          bind_ok (some_or_refuse (codes "invalid local port") (valid_port local_port)) _ w5 k5 in
        let (named, same1) = some_or_refuse-ok (codes "invalid token") (parse_token token) w e1 in
        let (parsed, same2) =
          some_or_refuse-ok (codes "invalid project_id") (parse_uuid project) w1 e2 in
        let (m, member, same_role, same4) = role-ok user_id project_id found w2 e3 e4 in
        let (no_viewer, same5) = may_open-ok role w4 e5 in
        let (valid, same6) =
          some_or_refuse-ok (codes "invalid local port") (valid_port local_port) w5 e6 in
        let (a, b, c, d) = create_active-ok project_id port w6 {t = t} {sub = sub} {w' = w'} k6 in
        let start : w2.committed ≡ w.committed = ap (λ (v : World). v.committed) (same2 ∙ same1) in
        let same : w6.committed ≡ w.committed =
          ap (λ (v : World). v.committed) (same6 ∙ same5) ∙ same4 ∙ start in
        (
          user_id,
          project_id,
          named,
          parsed,
          (m, rw start at member, rw same_role no_viewer),
          valid ∙ ap some (sym c),
          a,
          b,
          rw same at d,
        )

    -- Where the reply to the agent cannot be written, register ends with the instance having no
    -- connection for the subdomain, whether Redis answers or not.
    pub announce_undone :
        (works : Bool) (i conn : ℕ) (s : Cluster) (t : Tunnel) (sub : Str)
        → local_lookup
            (announce env parse_token parse_uuid base works false i conn s (ok (t, sub))).1
            i
            sub
          ≡ none
    unfolding announce
    announce_undone works i conn s t sub =
        local_lookup-remove works i sub conn (add works i sub conn s)
        ∙ rw ((local_lookup-add works i sub conn s).0, ==_refl conn) refl
