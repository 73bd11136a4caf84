-- ===== src/Tunnels/Access.antt =====
-- Who may create and delete tunnels.
use gotra.Prelude.{
  ℕ, ℤ, ◌≡◌, sym, ap, ◌∙◌, Str, true, false, some, [], ◌∷◌, ◌++◌, ◌==◌, not, codes, str_eq, any,
  select, arith, Option-cases, inl, inr,
}
use gotra.Errors.{ok}
use gotra.Store.{Member, Tunnel, Request, drop_requests}
use gotra.Store.Action.{Env, World, statement, random_bytes, row_or}
use gotra.Store.Action.Laws.{bind_ok, spent}
use gotra.Auth.Tokens.{generate_opaque_token, token_or_fail}
use gotra.Billing.{
  Subscription, subscription_for, open_tunnels, plan_for, within_limit, check_tunnel_quota,
}
use gotra.Billing.Quota.{check_tunnel_quota_sound}
use gotra.Tunnels.{
  member_of, accessible, valid_port, insert_tunnel, delete_tunnel, role_viewer, project_role,
  create_tunnel, get_with_access, delete_by_id, minted, gen_public_url, check_role, check_quota,
  create_at, create, delete,
}

module _ (env : Env) where
  project_role-ok :
      (user_id project_id : ℕ) (w : World) {role : Str} {w' : World}
      → project_role env user_id project_id w ≡ (ok role, w')
      → (m : Member) × (member_of user_id project_id w.committed ≡ some m)
        × (m.role ≡ role)
        × (w' ≡ spent w)
  unfolding project_role statement row_or
  project_role-ok user_id project_id w h = ground arith

  check_role-ok :
      (role : Str) (w : World) {x : Unit {0}} {w' : World}
      → check_role env role w ≡ (ok x, w')
      → (str_eq role role_viewer ≡ false) × (w' ≡ w)
  unfolding check_role
  check_role-ok role w h = ground arith

  gen_public_url-ok :
      (w : World) {url : Str} {w' : World}
      → gen_public_url env w ≡ (ok url, w')
      → w'.committed ≡ w.committed
  unfolding gen_public_url minted generate_opaque_token token_or_fail random_bytes
  gen_public_url-ok w h = ground arith

  create_tunnel-ok :
      (project_id : ℕ) (url : Str) (port : ℕ) (w : World) {t : Tunnel} {w' : World}
      → create_tunnel env project_id url port w ≡ (ok t, w')
      → (w'.committed ≡ record w.committed { tunnels = w.committed.tunnels ++ t ∷ [] })
        × (any (λ (x : Tunnel). str_eq x.public_url t.public_url) w.committed.tunnels ≡ false)
        × (t.project_id ≡ project_id)
        × (t.local_port ≡ port)
        × (t.status ≡ codes "created")
  unfolding create_tunnel insert_tunnel statement row_or
  create_tunnel-ok project_id url port w h = ground arith

  -- Where Create with the quota of billing returns a tunnel, the port was between 1 and 65535, the
  -- user is a member of the project and no viewer, the open tunnels of the user's own primary
  -- workspace were below the limit of its plan, and the one change to the tables is the new
  -- tunnel, for that project and port, with a public URL that no tunnel had.
  pub create_sound :
      (user_id project_id : ℕ) (local_port : ℤ) (w : World) {t : Tunnel} {w' : World}
      → create env (some (check_tunnel_quota env)) user_id project_id local_port w ≡ (ok t, w')
      → (valid_port local_port ≡ some t.local_port)
        × ((m : Member) × (member_of user_id project_id w.committed ≡ some m)
            × (str_eq m.role role_viewer ≡ false))
        × ((sub : Subscription) × (subscription_for user_id w.committed ≡ some sub)
            × (within_limit
                  (open_tunnels sub.workspace_id w.committed)
                  (plan_for sub.plan).max_tunnels
                ≡ true))
        × (t.project_id ≡ project_id)
        × (t.status ≡ codes "created")
        × (any (λ (x : Tunnel). str_eq x.public_url t.public_url) w.committed.tunnels ≡ false)
        × (w'.committed ≡ record w.committed { tunnels = w.committed.tunnels ++ t ∷ [] })
  unfolding create create_at check_quota
  create_sound user_id project_id local_port w {t} {w'} h =
      elim (Option-cases (valid_port local_port)) [
        | inl e ↦ ground (arith, e, h)
        | inr (port, e) ↦
            let k = rw e at h in
            let (role, w1, e1, k1) = bind_ok (project_role env user_id project_id) _ w k in
            let (_, w2, e2, k2) = bind_ok (check_role env role) _ w1 k1 in
            let (_, w3, e3, k3) = bind_ok (check_tunnel_quota env user_id) _ w2 k2 in
            let (url, w4, e4, k4) = bind_ok (gen_public_url env) _ w3 k3 in
            let (m, member, same_role, same1) = project_role-ok user_id project_id w e1 in
            let (role_ok, same2) = check_role-ok role w1 e2 in
            let (sub, subscribed, within, same3) = check_tunnel_quota_sound env user_id w2 e3 in
            let same4 = gen_public_url-ok w3 e4 in
            let (tables, fresh, project, port', status) =
              create_tunnel-ok project_id url port w4 {t = t} {w' = w'} k4 in
            let start : w2.committed ≡ w.committed =
              ap (λ (v : World). v.committed) (same2 ∙ same1) in
            let same : w4.committed ≡ w.committed = same4 ∙ same3 ∙ start in
            (
              e ∙ ap some (sym port'),
              (m, member, rw same_role role_ok),
              (sub, rw start at subscribed, rw start at within),
              project,
              status,
              rw same at fresh,
              rw same at tables,
            )
      ]

  -- Where Delete returns nil, the tunnel was there, the user is a member of its project and no
  -- viewer, and the one change to the tables is that the tunnel is gone, with its requests and
  -- what the foreign keys make of the rows that refer to them.
  pub delete_sound :
      (user_id tunnel_id : ℕ) (w : World) {x : Unit {0}} {w' : World}
      → delete env user_id tunnel_id w ≡ (ok x, w')
      → ((t : Tunnel) × (role : Str) × (accessible user_id tunnel_id w.committed ≡ some (t, role))
          × (str_eq role role_viewer ≡ false))
        × (w'.committed
            ≡ drop_requests
                (λ (r : Request). r.tunnel_id == tunnel_id)
                (record w.committed {
                  tunnels = select (λ (t : Tunnel). not (t.id == tunnel_id)) w.committed.tunnels;
                }))
  unfolding delete get_with_access check_role delete_by_id delete_tunnel statement row_or
  delete_sound user_id tunnel_id w h = ground arith
