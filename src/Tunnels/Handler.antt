-- ===== src/Tunnels/Handler.antt =====
-- services/internal/tunnels/handler.go: the four endpoints, on the service. `parse_uuid` is
-- uuid.Parse, and a body is what ShouldBindJSON made of it.
use gotra.Prelude.{ℕ, ℤ, ◌≡◌, Str, String, false, not, Option, some, List, ◌==◌, str_eq, select}
use gotra.Errors.{GoError, Sentinel, Outcome, ok}
use gotra.Store.{Tunnel, Request, drop_requests}
use gotra.Store.Action.{Env, World, M, pure, ◌>>=◌, Attempt}
use gotra.Web.{
  Claims, Answer, success, refusal, literal, error_text, current_user_id, when_is, conclude,
  with_id, with_body, bad_request,
}
use gotra.Web.Laws.{
  Refuses, conclude_success, with_id_success, when_is-NoSuccess, refusal-NoSuccess,
}
use gotra.Tunnels.{get_with_access, list, create, delete, accessible, role_viewer}
use gotra.Tunnels.Access.{delete_sound}

-- writeError
unfoldable pub write_error : {A : Type 0} → GoError → Outcome (Answer A)
write_error e = when_is e Sentinel.tunnels_not_found (refusal 404 (literal "not found")) (
    when_is e Sentinel.tunnels_forbidden (refusal 403 (error_text e)) (
      when_is e Sentinel.quota_exceeded
        (refusal 402 (literal "tunnel limit reached for your plan — upgrade in Billing"))
        (ok (refusal 500 (literal "internal error")))))

-- The body of createTunnel.
pub record CreateRequest : Type 0 where
  pub project_id : Str
  pub local_port : ℤ

module _ (env : Env) (parse_uuid : Str → Option ℕ) where
  -- Service.Get
  unfoldable pub get : ℕ → ℕ → M Tunnel
  get user_id tunnel_id = do (t, _) ← get_with_access env user_id tunnel_id; pure t

  -- listTunnels
  unfoldable pub list_tunnels : Option Claims → Str → M (Answer (List Tunnel))
  list_tunnels claims project_id =
      with_id "project_id query parameter is required" (parse_uuid project_id)
        (λ id. conclude write_error (success 200) (list env (current_user_id claims) id))

  -- createTunnel
  unfoldable pub create_tunnel_at :
      Option (ℕ → M (Unit {0})) → Option Claims → Attempt CreateRequest → M (Answer Tunnel)
  create_tunnel_at quota claims body = with_body bad_request body (λ (req : CreateRequest).
      with_id "invalid project_id" (parse_uuid req.project_id) (λ id.
        conclude write_error (success 201)
          (create env quota (current_user_id claims) id req.local_port)))

  -- getTunnel
  unfoldable pub get_tunnel : Option Claims → Str → M (Answer Tunnel)
  unfolding get
  get_tunnel claims id =
      with_id "invalid tunnel id" (parse_uuid id)
        (λ id. conclude write_error (success 200) (get (current_user_id claims) id))

  -- deleteTunnel
  unfoldable pub delete_tunnel_at : Option Claims → Str → M (Answer String)
  delete_tunnel_at claims id = with_id "invalid tunnel id" (parse_uuid id) (λ id.
      conclude write_error (λ _. success 200 "deleted") (delete env (current_user_id claims) id))

write_error-Refuses : {A : Type 0} → Refuses {B = A} write_error
unfolding write_error
write_error-Refuses e =
    when_is-NoSuccess e _ _ _ _
      (when_is-NoSuccess e _ _ _ _ (when_is-NoSuccess e _ _ _ _ (refusal-NoSuccess _ _)))

module _ (env : Env) (parse_uuid : Str → Option ℕ) where
  -- Where DELETE of a tunnel answers with a success, the request names a tunnel that was there, its
  -- user is a member of the tunnel's project and no viewer, and the one change to the tables is
  -- that the tunnel is gone, with its requests and what the foreign keys make of the rows
  -- that refer to them.
  pub delete_tunnel_at_sound :
      (claims : Option Claims) (text : Str) (w : World) {status : ℕ} {body : String} {w' : World}
      → delete_tunnel_at env parse_uuid claims text w ≡ (ok (success status body), w')
      → (id : ℕ) × (parse_uuid text ≡ some id)
        × ((t : Tunnel) × (role : Str) × (accessible (current_user_id claims) id w.committed
              ≡ some (t, role))
            × (str_eq role role_viewer ≡ false))
        × (w'.committed
            ≡ drop_requests
                (λ (r : Request). r.tunnel_id == id)
                (record w.committed {
                  tunnels = select (λ (t : Tunnel). not (t.id == id)) w.committed.tunnels;
                }))
  unfolding delete_tunnel_at
  delete_tunnel_at_sound claims text w h =
      let (id, named, k) = with_id_success "invalid tunnel id" (parse_uuid text) _ w h in
      let (x, runs, _) =
        conclude_success write_error _ (delete env (current_user_id claims) id) w
          write_error-Refuses k in
      let (access, change) = delete_sound env (current_user_id claims) id w runs in
      (id, named, access, change)
