-- ===== src/Gateway/Public/Anywhere.antt =====
-- A public request gets the response of the tunnel's agent, whichever instance it arrives at.
use gotra.Prelude.{
  ℕ, ◌≡◌, refl, Str, Option, none, some, codes, ◌≢◌, List, [], ◌∷◌, ◌++◌, arith, ◌⊎◌, inl, inr,
}
use gotra.Errors.{GoError, Outcome, ok, err, panic}
use gotra.Store.Action.{Attempt, got}
use gotra.Gateway.Host.{subdomain_from_host}
use gotra.Gateway.Message.{Request, Response, ClusterRequest, ClusterResponse}
use gotra.Gateway.Registry.{Cluster, local_lookup, owner_instance}
use gotra.Gateway.Public.{
  PublicRequest, http_error, no_active_tunnel, written, write_pointer, forwarded, serve_locally,
  handle_cluster_request, cluster_reply, forward_remote, awaited, reply_or_error, answer_remote,
  through_owner, route, with_body, handle_public,
}

owner_instance-answers :
    (fault : Option ℕ) (s : Cluster) (sub : Str) → owner_instance fault s sub ≢ panic
unfolding owner_instance
owner_instance-answers fault s sub = ground arith

module _ (error_text : GoError → Str) (forward : ℕ → Request → Attempt Response)
    (remote : ℕ → ClusterRequest → Attempt ClusterResponse) (s : Cluster)
    (transport : (i : ℕ) (m : ClusterRequest)
      → remote i m ≡ got (handle_cluster_request error_text forward s i m)) where
  through_owner-serves :
      (sub : Str) (req : Request) (i conn : ℕ)
      → local_lookup s i sub ≡ some conn
      → through_owner error_text forward remote sub req (ok i)
        ≡ written (serve_locally error_text forward conn req)
  unfolding through_owner forward_remote awaited reply_or_error answer_remote write_pointer
      handle_cluster_request cluster_reply
  through_owner-serves sub req i conn h =
      rw (transport i (record { subdomain = sub; req = req })) (rw h refl)

  -- The reply of an instance that the route names and that has no connection.
  through_owner-stale :
      (sub : Str) (req : Request) (i : ℕ)
      → local_lookup s i sub ≡ none
      → through_owner error_text forward remote sub req (ok i)
        ≡ ok (
            http_error 502
              (codes "tunnel error: " ++ error_text (GoError.text (no_active_tunnel sub))))
  unfolding through_owner forward_remote awaited reply_or_error answer_remote handle_cluster_request
      cluster_reply no_active_tunnel
  through_owner-stale sub req i h =
      rw (transport i (record { subdomain = sub; req = req })) (rw h refl)

  -- An outcome is what serveLocally makes of the request for the connection of an instance, or
  -- where the instance has none, the text.
  abbrev pub ServedAt : ℕ → Str → Request → Str → Outcome Response → Type 0
  ServedAt i sub req text o =
      ((conn : ℕ) × (local_lookup s i sub ≡ some conn)
        × (o ≡ written (serve_locally error_text forward conn req)))
      ⊎ (local_lookup s i sub ≡ none) × (o ≡ ok (http_error 502 text))

  -- The answer to a request at the instance `j`: that of its own connection, else that of the
  -- instance that ownerInstance names, else "no active tunnel".
  abbrev pub Answered : Option ℕ → ℕ → Str → Request → Outcome Response → Type 0
  Answered fault j sub req o =
      ((conn : ℕ) × (local_lookup s j sub ≡ some conn)
        × (o ≡ written (serve_locally error_text forward conn req)))
      ⊎ (local_lookup s j sub ≡ none)
        × (((i : ℕ) × (owner_instance fault s sub ≡ ok i)
              × ServedAt i sub req
                  (codes "tunnel error: " ++ error_text (GoError.text (no_active_tunnel sub))) o)
            ⊎ ((e : GoError) × (owner_instance fault s sub ≡ err e)
                × (o ≡ ok (http_error 502 (no_active_tunnel sub)))))

  through_owner-ServedAt :
      (sub : Str) (req : Request) (i : ℕ) (l : Option ℕ)
      → local_lookup s i sub ≡ l
      → ServedAt i sub req
          (codes "tunnel error: " ++ error_text (GoError.text (no_active_tunnel sub)))
          (through_owner error_text forward remote sub req (ok i))
  through_owner-ServedAt sub req i none h = inr (h, through_owner-stale sub req i h)
  through_owner-ServedAt sub req i (some conn) h =
      inl (conn, h, through_owner-serves sub req i conn h)

  route-Answered :
      (fault : Option ℕ) (j : ℕ) (sub : Str) (req : Request) (l : Option ℕ) (o : Outcome ℕ)
      → local_lookup s j sub ≡ l
      → owner_instance fault s sub ≡ o
      → Answered fault j sub req (route error_text forward remote fault s j sub req)
  unfolding route through_owner
  route-Answered fault j sub req (some conn) o h k = rw (route, h) (inl (conn, refl, refl))
  route-Answered fault j sub req none (ok i) h k =
      rw (route, h, k)
        (inr (refl, inl (i, refl, through_owner-ServedAt sub req i (local_lookup s i sub) refl)))
  route-Answered fault j sub req none (err e) h k =
      rw (route, h, k) (inr (refl, inr (e, refl, refl)))
  route-Answered fault j sub req none panic h k = absurd (owner_instance-answers fault s sub k)

  -- In every state of the registries and of Redis, and whether Redis answers the look-up or not,
  -- where a message to an instance is delivered and answered as handleClusterRequest answers it: a
  -- public request with a body for a subdomain gets what serveLocally makes of it for the
  -- connection that the instance it arrives at has for this subdomain. Without one, it gets this
  -- from the instance that ownerInstance names, or "tunnel error" where that has no connection for
  -- the subdomain either; and "no active tunnel" where ownerInstance fails.
  pub handle_public-Answered :
      (base : Str) (fault : Option ℕ) (j : ℕ) (r : PublicRequest) (body : List ℕ) (c : ℕ)
      (sub : Str)
      → r.body ≡ some body
      → subdomain_from_host base r.host ≡ c ∷ sub
      → Answered fault j
          (c ∷ sub)
          (forwarded r body)
          (handle_public error_text forward remote base fault s j r)
  unfolding handle_public with_body
  handle_public-Answered base fault j r body c sub b h =
      rw (handle_public, h)
        (rw (with_body, b)
          (route-Answered fault j (c ∷ sub) (forwarded r body) (local_lookup s j (c ∷ sub))
            (owner_instance fault s (c ∷ sub)) refl refl))

  -- Where Redis answers, and a message to an instance is delivered and answered as
  -- handleClusterRequest answers it: if an instance has the connection for the subdomain and the
  -- route leads to it, an instance without an entry for the subdomain answers a public request as
  -- the one with the connection does.
  pub handle_public-anywhere :
      (base : Str) (i j conn : ℕ) (r : PublicRequest)
      → local_lookup s i (subdomain_from_host base r.host) ≡ some conn
      → local_lookup s j (subdomain_from_host base r.host) ≡ none
      → owner_instance none s (subdomain_from_host base r.host) ≡ ok i
      → handle_public error_text forward remote base none s j r
        ≡ handle_public error_text forward remote base none s i r
  unfolding handle_public with_body route
  handle_public-anywhere base i j conn r here there owner =
      same (subdomain_from_host base r.host) r.body here there owner
    where
      same :
          (sub : Str) (body : Option (List ℕ))
          → local_lookup s i sub ≡ some conn
          → local_lookup s j sub ≡ none
          → owner_instance none s sub ≡ ok i
          → elim sub [
            | [] ↦ ok (http_error 502 (codes "no tunnel host"))
            | c ∷ t ↦ with_body error_text forward remote none s j (c ∷ t) r body
          ]
            ≡ elim sub [
              | [] ↦ ok (http_error 502 (codes "no tunnel host"))
              | c ∷ t ↦ with_body error_text forward remote none s i (c ∷ t) r body
            ]
      same [] body h t o = refl
      same (c ∷ sub) none h t o = refl
      same (c ∷ sub) (some body) h t o =
          rw (with_body, route, t, h, o)
            (through_owner-serves (c ∷ sub) (forwarded r body) i conn h)
