-- ===== src/Gateway/Public.antt =====
-- services/internal/gateway/server.go: handlePublic, serveLocally and handleClusterRequest, with
-- forwardRemote of registry.go. What `forward` returns for a connection, what another instance
-- replies, and the text of an error are arguments. Captures do not affect the response.
pub mod Anywhere
use gotra.Prelude.{
  ℕ, ℤ, pos, negsuc, not, Str, Bool, true, false, ◌||◌, Option, none, some, List, [], ◌∷◌, ◌++◌,
  ltb, if◌then◌else◌, codes, take,
}
use gotra.Errors.{GoError, Outcome, ok, err, panic}
use gotra.Store.Action.{Attempt, got, failed}
use gotra.Gateway.Host.{subdomain_from_host, forward_path}
use gotra.Gateway.Message.{Headers, Request, Response, ClusterRequest, ClusterResponse}
use gotra.Gateway.Registry.{Cluster, local_lookup, owner_instance}

-- The parts of the public request that the handler reads; `body` is `none` where reading fails.
pub record PublicRequest : Type 0 where
  pub host : Str
  pub method : Str
  pub path : Str
  pub raw_query : Str
  pub headers : Headers
  pub body : Option (List ℕ)

-- http.Error
unfoldable pub http_error : ℕ → Str → Response
http_error status text = record {
  status = pos status;
  headers =
      (codes "Content-Type", codes "text/plain; charset=utf-8" ∷ [])
      ∷ (codes "X-Content-Type-Options", codes "nosniff" ∷ [])
      ∷ [];
  body = text ++ b'\n' ∷ [];
}

-- w.WriteHeader panics on a status that is no three-digit number.
abbrev is_status : ℤ → Bool
is_status (negsuc n) = false
is_status (pos n) = not (ltb n 100 || ltb 999 n)

unfoldable pub written : Response → Outcome Response
written r = if is_status r.status then ok r else panic

-- The response that handlePublic writes, a pointer.
unfoldable pub write_pointer : Option Response → Outcome Response
unfolding written
write_pointer none = panic
write_pointer (some r) = written r

unfoldable pub no_active_tunnel : Str → Str
no_active_tunnel sub = codes "no active tunnel for " ++ sub

-- fwReq, with the cap of 32 MiB on the body
unfoldable pub forwarded : PublicRequest → List ℕ → Request
unfolding forward_path
forwarded r body = record {
  method = r.method;
  path = forward_path r.path r.raw_query;
  headers = r.headers;
  body = take 33554432 body;
}

module _ (error_text : GoError → Str) (forward : ℕ → Request → Attempt Response) where
  unfoldable pub served : Attempt Response → Response
  served (got r) = r
  served (failed e) = record {
    status = pos 502;
    headers = (codes "Content-Type", codes "text/plain; charset=utf-8" ∷ []) ∷ [];
    body = codes "tunnel error: " ++ error_text e;
  }

  -- serveLocally
  unfoldable pub serve_locally : ℕ → Request → Response
  unfolding served
  serve_locally conn req = served (forward conn req)

  unfoldable pub cluster_reply : ClusterRequest → Option ℕ → ClusterResponse
  unfolding serve_locally no_active_tunnel
  cluster_reply m (some conn) = record { resp = some (serve_locally conn m.req); error = [] }
  cluster_reply m none = record { resp = none; error = no_active_tunnel m.subdomain }

  -- handleClusterRequest, at the instance `i`
  unfoldable pub handle_cluster_request : Cluster → ℕ → ClusterRequest → ClusterResponse
  unfolding cluster_reply
  handle_cluster_request s i m = cluster_reply m (local_lookup s i m.subdomain)

  module _ (remote : ℕ → ClusterRequest → Attempt ClusterResponse) where
    unfoldable pub reply_or_error : ClusterResponse → Attempt (Option Response)
    reply_or_error r = elim r.error [
      | [] ↦ got r.resp
      | c ∷ text ↦ failed (GoError.text (c ∷ text))
    ]

    unfoldable pub awaited : Attempt ClusterResponse → Attempt (Option Response)
    unfolding reply_or_error
    awaited (got r) = reply_or_error r
    awaited (failed e) = failed e

    -- forwardRemote
    unfoldable pub forward_remote : ℕ → Str → Request → Attempt (Option Response)
    unfolding awaited
    forward_remote owner sub req = awaited (remote owner (record { subdomain = sub; req = req }))

    unfoldable pub answer_remote : Attempt (Option Response) → Outcome Response
    unfolding write_pointer http_error
    answer_remote (got r) = write_pointer r
    answer_remote (failed e) = ok (http_error 502 (codes "tunnel error: " ++ error_text e))

    unfoldable pub through_owner : Str → Request → Outcome ℕ → Outcome Response
    unfolding forward_remote answer_remote http_error no_active_tunnel
    through_owner sub req (ok owner) = answer_remote (forward_remote owner sub req)
    through_owner sub req (err e) = ok (http_error 502 (no_active_tunnel sub))
    through_owner sub req panic = panic

    -- handlePublic past the reading of the body, at the instance `i`
    unfoldable pub route : Option ℕ → Cluster → ℕ → Str → Request → Outcome Response
    unfolding written through_owner serve_locally
    route fault s i sub req = elim (local_lookup s i sub) [
      | some conn ↦ written (serve_locally conn req)
      | none ↦ through_owner sub req (owner_instance fault s sub)
    ]

    unfoldable pub with_body :
        Option ℕ → Cluster → ℕ → Str → PublicRequest → Option (List ℕ) → Outcome Response
    unfolding route forwarded http_error
    with_body fault s i sub r none = ok (http_error 400 (codes "read body"))
    with_body fault s i sub r (some body) = route fault s i sub (forwarded r body)

    -- handlePublic, at the instance `i`, where `fault` is the error of the driver of Redis
    unfoldable pub handle_public : Str → Option ℕ → Cluster → ℕ → PublicRequest → Outcome Response
    unfolding with_body http_error
    handle_public base fault s i r = elim (subdomain_from_host base r.host) [
      | [] ↦ ok (http_error 502 (codes "no tunnel host"))
      | c ∷ sub ↦ with_body fault s i (c ∷ sub) r r.body
    ]
