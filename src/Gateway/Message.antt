-- ===== src/Gateway/Message.antt =====
-- services/pkg/tunnelproto/protocol.go: the requests and responses that gateway and agent exchange,
-- and the messages of registry.go between gateway instances.
use gotra.Prelude.{ℕ, ℤ, Str, List, Option}

-- http.Header
abbrev pub Headers : Type 0
Headers = List (Str × List Str)

-- ForwardedRequest
pub record Request : Type 0 where
  pub method : Str
  pub path : Str
  pub headers : Headers
  pub body : List ℕ

-- ForwardedResponse
pub record Response : Type 0 where
  pub status : ℤ
  pub headers : Headers
  pub body : List ℕ

-- clusterRequest, without the identifiers
pub record ClusterRequest : Type 0 where
  pub subdomain : Str
  pub req : Request

-- clusterResponse, without the identifier; an empty text of `error` stands for none
pub record ClusterResponse : Type 0 where
  pub resp : Option Response
  pub error : Str
