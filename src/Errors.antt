-- ===== src/Errors.antt =====
-- services/utils/error/error.go: the classified errors of the services, as Go's `error` values.
-- A value of the interface `error` is nil, or holds a `*AppError` (which may itself be a nil
-- pointer), or holds another error: a sentinel of `errors.New`, which is compared by identity, an
-- error of a library, which is given by a number, or one made by `errors.New` or `fmt.Errorf` on
-- the way (`wrapped` for the verb `%w`).
pub mod Chain
pub mod Sequence
use gotra.Prelude.{ℕ, Str, String}

-- The constants of `Code`.
pub data Code : Type 0 where
  unknown not_found already_exists invalid_input unauthorized : Code
  forbidden timeout unavailable internal : Code

-- Code.HTTPStatus, and Code.String, which has the same body.
unfoldable pub http_status : Code → ℕ
http_status not_found = 404
http_status already_exists = 409
http_status invalid_input = 400
http_status unauthorized = 401
http_status forbidden = 403
http_status timeout = 504
http_status unavailable = 503
http_status internal = 500
http_status unknown = 500

-- The package variables made by `errors.New`, by package.
pub data Sentinel : Type 0 where
  email_taken invalid_credentials weak_password invalid_refresh invalid_token : Sentinel
  auth_not_found unsupported_provider : Sentinel
  projects_not_found projects_forbidden : Sentinel
  tunnels_not_found tunnels_forbidden : Sentinel
  billing_not_found invalid_plan quota_exceeded no_webhook unhandled_event : Sentinel
  requests_not_found no_data ai_forbidden : Sentinel
  no_tunnel forward_timeout : Sentinel
  invalid_hash : Sentinel

mutual
  -- A value of the interface type `error`.
  pub data GoError : Type 0 where
    nil : GoError
    holds : AppPtr → GoError
    sentinel : Sentinel → GoError
    library : ℕ → GoError
    text : Str → GoError
    wrapped : String → GoError → GoError

  -- A value of type `*AppError`: its Code, Op, Message and Err. Detail, Fields, Stack and Time
  -- serve the logs only. Texts that are never taken apart are native strings.
  pub data AppPtr : Type 0 where
    null : AppPtr
    app : Code → String → String → GoError → AppPtr

-- New
unfoldable pub new_error : Code → String → String → AppPtr
new_error code op message = app code op message nil

-- Wrap
unfoldable pub wrap : GoError → Code → String → String → AppPtr
wrap nil code op message = null
wrap err code op message = app code op message err

-- The outcome of a call: it returned, it returned an error, or it panicked.
pub data Outcome {ℓ} (A : Type ℓ) : Type ℓ where
  ok : A → Outcome A
  err : GoError → Outcome A
  panic : Outcome A

-- AppError.Unwrap, called through a pointer.
unfoldable pub unwrap_ptr : AppPtr → Outcome GoError
unwrap_ptr null = panic
unwrap_ptr (app code op message cause) = ok cause
