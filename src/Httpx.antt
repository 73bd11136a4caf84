-- ===== src/Httpx.antt =====
-- services/pkg/httpx/http.go: how a handler answers an error, and middleware.Recovery, which
-- answers a panic.
pub mod Statuses
use gotra.Prelude.{ℕ, String, Option, none, some}
use gotra.Errors.{Code, GoError, AppPtr, Outcome, ok, err, panic}
use gotra.Errors.Chain.{as_app}

-- What `gin` writes: the status and the text under "error".
pub record Reply : Type 0 where
  pub status : ℕ
  pub message : String

-- Error
unfoldable pub reply : ℕ → String → Reply
reply status message = record { status = status; message = message }

-- InternalServerError
unfoldable pub internal_server_error : Reply
unfolding reply
internal_server_error = reply 500 ("internal server error")

-- The switch of MapError over the code, with the helpers BadRequest to Timeout.
unfoldable pub map_code : Code → String → Reply
unfolding reply internal_server_error
map_code Code.invalid_input message = reply 400 message
map_code Code.already_exists message = reply 409 message
map_code Code.unauthorized message = reply 401 message
map_code Code.unavailable message = reply 503 message
map_code Code.forbidden message = reply 403 message
map_code Code.unknown message = reply 400 message
map_code Code.timeout message = reply 504 message
map_code Code.not_found message = internal_server_error
map_code Code.internal message = internal_server_error

unfoldable pub map_found : Option AppPtr → GoError → Outcome Reply
unfolding map_code internal_server_error
map_found (some AppPtr.null) e = panic
map_found (some (AppPtr.app code op message cause)) e = ok (map_code code message)
map_found none GoError.nil = panic
map_found none e = ok internal_server_error

-- MapError
unfoldable pub map_error : GoError → Outcome Reply
unfolding as_app map_found
map_error e = map_found (as_app e) e

-- Recovery: a panic of a handler that has written nothing yet is answered with status 500.
unfoldable pub recovered : Outcome Reply → Reply
unfolding internal_server_error
recovered (ok r) = r
recovered (err e) = internal_server_error
recovered panic = internal_server_error
