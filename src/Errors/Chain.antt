-- ===== src/Errors/Chain.antt =====
-- Walking the chain of an error: `errors.Is` of Go's library at a sentinel, `errors.As` at the
-- type `*AppError`, and CodeOf, MessageOf and the Is… helpers of error.go on top of them.
use gotra.Prelude.{ℕ, String, ◌≡◌, refl, ◌≢◌, Bool, true, false, Option, none, some, ◌==◌}
use gotra.Errors.{Code, Sentinel, GoError, AppPtr, Outcome, ok, err, panic, wrap}

-- The address of a sentinel.
unfoldable pub address : Sentinel → ℕ
address Sentinel.email_taken = 0
address Sentinel.invalid_credentials = 1
address Sentinel.weak_password = 2
address Sentinel.invalid_refresh = 3
address Sentinel.invalid_token = 4
address Sentinel.auth_not_found = 5
address Sentinel.unsupported_provider = 6
address Sentinel.projects_not_found = 7
address Sentinel.projects_forbidden = 8
address Sentinel.tunnels_not_found = 9
address Sentinel.tunnels_forbidden = 10
address Sentinel.billing_not_found = 11
address Sentinel.invalid_plan = 12
address Sentinel.quota_exceeded = 13
address Sentinel.no_webhook = 14
address Sentinel.unhandled_event = 15
address Sentinel.requests_not_found = 16
address Sentinel.no_data = 17
address Sentinel.ai_forbidden = 18
address Sentinel.no_tunnel = 19
address Sentinel.forward_timeout = 20
address Sentinel.invalid_hash = 21

-- errors.Is(err, target) at a sentinel. AppError.Is answers false, since a sentinel is no
-- `*AppError`; then the chain is followed by AppError.Unwrap, which reads through the pointer.
unfoldable pub is_sentinel : GoError → Sentinel → Outcome Bool
unfolding address
is_sentinel GoError.nil t = ok false
is_sentinel (GoError.holds AppPtr.null) t = panic
is_sentinel (GoError.holds (AppPtr.app code op message cause)) t = is_sentinel cause t
is_sentinel (GoError.sentinel s) t = ok (address s == address t)
is_sentinel (GoError.library n) t = ok false
is_sentinel (GoError.text s) t = ok false
is_sentinel (GoError.wrapped s e) t = is_sentinel e t

-- errors.As(err, &e) with `var e *AppError`.
unfoldable pub as_app : GoError → Option AppPtr
as_app GoError.nil = none
as_app (GoError.holds p) = some p
as_app (GoError.sentinel s) = none
as_app (GoError.library n) = none
as_app (GoError.text s) = none
as_app (GoError.wrapped s e) = as_app e

-- `e.Code` through a pointer.
unfoldable pub code_field : AppPtr → Outcome Code
code_field AppPtr.null = panic
code_field (AppPtr.app code op message cause) = ok code

unfoldable pub code_of_found : Option AppPtr → Outcome Code
unfolding code_field
code_of_found none = ok Code.unknown
code_of_found (some p) = code_field p

-- CodeOf
unfoldable pub code_of : GoError → Outcome Code
unfolding as_app code_of_found
code_of e = code_of_found (as_app e)

abbrev code_is : Outcome Code → (Code → Bool) → Outcome Bool
code_is (ok c) test = ok (test c)
code_is (err e) test = err e
code_is panic test = panic

abbrev pub is_code_not_found : Code → Bool
is_code_not_found Code.not_found = true
is_code_not_found _ = false

abbrev pub is_code_invalid_input : Code → Bool
is_code_invalid_input Code.invalid_input = true
is_code_invalid_input _ = false

-- IsNotFound
unfoldable pub is_not_found : GoError → Outcome Bool
unfolding code_of
is_not_found e = code_is (code_of e) is_code_not_found

-- IsInvalidInput
unfoldable pub is_invalid_input : GoError → Outcome Bool
unfolding code_of
is_invalid_input e = code_is (code_of e) is_code_invalid_input

-- The code of a wrapped error that is not nil is the code that Wrap was given, and every sentinel
-- of its cause is still found.
wrap-keeps :
    (e : GoError) (c : Code) (op message : String) (s : Sentinel)
    → e ≢ GoError.nil
    → let w = GoError.holds (wrap e c op message) in
      (code_of w ≡ ok c) × (is_sentinel w s ≡ is_sentinel e s)
unfolding wrap code_of is_sentinel
wrap-keeps GoError.nil c op message s h = absurd (h refl)
wrap-keeps _ c op message s h = (refl, refl)
