-- ===== src/Httpx/Statuses.antt =====
-- The statuses and messages of `MapError` against those of the error and its code.
use gotra.Prelude.{String, ◌≡◌, refl, ◌≢◌, ◌⊎◌, inl, inr, ◌↔◌, Option, none, some, arith}
use gotra.Errors.{Code, GoError, AppPtr, ok, http_status}
use gotra.Errors.Chain.{as_app}
use gotra.Httpx.{Reply, map_code, map_found, map_error, recovered, internal_server_error}

-- MapError answers a classified error, and the status is the one of its code exactly if the code
-- is neither NotFound nor Unknown.
pub map_error-http_status :
    (c : Code) (op message : String) (cause : GoError)
    → (r : Reply) × (map_error (GoError.holds (AppPtr.app c op message cause)) ≡ ok r)
      × ((r.status ≡ http_status c) ↔ (c ≢ Code.not_found) × (c ≢ Code.unknown))
unfolding map_error http_status
map_error-http_status Code.unknown op message cause =
    (_, refl, ((λ e. absurd (omega arith)), (λ h. absurd (h.1 refl))))
map_error-http_status Code.not_found op message cause =
    (_, refl, ((λ e. absurd (omega arith)), (λ h. absurd (h.0 refl))))
map_error-http_status _ op message cause = (_, refl, ((λ _. ((λ e. cc), (λ e. cc))), (λ _. refl)))

-- A reply that says no more than that the server failed.
abbrev pub IsInternal : Reply → Type 0
IsInternal r = (r.status ≡ 500) × (r.message ≡ "internal server error")

-- A reply with the message of the first classified error in the chain.
abbrev pub HasMessageOf : Reply → GoError → Type 0
HasMessageOf r e =
    (c : Code) × (op : String) × (m : String) × (cause : GoError) × (as_app e
      ≡ some (AppPtr.app c op m cause))
    × (r.message ≡ m)
    × (r.status ≢ 500)

message-map_code :
    (c : Code) (op m : String) (cause : GoError) (e : GoError)
    → as_app e ≡ some (AppPtr.app c op m cause)
    → IsInternal (map_code c m) ⊎ HasMessageOf (map_code c m) e
unfolding map_code
message-map_code Code.not_found op m cause e h = inl (refl, refl)
message-map_code Code.internal op m cause e h = inl (refl, refl)
message-map_code c op m cause e h = inr (c, op, m, cause, h, refl, (λ k. absurd (omega arith)))

message-map_found :
    (p : Option AppPtr) (e : GoError)
    → as_app e ≡ p
    → IsInternal (recovered (map_found p e)) ⊎ HasMessageOf (recovered (map_found p e)) e
unfolding map_found recovered internal_server_error
message-map_found (some AppPtr.null) e h = inl (refl, refl)
message-map_found (some (AppPtr.app c op m cause)) e h = message-map_code c op m cause e h
message-map_found none GoError.nil h = inl (refl, refl)
message-map_found none _ h = inl (refl, refl)

-- Whatever a handler passes to MapError, nil and nil pointers included, the client gets either
-- status 500 with a fixed text, or another status with the message of the first classified error
-- in the chain; the text of a cause is never sent.
pub recovered-map_error :
    (e : GoError) → IsInternal (recovered (map_error e)) ⊎ HasMessageOf (recovered (map_error e)) e
unfolding map_error
recovered-map_error e = message-map_found (as_app e) e refl
