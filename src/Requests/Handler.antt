-- ===== src/Requests/Handler.antt =====
-- services/internal/requests/handler.go: the three endpoints. `parse_uuid` is uuid.Parse, `atoi` is
-- strconv.Atoi with 0 for an error, and the body of replay is what ShouldBindJSON made of it,
-- whether it failed or not.
use gotra.Prelude.{ℕ, ℤ, Str, Option, List}
use gotra.Errors.{GoError, Sentinel, Outcome, ok}
use gotra.Store.Action.{Env, M}
use gotra.Web.{
  Claims, Answer, success, refusal, literal, error_text, current_user_id, when_is, conclude,
  with_id,
}
use gotra.Web.Laws.{Refuses, when_is-NoSuccess, refusal-NoSuccess}
use gotra.Requests.{Summary, Detail}
use gotra.Requests.Replay.{ReplayInput, ReplayResult, Outgoing, list, get, replay}

-- writeError
unfoldable pub write_error : {A : Type 0} → GoError → Outcome (Answer A)
write_error e =
    when_is e Sentinel.requests_not_found (refusal 404 (literal "not found"))
      (ok (refusal 502 (error_text e)))

module _ (env : Env) (parse_uuid : Str → Option ℕ) where
  -- list
  unfoldable pub list_requests : (Str → ℤ) → Option Claims → Str → Str → M (Answer (List Summary))
  unfolding list
  list_requests atoi claims project_id limit =
      with_id "project_id query parameter is required" (parse_uuid project_id) (λ id.
        conclude write_error (success 200) (list env (current_user_id claims) id (atoi limit)))

  -- get
  unfoldable pub get_request : Option Claims → Str → M (Answer Detail)
  unfolding get
  get_request claims id =
      with_id "invalid request id" (parse_uuid id)
        (λ id. conclude write_error (success 200) (get env (current_user_id claims) id))

  -- replay
  unfoldable pub replay_request :
      Str
      → (Outgoing → Outcome (ℤ × Str))
      → ℕ
      → Option Claims
      → Str
      → ReplayInput
      → M (Answer ReplayResult)
  unfolding replay
  replay_request gateway_url send elapsed claims id input =
      with_id "invalid request id" (parse_uuid id) (λ id.
        conclude write_error (success 200)
          (replay env gateway_url send elapsed (current_user_id claims) id input))

write_error-Refuses : {A : Type 0} → Refuses {B = A} write_error
unfolding write_error
write_error-Refuses e = when_is-NoSuccess e _ _ _ _ (refusal-NoSuccess _ _)
